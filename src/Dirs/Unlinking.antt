-- ===== src/Dirs/Unlinking.antt =====
-- `sys_unlink` and the links of inodes.
use basic_os.Prelude.{
  ℕ, ◌+◌, ◌^◌, ◌≤◌, ◌<◌, ◌≡◌, ◌≢◌, inl, inr, refl, arith, Bool, true, false, not, ◌&&◌, ◌||◌, ◌==◌,
  Bool-cases, Option, some, none, List,
}
use basic_os.Path.{dirsiz, same_name, namex}
use basic_os.Dirs.{
  Fs, t_dir, dot, dot_dot, find_name, entries_of, isdirempty, no_links, unlink_at, unlink_found,
  unlink_in, sys_unlink,
}
use basic_os.Dirs.Links.{is_live, IsLinked}
use basic_os.Dirs.Removal.{IsLeaf, nlink_ip, unlink_at-IsLinked}

-- How `sys_unlink` ends
abbrev pub UnlinkEnds : ℕ → Fs → Option (ℕ × List ℕ) → Option (Bool × Fs) → Type 0
UnlinkEnds ninodes fs parent none = (ip : ℕ) × (2 ^ 15 ≤ (fs ip).nlink)
UnlinkEnds ninodes fs parent (some (false, fs')) = (n : ℕ) → fs' n ≡ fs n
UnlinkEnds ninodes fs parent (some (true, fs')) =
    IsLinked ninodes fs'
    × (dp slot ip : ℕ) × (name : List ℕ) × (parent ≡ some (dp, name))
    × (find_name (fs dp).entries name 0 ≡ some (slot, ip))
    × ((fs' ip).nlink + 1 ≡ (fs ip).nlink)

-- What the callers of `sys_unlink` rely on
abbrev pub CanUnlink : Fs → ℕ → List ℕ → Type 0
CanUnlink fs dp name =
    (is_live (fs dp) ≡ true)
    × ((slot ip : ℕ)
        → find_name (fs dp).entries name 0 ≡ some (slot, ip)
        → (fs ip).type ≡ t_dir
        → isdirempty (fs ip) ≡ true
        → IsLeaf fs dp ip)

nlink-unlink_at :
    (fs : Fs) (dp slot ip : ℕ)
    → (fs ip).nlink ≢ 0
    → (fs ip).nlink < 2 ^ 16
    → ((fs ip).type ≡ t_dir → ip ≢ dp)
    → (unlink_at dp slot ip fs ip).nlink + 1 ≡ (fs ip).nlink
nlink-unlink_at fs dp slot ip h l n = ground (arith, h, l, n)

unlink_found-UnlinkEnds :
    (ninodes : ℕ) (fs : Fs) (dp : ℕ) (name : List ℕ) (o : Option (ℕ × ℕ))
    → IsLinked ninodes fs
    → CanUnlink fs dp name
    → same_name dirsiz name dot ≡ false
    → find_name (fs dp).entries name 0 ≡ o
    → UnlinkEnds ninodes fs (some (dp, name)) (unlink_found fs dp o)
unlink_found-UnlinkEnds ninodes fs dp name none v c s e = λ n. refl
unlink_found-UnlinkEnds ninodes fs dp name (some (slot, ip)) v c s e =
    let z = nlink_ip ninodes fs dp name slot ip v c.0 s e in
    elim (Bool-cases (no_links (fs ip))) [
      | inl a ↦ rw a (ip, ground (arith, a, z))
      | inr a ↦ elim (Bool-cases (((fs ip).type == t_dir) && not (isdirempty (fs ip)))) [
        | inl b ↦ rw (a, b) (λ n. refl)
        | inr b ↦
            let leaf = λ (t : (fs ip).type ≡ t_dir). c.1 slot ip e t (ground (arith, b, t)) in
            rw (a, b)
              (
                unlink_at-IsLinked ninodes fs dp name slot ip v c.0 s e leaf,
                dp,
                slot,
                ip,
                name,
                refl,
                e,
                nlink-unlink_at fs dp slot ip z (v.typed.bounded ip) (λ t. (leaf t).0),
              )
      ]
    ]

unlink_in-UnlinkEnds :
    (ninodes : ℕ) (fs : Fs) (p : Option (ℕ × List ℕ))
    → IsLinked ninodes fs
    → ((dp : ℕ) (name : List ℕ) → p ≡ some (dp, name) → CanUnlink fs dp name)
    → UnlinkEnds ninodes fs p (unlink_in fs p)
unlink_in-UnlinkEnds ninodes fs none v c = λ n. refl
unlink_in-UnlinkEnds ninodes fs (some (dp, name)) v c =
    elim (Bool-cases (same_name dirsiz name dot || same_name dirsiz name dot_dot)) [
      | inl a ↦ rw a (λ n. refl)
      | inr a ↦
          let r = c dp name refl in
          let t : ((fs dp).type == t_dir) ≡ true = ground (arith, r.0) in
          rw (a, t)
            (unlink_found-UnlinkEnds ninodes fs dp name (find_name (fs dp).entries name 0) v r
              (ground (arith, a)) refl)
    ]

-- Take a file system where the `nlink` of each inode is the number of entries, "." left out, that name
-- it in directories with links of their own. Let `nameiparent` find none, or a directory in use; and
-- let an empty directory there have one link and "..", which names its parent, with more than one link
-- itself. If `sys_unlink` panics, an inode has 2 ^ 15 links or more. If it returns -1, the file system
-- is as before. If it returns 0, each `nlink` is still that number, and the inode that had the name
-- has a link less.
pub sys_unlink-UnlinkEnds :
    (ninodes root cwd : ℕ) (path : List ℕ) (fs : Fs)
    → IsLinked ninodes fs
    → ((dp : ℕ) (name : List ℕ)
        → namex (entries_of fs) root cwd path true ≡ some (dp, name)
        → CanUnlink fs dp name)
    → UnlinkEnds ninodes fs (namex (entries_of fs) root cwd path true) (sys_unlink root cwd path fs)
unfolding sys_unlink
sys_unlink-UnlinkEnds ninodes root cwd path fs v c = unlink_in-UnlinkEnds ninodes fs _ v c

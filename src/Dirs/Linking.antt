-- ===== src/Dirs/Linking.antt =====
-- `sys_link` and the links of inodes.
use basic_os.Prelude.{
  ℕ, ◌+◌, ◌^◌, ◌≤◌, ◌<◌, ◌≡◌, ◌≢◌, Bool, true, false, ◌==◌, Option, some, none, List,
}
use basic_os.Path.{dirsiz, same_name}
use basic_os.Dirs.{Fs, t_dir, dot, find_name, free_slot, fits, add_link}
use basic_os.Dirs.Links.{is_live, IsLinked}

-- A directory that is in use, and has the name "." if that is the one looked for
abbrev pub IsReached : Fs → ℕ → List ℕ → Type 0
IsReached fs dp name =
    (is_live (fs dp) ≡ true)
    × (find_name (fs dp).entries name 0 ≡ none → same_name dirsiz name dot ≡ false)

-- An inode in use that can have one more link
abbrev pub CanLink : Fs → ℕ → Type 0
CanLink fs ip = ((fs ip).type ≢ 0) × (ip ≢ 0) × ((fs ip).nlink + 1 < 2 ^ 16)

-- How `sys_link` ends
abbrev pub LinkEnds : ℕ → Fs → ℕ → ℕ → List ℕ → Option (Bool × Fs) → Type 0
LinkEnds ninodes fs ip dp name none = fits (free_slot (fs dp).entries) ≡ false
LinkEnds ninodes fs ip dp name (some (false, fs')) = (n : ℕ) → fs' n ≡ fs n
LinkEnds ninodes fs ip dp name (some (true, fs')) =
    IsLinked ninodes fs'
    × (find_name (fs' dp).entries name 0 ≡ some (free_slot (fs dp).entries + 0, ip))

module _ (ninodes : ℕ) (fs : Fs) (ip dp : ℕ) (name : List ℕ) (v : IsLinked ninodes fs)
    (c : CanLink fs ip) (t : ((fs ip).type == t_dir) ≡ false) (small : ninodes ≤ 2 ^ 16) where
  abbrev with_link : Fs
  with_link = add_link ip fs

-- How `sys_link` ends, for what `namei` and `nameiparent` find
abbrev pub SysLinkEnds :
    ℕ → Fs → Option (ℕ × List ℕ) → Option (ℕ × List ℕ) → Option (Bool × Fs) → Type 0
SysLinkEnds ninodes fs old new none =
    (dp : ℕ) × (name : List ℕ) × (new ≡ some (dp, name))
    × (fits (free_slot (fs dp).entries) ≡ false)
SysLinkEnds ninodes fs old new (some (false, fs')) = (n : ℕ) → fs' n ≡ fs n
SysLinkEnds ninodes fs old new (some (true, fs')) =
    IsLinked ninodes fs'
    × (ip dp slot : ℕ) × (last name : List ℕ) × (old ≡ some (ip, last))
    × (new ≡ some (dp, name))
    × (find_name (fs' dp).entries name 0 ≡ some (slot, ip))

-- ===== src/Dirs/Creating.antt =====
-- `create` and the links of inodes.
use basic_os.Prelude.{ℕ, ◌+◌, ◌^◌, ◌≤◌, ◌<◌, ◌≡◌, ◌≢◌, ◌⊎◌, false, update, Option, some, none, List}
use basic_os.Dirs.{Fs, t_dir, dot, dot_dot, find_name, free_slot, fits, add_entry, add_link, fresh}
use basic_os.Dirs.Links.{IsLinked}
use basic_os.Dirs.Linking.{IsReached}
use basic_os.Dirs.Removal.{IsLeaf}

-- How `create` ends
abbrev pub IsFull : ℕ → Fs → Option (ℕ × List ℕ) → Type 0
IsFull ninodes fs parent =
    ((n : ℕ) → 1 ≤ n → n < ninodes → (fs n).type ≢ 0)
    ⊎ ((dp : ℕ) × (name : List ℕ) × (parent ≡ some (dp, name))
        × (fits (free_slot (fs dp).entries) ≡ false))

abbrev pub CreateEnds : ℕ → ℕ → Fs → Option (ℕ × List ℕ) → Option (Option ℕ × Fs) → Type 0
CreateEnds ninodes type fs parent none = IsFull ninodes fs parent
CreateEnds ninodes type fs parent (some (none, fs')) = (n : ℕ) → fs' n ≡ fs n
CreateEnds ninodes type fs parent (some (some ip, fs')) =
    IsLinked ninodes fs'
    × ((fs' ip).type ≡ type)
    × (dp slot : ℕ) × (name : List ℕ) × (parent ≡ some (dp, name))
    × (find_name (fs' dp).entries name 0 ≡ some (slot, ip))
    × (type ≡ t_dir → IsLeaf fs' dp ip)

-- A directory where `create` may make an entry
abbrev pub CanCreate : Fs → ℕ → List ℕ → Type 0
CanCreate fs dp name = IsReached fs dp name × ((fs dp).nlink + 1 < 2 ^ 16) × (dp ≢ 0)

module _ (ninodes type major minor : ℕ) (fs : Fs) (dp : ℕ) (name : List ℕ) (ip : ℕ)
    (v : IsLinked ninodes fs) (small : ninodes ≤ 2 ^ 16) (y : type ≢ 0) (c : CanCreate fs dp name)
    (l : ip < ninodes) (p : 1 ≤ ip) (z : (fs ip).type ≡ 0)
    (e : find_name (fs dp).entries name 0 ≡ none) where
  abbrev with_inode : Fs
  with_inode = update fs ip (fresh (fs dp).dev type major minor)

  abbrev with_dots : Fs
  with_dots = add_entry (add_entry (add_link dp with_inode) ip dot ip) ip dot_dot dp

-- ===== src/Dirs/Open/Ends.antt =====
-- How `sys_open` ends.
use basic_os.Prelude.{
  ℕ, ◌≡◌, ◌≢◌, ◌⊎◌, ◌<◌, ◌/◌, ◌%◌, ◌||◌, not, Option, none, some, List, ◌==◌, get_elem?, set,
  length,
}
use basic_os.File.{fd_none, fd_inode, File, Files}
use basic_os.Dirs.{Fs, find_name, t_dir}
use basic_os.Dirs.Links.{IsLinked}
use basic_os.Dirs.Creating.{IsFull}

-- A descriptor that was free, for a file that was not in use: 1 is O_WRONLY and 2 is O_RDWR.
abbrev pub IsOpened : ℕ → ℕ → Files → ℕ → Files → Type 0
IsOpened omode ip s fd s' =
    (get_elem? s.ofile fd ≡ some none)
    × (i : ℕ) × (f : File) × (get_elem? s.files i ≡ some f)
    × (f.ref ≡ 0)
    × (get_elem? s'.ofile fd ≡ some (some i))
    × (get_elem? s'.files i
        ≡ some (record {
          type_of = fd_inode;
          ref = 1;
          readable = not (omode % 2 == 1);
          writable = (omode % 2 == 1) || (omode / 2 % 2 == 1);
          pipe = f.pipe;
          ip = ip;
          off = 0;
        }))

abbrev IsFreeAt : List File → ℕ → Type 0
IsFreeAt fs i = (f : File) × (get_elem? fs i ≡ some f) × (f.ref ≡ 0) × (i < length fs)

-- Files in use stay as they are.
abbrev IsSame : Files → Files → Type 0
IsSame s s' =
    (s'.ofile ≡ s.ofile)
    × ((k : ℕ) (f : File)
        → get_elem? s.files k ≡ some f
        → f.ref ≢ 0
        → get_elem? s'.files k ≡ some f)

abbrev FileEnds : ℕ → ℕ → Files → Option (Option ℕ × Files) → Type 0
FileEnds omode ip s none = ⊥
FileEnds omode ip s (some (none, s')) = IsSame s s'
FileEnds omode ip s (some (some fd, s')) = IsOpened omode ip s fd s'

module _ (omode ip : ℕ) (s : Files) (i : ℕ) (f : File) (e : get_elem? s.files i ≡ some f)
    (z : f.ref ≡ 0) (l : i < length s.files) where
  abbrev taken : List File
  taken = set s.files i (record f { ref = 1 })

  abbrev undone : List File
  undone = set taken i (record f { ref = 0; type_of = fd_none })

-- The inode that a path names: with O_CREATE, which is 512, the one in the directory that
-- `nameiparent` finds, or else the one that `namei` finds.
abbrev pub IsNamed : ℕ → Option (ℕ × List ℕ) → Option (ℕ × List ℕ) → Fs → ℕ → Type 0
IsNamed omode old parent fs ip =
    ((omode / 512 % 2 ≡ 0) × (last : List ℕ) × (old ≡ some (ip, last)))
    ⊎ ((omode / 512 % 2 ≡ 1)
        × (dp slot : ℕ) × (name : List ℕ) × (parent ≡ some (dp, name))
        × (find_name (fs dp).entries name 0 ≡ some (slot, ip)))

-- How `sys_open` ends, for what `namei` and `nameiparent` find
abbrev pub OpenEnds :
    ℕ
    → ℕ
    → Fs
    → Files
    → Option (ℕ × List ℕ)
    → Option (ℕ × List ℕ)
    → Option (Option ℕ × Fs × Files)
    → Type 0
OpenEnds ninodes omode fs s old parent none = IsFull ninodes fs parent
OpenEnds ninodes omode fs s old parent (some (none, fs', s')) = IsLinked ninodes fs' × IsSame s s'
OpenEnds ninodes omode fs s old parent (some (some fd, fs', s')) =
    IsLinked ninodes fs'
    × (ip : ℕ) × IsNamed omode old parent fs' ip
    × ((fs' ip).type ≡ t_dir → omode ≡ 0)
    × IsOpened omode ip s fd s'

-- ===== src/File.antt =====
-- xv6-public/file.c and the descriptors of sysfile.c: the table of open files and a process's `ofile`.
-- A `struct file *` is a slot of the table.
pub mod Holds
pub mod Counts
use basic_os.Prelude.{
  ℕ, zero, suc, ◌+◌, ◌-◌, ◌%◌, ◌^◌, Bool, true, false, ◌||◌, Option, none, some, List, [], ◌∷◌,
  ◌==◌, leb, if◌then◌else◌, length, get_elem?, set,
}

pub data FileType : Type 0 where
  fd_none fd_pipe fd_inode : FileType

pub record File : Type 0 where
  pub type_of : FileType
  pub ref : ℕ
  pub readable : Bool
  pub writable : Bool
  pub pipe : ℕ
  pub ip : ℕ
  pub off : ℕ

-- What `fileclose` does after it drops the lock of the table.
pub data Closing : Type 0 where
  nothing : Closing
  close_pipe : ℕ → Bool → Closing
  put_inode : ℕ → Closing

-- `f->ref < 1`, for a 32-bit signed count.
abbrev pub no_refs : File → Bool
no_refs f = (f.ref == 0) || leb (2 ^ 31) f.ref

-- The first slot with no references.
abbrev pub find_free : List File → Option ℕ
find_free [] = none
find_free (f ∷ fs) =
    if f.ref == 0 then some 0 else elim (find_free fs) [ none ↦ none | some i ↦ some (suc i) ]

-- `filealloc`, with the table after it.
unfoldable pub filealloc : List File → Option ℕ × List File
filealloc fs = elim (find_free fs) [
  | none ↦ (none, fs)
  | some i ↦ elim (get_elem? fs i) [
    | none ↦ (none, fs)
    | some f ↦ (some i, set fs i (record f { ref = 1 }))
  ]
]

-- `filedup`; none is a panic or a pointer out of the table.
pub filedup : ℕ → List File → Option (List File)
filedup i fs = elim (get_elem? fs i) [
  | none ↦ none
  | some f ↦ if no_refs f then none else some (set fs i (record f { ref = (f.ref + 1) % 2 ^ 32 }))
]

abbrev pub closing : File → Closing
closing f = elim f.type_of [
  | fd_none ↦ nothing
  | fd_pipe ↦ close_pipe f.pipe f.writable
  | fd_inode ↦ put_inode f.ip
]

-- `fileclose`
unfoldable pub fileclose : ℕ → List File → Option (List File × Closing)
fileclose i fs = elim (get_elem? fs i) [
  | none ↦ none
  | some f ↦
      if no_refs f
      then none
      else if f.ref == 1
      then some (set fs i (record f { ref = 0; type_of = fd_none }), closing f)
      else some (set fs i (record f { ref = f.ref - 1 }), nothing)
]

-- The table of the system and the descriptors of a process.
pub record Files : Type 0 where
  pub files : List File
  pub ofile : List (Option ℕ)

-- `argfd`, for a descriptor that is not negative: its file.
abbrev pub argfd : ℕ → List (Option ℕ) → Option ℕ
argfd fd os = elim (get_elem? os fd) [ none ↦ none | some o ↦ o ]

-- The first descriptor that is free.
abbrev pub free_fd : List (Option ℕ) → Option ℕ
free_fd [] = none
free_fd (none ∷ os) = some 0
free_fd (some i ∷ os) = elim (free_fd os) [ none ↦ none | some fd ↦ some (suc fd) ]

-- `fdalloc`
unfoldable pub fdalloc : ℕ → List (Option ℕ) → Option ℕ × List (Option ℕ)
fdalloc i os = elim (free_fd os) [ none ↦ (none, os) | some fd ↦ (some fd, set os fd (some i)) ]

-- `sys_dup` past its call of `fdalloc`.
abbrev pub dup_into : ℕ → Files → Option ℕ × List (Option ℕ) → Option (Option ℕ × Files)
dup_into i s (none, os) = some (none, s)
dup_into i s (some new, os) = elim (filedup i s.files) [
  | none ↦ none
  | some fs ↦ some (some new, record { files = fs; ofile = os })
]

-- `sys_dup` and `sys_close`: `none` outside is a panic, and inside the result -1.
pub sys_dup : ℕ → Files → Option (Option ℕ × Files)
sys_dup fd s = elim (argfd fd s.ofile) [
  | none ↦ some (none, s)
  | some i ↦ dup_into i s (fdalloc i s.ofile)
]

pub sys_close : ℕ → Files → Option (Option Closing × Files)
sys_close fd s = elim (argfd fd s.ofile) [
  | none ↦ some (none, s)
  | some i ↦ elim (fileclose i s.files) [
    | none ↦ none
    | some (fs, after) ↦ some (some after, record { files = fs; ofile = set s.ofile fd none })
  ]
]

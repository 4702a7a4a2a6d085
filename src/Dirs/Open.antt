-- ===== src/Dirs/Open.antt =====
-- xv6-public/sysfile.c: `sys_open`, `sys_mkdir`, `sys_mknod` and `sys_chdir`, over the directories of Dirs
-- and the open files of File.
pub mod Ends
use basic_os.Prelude.{
  ℕ, ◌/◌, ◌%◌, Bool, true, false, not, ◌&&◌, ◌||◌, Option, none, some, List, ◌==◌, if◌then◌else◌,
  get_elem?, set,
}
use basic_os.Path.{namex}
use basic_os.Content.{t_dev}
use basic_os.File.{fd_inode, File, Closing, Files, filealloc, fdalloc, fileclose}
use basic_os.Dirs.{t_dir, t_file, Fs, entries_of, create}

-- `omode & O_WRONLY`, `omode & O_RDWR` and `omode & O_CREATE`
abbrev pub o_wronly : ℕ → Bool
o_wronly omode = omode % 2 == 1

abbrev pub o_rdwr : ℕ → Bool
o_rdwr omode = omode / 2 % 2 == 1

abbrev pub o_create : ℕ → Bool
o_create omode = omode / 512 % 2 == 1

-- The inode that `sys_open` opens, or none for -1
abbrev pub open_old : ℕ → Fs → Option (ℕ × List ℕ) → Option ℕ × Fs
open_old omode fs none = (none, fs)
open_old omode fs (some (ip, name)) =
    (if ((fs ip).type == t_dir) && not (omode == 0) then none else some ip, fs)

abbrev pub open_inode : ℕ → ℕ → ℕ → List ℕ → ℕ → Fs → Option (Option ℕ × Fs)
open_inode ninodes root cwd path omode fs =
    if o_create omode
    then create ninodes t_file 0 0 root cwd path fs
    else some (open_old omode fs (namex (entries_of fs) root cwd path false))

-- The fields that `sys_open` sets
abbrev pub with_mode : ℕ → ℕ → File → File
with_mode omode ip f = record f {
  type_of = fd_inode;
  ip = ip;
  off = 0;
  readable = not (o_wronly omode);
  writable = o_wronly omode || o_rdwr omode;
}

abbrev pub set_mode : ℕ → ℕ → ℕ → List File → List File
set_mode omode ip i files = elim (get_elem? files i) [
  | none ↦ files
  | some f ↦ set files i (with_mode omode ip f)
]

abbrev pub no_fd : List (Option ℕ) → Option (List File × Closing) → Option (Option ℕ × Files)
no_fd os none = none
no_fd os (some (files, after)) = some (none, record { files = files; ofile = os })

abbrev pub open_fd : ℕ → ℕ → ℕ → List File → Option ℕ × List (Option ℕ) → Option (Option ℕ × Files)
open_fd omode ip i files (none, os) = no_fd os (fileclose i files)
open_fd omode ip i files (some fd, os) =
    some (some fd, record { files = set_mode omode ip i files; ofile = os })

abbrev pub open_file : ℕ → ℕ → List (Option ℕ) → Option ℕ × List File → Option (Option ℕ × Files)
open_file omode ip os (none, files) = some (none, record { files = files; ofile = os })
open_file omode ip os (some i, files) = open_fd omode ip i files (fdalloc i os)

abbrev pub opened : Fs → Option (Option ℕ × Files) → Option (Option ℕ × Fs × Files)
opened fs none = none
opened fs (some (fd, s)) = some (fd, fs, s)

abbrev pub open_at : ℕ → Files → Option (Option ℕ × Fs) → Option (Option ℕ × Fs × Files)
open_at omode s none = none
open_at omode s (some (none, fs)) = some (none, fs, s)
open_at omode s (some (some ip, fs)) = opened fs (open_file omode ip s.ofile (filealloc s.files))

-- `sys_open`: the descriptor, or none for -1
pub sys_open : ℕ → ℕ → ℕ → List ℕ → ℕ → Fs → Files → Option (Option ℕ × Fs × Files)
sys_open ninodes root cwd path omode fs s =
    open_at omode s (open_inode ninodes root cwd path omode fs)

abbrev pub is_made : Option (Option ℕ × Fs) → Option (Bool × Fs)
is_made none = none
is_made (some (none, fs)) = some (false, fs)
is_made (some (some ip, fs)) = some (true, fs)

-- `sys_mkdir` and `sys_mknod`: whether they return 0.
pub sys_mkdir : ℕ → ℕ → ℕ → List ℕ → Fs → Option (Bool × Fs)
sys_mkdir ninodes root cwd path fs = is_made (create ninodes t_dir 0 0 root cwd path fs)

pub sys_mknod : ℕ → ℕ → ℕ → List ℕ → ℕ → ℕ → Fs → Option (Bool × Fs)
sys_mknod ninodes root cwd path major minor fs =
    is_made (create ninodes t_dev major minor root cwd path fs)

-- `sys_chdir`: the current directory after it, or none for -1.
abbrev pub chdir_to : Fs → Option (ℕ × List ℕ) → Option ℕ
chdir_to fs none = none
chdir_to fs (some (ip, name)) = if not ((fs ip).type == t_dir) then none else some ip

pub sys_chdir : ℕ → ℕ → List ℕ → Fs → Option ℕ
sys_chdir root cwd path fs = chdir_to fs (namex (entries_of fs) root cwd path false)

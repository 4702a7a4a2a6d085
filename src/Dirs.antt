-- ===== src/Dirs.antt =====
-- xv6-public/fs.c, `dirlink`, and the system calls on directories of xv6-public/sysfile.c.
-- An inode stands at its number, with the entries that a directory holds; the file system is the
-- function from numbers to inodes. `namei` and `nameiparent` are `namex` of Path on those entries. The
-- reference counts of inodes, and the freeing of an inode that has no links when its last reference goes,
-- are in Icache; arguments are as `argstr` and `argint` of Syscall fetch them. A panic is `none`.
pub mod Lists
pub mod Sums
pub mod Links
pub mod Linking
pub mod Removal
pub mod Unlinking
pub mod Due
pub mod Creating
pub mod Open
use basic_os.Prelude.{
  ℕ, zero, suc, ◌+◌, ◌-◌, ◌*◌, ◌%◌, ◌^◌, Bool, true, false, not, ◌&&◌, ◌||◌, Option, none, some,
  List, [], ◌∷◌, ◌==◌, leb, if◌then◌else◌, take, drop, update,
}
use basic_os.Path.{dirsiz, Dirent, same_name, namex}
use basic_os.Icache.{find_from}
use basic_os.Content.{block_size, max_file}

abbrev pub t_dir : ℕ
t_dir = 1

abbrev pub t_file : ℕ
t_file = 2

pub record Node : Type 0 where
  pub dev : ℕ
  pub type : ℕ
  pub major : ℕ
  pub minor : ℕ
  pub nlink : ℕ
  pub entries : List Dirent

abbrev pub Fs : Type 0
Fs = ℕ → Node

abbrev pub dot : List ℕ
dot = 46 ∷ []

abbrev pub dot_dot : List ℕ
dot_dot = 46 ∷ 46 ∷ []

-- `dirlookup` with the slot of the entry, `off / sizeof(de)`, counted from `i`
unfoldable pub find_name : List Dirent → List ℕ → ℕ → Option (ℕ × ℕ)
find_name [] name i = none
find_name (de ∷ des) name i =
    let rest = find_name des name (i + 1) in
    if de.inum == 0 then rest else if same_name dirsiz name de.name then some (i, de.inum) else rest

-- The loop of `dirlink`: the first slot that is free, or the one after the last
pub free_slot : List Dirent → ℕ
free_slot [] = 0
free_slot (de ∷ des) = let rest = free_slot des in if de.inum == 0 then 0 else rest + 1

-- A `writei` of an entry, which makes the directory longer if it is past the last
pub put_entry : List Dirent → ℕ → Dirent → List Dirent
put_entry [] i de = de ∷ []
put_entry (x ∷ des) zero de = de ∷ des
put_entry (x ∷ des) (suc i) de = x ∷ put_entry des i de

-- 16 bytes for each entry, as far as `writei` lets a file grow
abbrev pub fits : ℕ → Bool
fits slot = leb (slot * 16 + 16) (max_file * block_size)

abbrev pub add_entry : Fs → ℕ → List ℕ → ℕ → Fs
add_entry fs dp name inum = update fs dp (record (fs dp) {
  entries =
      put_entry (fs dp).entries (free_slot (fs dp).entries)
        (record { inum = inum; name = take dirsiz name });
})

-- `dirlink`: whether it made the entry. The number of the inode goes into the `ushort` of the entry.
abbrev pub dirlink_at : Fs → ℕ → List ℕ → ℕ → Option (ℕ × ℕ) → Option (Bool × Fs)
dirlink_at fs dp name inum (some e) = some (false, fs)
dirlink_at fs dp name inum none =
    if fits (free_slot (fs dp).entries)
    then some (true, add_entry fs dp name (inum % 2 ^ 16))
    else none

pub dirlink : Fs → ℕ → List ℕ → ℕ → Option (Bool × Fs)
dirlink fs dp name inum =
    if (fs dp).type == t_dir
    then dirlink_at fs dp name inum (find_name (fs dp).entries name 0)
    else none

-- What Path walks over
abbrev pub entries_of : Fs → ℕ → Option (List Dirent)
entries_of fs n = if (fs n).type == t_dir then some (fs n).entries else none

-- `nlink` is 16 bits wide.
abbrev pub add_link : ℕ → Fs → Fs
add_link n fs = update fs n (record (fs n) { nlink = ((fs n).nlink + 1) % 2 ^ 16 })

abbrev pub drop_link : ℕ → Fs → Fs
drop_link n fs = update fs n (record (fs n) { nlink = ((fs n).nlink + 2 ^ 16 - 1) % 2 ^ 16 })

-- `sys_link` past its `iupdate`, with what `nameiparent` found
abbrev pub link_linked : ℕ → Fs → Option (Bool × Fs) → Option (Bool × Fs)
link_linked ip fs none = none
link_linked ip fs (some (true, fs')) = some (true, fs')
link_linked ip fs (some (false, fs')) = some (false, drop_link ip fs')

abbrev pub link_into : ℕ → Fs → Option (ℕ × List ℕ) → Option (Bool × Fs)
link_into ip fs none = some (false, drop_link ip fs)
link_into ip fs (some (dp, name)) =
    if not ((fs dp).dev == (fs ip).dev)
    then some (false, drop_link ip fs)
    else link_linked ip fs (dirlink fs dp name ip)

abbrev pub link_from : Fs → (Fs → Option (ℕ × List ℕ)) → Option (ℕ × List ℕ) → Option (Bool × Fs)
link_from fs parent none = some (false, fs)
link_from fs parent (some (ip, name)) =
    if (fs ip).type == t_dir
    then some (false, fs)
    else link_into ip (add_link ip fs) (parent (add_link ip fs))

-- `sys_link`: whether it returns 0.
pub sys_link : ℕ → ℕ → List ℕ → List ℕ → Fs → Option (Bool × Fs)
sys_link root cwd old new fs =
    link_from fs (λ fs'. namex (entries_of fs') root cwd new true)
      (namex (entries_of fs) root cwd old false)

-- The loop of `isdirempty`
abbrev pub all_free : List Dirent → Bool
all_free [] = true
all_free (de ∷ des) = (de.inum == 0) && all_free des

abbrev pub isdirempty : Node → Bool
isdirempty dp = all_free (drop 2 dp.entries)

-- `nlink < 1`
abbrev pub no_links : Node → Bool
no_links ip = (ip.nlink == 0) || leb (2 ^ 15) ip.nlink

-- `sys_unlink` past its tests
abbrev pub clear_entry : ℕ → ℕ → Fs → Fs
clear_entry dp slot fs =
    update fs dp
      (record (fs dp) { entries = put_entry (fs dp).entries slot (record { inum = 0; name = [] }) })

abbrev pub unlink_at : ℕ → ℕ → ℕ → Fs → Fs
unlink_at dp slot ip fs =
    let fs' = clear_entry dp slot fs in
    drop_link ip (if (fs ip).type == t_dir then drop_link dp fs' else fs')

abbrev pub unlink_found : Fs → ℕ → Option (ℕ × ℕ) → Option (Bool × Fs)
unlink_found fs dp none = some (false, fs)
unlink_found fs dp (some (slot, ip)) =
    if no_links (fs ip)
    then none
    else if ((fs ip).type == t_dir) && not (isdirempty (fs ip))
    then some (false, fs)
    else some (true, unlink_at dp slot ip fs)

abbrev pub unlink_in : Fs → Option (ℕ × List ℕ) → Option (Bool × Fs)
unlink_in fs none = some (false, fs)
unlink_in fs (some (dp, name)) =
    if same_name dirsiz name dot || same_name dirsiz name dot_dot
    then some (false, fs)
    else if (fs dp).type == t_dir
    then unlink_found fs dp (find_name (fs dp).entries name 0)
    else none

-- `sys_unlink`: whether it returns 0.
pub sys_unlink : ℕ → ℕ → List ℕ → Fs → Option (Bool × Fs)
sys_unlink root cwd path fs = unlink_in fs (namex (entries_of fs) root cwd path true)

-- `dirlink` where `create` needs it
abbrev pub must_link : ℕ → List ℕ → ℕ → Fs → Option Fs
must_link dp name inum fs = elim (dirlink fs dp name inum) [
  | none ↦ none
  | some (true, fs') ↦ some fs'
  | some (false, fs') ↦ none
]

abbrev pub add_dots : ℕ → ℕ → Fs → Option Fs
add_dots dp ip fs = elim (must_link ip dot ip (add_link dp fs)) [
  | none ↦ none
  | some fs' ↦ must_link ip dot_dot dp fs'
]

-- The inode that `ialloc` has zeroed, with the fields that `create` sets
abbrev pub fresh : ℕ → ℕ → ℕ → ℕ → Node
fresh dev type major minor = record {
  dev = dev;
  type = type;
  major = major;
  minor = minor;
  nlink = 1;
  entries = [];
}

abbrev pub make_dots : ℕ → ℕ → ℕ → Fs → Option Fs
make_dots type dp ip fs = if type == t_dir then add_dots dp ip fs else some fs

abbrev pub created : ℕ → Option Fs → Option (Option ℕ × Fs)
created ip none = none
created ip (some fs) = some (some ip, fs)

abbrev pub enter_name : ℕ → List ℕ → ℕ → Option Fs → Option (Option ℕ × Fs)
enter_name dp name ip none = none
enter_name dp name ip (some fs) = created ip (must_link dp name ip fs)

abbrev pub create_new : ℕ → ℕ → ℕ → Fs → ℕ → List ℕ → Option ℕ → Option (Option ℕ × Fs)
create_new type major minor fs dp name none = none
create_new type major minor fs dp name (some ip) =
    enter_name dp name ip (make_dots type dp ip (update fs ip (fresh (fs dp).dev type major minor)))

abbrev pub create_in : ℕ → ℕ → ℕ → ℕ → Fs → Option (ℕ × List ℕ) → Option (Option ℕ × Fs)
create_in ninodes type major minor fs none = some (none, fs)
create_in ninodes type major minor fs (some (dp, name)) =
    if not ((fs dp).type == t_dir) then none else elim (find_name (fs dp).entries name 0) [
      | some (slot, ip) ↦
          some (if (type == t_file) && ((fs ip).type == t_file) then some ip else none, fs)
      | none ↦
          create_new type major minor fs dp name (find_from (λ n. (fs n).type == 0) (ninodes - 1) 1)
    ]

-- `create`: the inode, or none for 0.
pub create : ℕ → ℕ → ℕ → ℕ → ℕ → ℕ → List ℕ → Fs → Option (Option ℕ × Fs)
create ninodes type major minor root cwd path fs =
    create_in ninodes type major minor fs (namex (entries_of fs) root cwd path true)

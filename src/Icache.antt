-- ===== src/Icache.antt =====
-- xv6-public/fs.c: the cache of inodes, and inodes on the disk.
-- An inode on the disk stands at its device and number; `iupdate` and `ilock` reach it through the
-- block that IBLOCK names. The sleep lock of an entry is left out: each operation is one that its holder
-- does (Sleeplock models such locks). `itrunc` is an argument, what it makes of an inode.
pub mod Unique
pub mod Agrees
pub mod Alloc
use basic_os.Prelude.{
  ℕ, zero, suc, ◌+◌, ◌-◌, ◌%◌, ◌^◌, Bool, true, false, not, ◌&&◌, Option, none, some, List, ◌==◌,
  ltb, if◌then◌else◌, update, replicate,
}

abbrev pub ninode : ℕ
ninode = 50

-- The fields that `struct inode` and `struct dinode` share
pub record Dinode : Type 0 where
  pub type : ℕ
  pub major : ℕ
  pub minor : ℕ
  pub nlink : ℕ
  pub size : ℕ
  pub addrs : List ℕ

pub record Entry : Type 0 where
  pub dev : ℕ
  pub inum : ℕ
  pub ref : ℕ
  pub valid : Bool
  pub node : Dinode

pub record Icache : Type 0 where
  pub inode : ℕ → Entry
  pub disk : ℕ → ℕ → Dinode

-- The first slot of `n` from slot `i` on that passes a test
pub find_from : (ℕ → Bool) → ℕ → ℕ → Option ℕ
find_from test zero i = none
find_from test (suc n) i = let rest = find_from test n (i + 1) in if test i then some i else rest

-- `ref` is an `int`, as its 32 bits.
abbrev pub is_cached : ℕ → ℕ → Entry → Bool
is_cached dev inum e = (ltb 0 e.ref && ltb e.ref (2 ^ 31)) && ((e.dev == dev) && (e.inum == inum))

abbrev pub put : ℕ → Entry → Icache → Icache
put i e c = record c { inode = update c.inode i e }

-- `iget`: the loop ends at the entry that is cached, and remembers the first empty one; none is the panic.
abbrev pub recycle : ℕ → ℕ → Icache → Option ℕ → Option (ℕ × Icache)
recycle dev inum c none = none
recycle dev inum c (some i) =
    some (i, put i (record (c.inode i) { dev = dev; inum = inum; ref = 1; valid = false }) c)

abbrev pub iget_at : ℕ → ℕ → Icache → Option ℕ → Option (ℕ × Icache)
iget_at dev inum c (some i) =
    some (i, put i (record (c.inode i) { ref = ((c.inode i).ref + 1) % 2 ^ 32 }) c)
iget_at dev inum c none = recycle dev inum c (find_from (λ i. (c.inode i).ref == 0) ninode 0)

pub iget : ℕ → ℕ → Icache → Option (ℕ × Icache)
iget dev inum c = iget_at dev inum c (find_from (λ i. is_cached dev inum (c.inode i)) ninode 0)

-- `idup`
pub idup : ℕ → Icache → Icache
idup i c = put i (record (c.inode i) { ref = ((c.inode i).ref + 1) % 2 ^ 32 }) c

-- `iupdate`
pub iupdate : ℕ → Icache → Icache
iupdate i c =
    let e = c.inode i in
    record c { disk = λ d n. if (d == e.dev) && (n == e.inum) then e.node else c.disk d n }

-- `ilock` past its lock, where none is a panic
pub ilock : ℕ → Icache → Option Icache
ilock i c =
    let e = c.inode i in
    let node = c.disk e.dev e.inum in
    if e.ref == 0
    then none
    else if e.valid
    then some c
    else if node.type == 0
    then none
    else some (put i (record e { node = node; valid = true }) c)

-- `iput`, past its lock: the last reference to a file without links frees it.
pub free_inode : (Dinode → Dinode) → ℕ → Icache → Icache
free_inode itrunc i c =
    let e = c.inode i in
    let gone = record e { node = record (itrunc e.node) { type = 0 } } in
    let c' = iupdate i (put i gone c) in put i (record gone { valid = false }) c'

pub iput : (Dinode → Dinode) → ℕ → Icache → Icache
iput itrunc i c =
    let e = c.inode i in
    let c' =
      if e.valid && ((e.node.nlink == 0) && (e.ref == 1)) then free_inode itrunc i c else c in
    put i (record (c'.inode i) { ref = (c'.inode i).ref - 1 }) c'

-- A change of the fields of an inode, with the `iupdate` that must follow it
pub change : ℕ → Dinode → Icache → Icache
change i node c = iupdate i (put i (record (c.inode i) { node = node }) c)

-- `memset` of the inode, and its type
abbrev pub zeroed : ℕ → Dinode
zeroed type = record {
  type = type;
  major = 0;
  minor = 0;
  nlink = 0;
  size = 0;
  addrs = replicate 13 0;
}

abbrev pub mark_allocated : ℕ → ℕ → ℕ → Icache → Icache
mark_allocated dev type inum c = record c {
  disk = λ d n. if (d == dev) && (n == inum) then zeroed type else c.disk d n;
}

-- `ialloc`, for the number of inodes of the super block; none is a panic.
abbrev pub ialloc_at : ℕ → ℕ → Icache → Option ℕ → Option (ℕ × Icache)
ialloc_at dev type c none = none
ialloc_at dev type c (some inum) = iget dev inum (mark_allocated dev type inum c)

pub ialloc : ℕ → ℕ → ℕ → Icache → Option (ℕ × Icache)
ialloc ninodes dev type c =
    ialloc_at dev type c (find_from (λ n. (c.disk dev n).type == 0) (ninodes - 1) 1)

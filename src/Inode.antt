-- ===== src/Inode.antt =====
-- xv6-public/fs.c: which block holds a part of a file, `bmap`, and `itrunc`.
-- A block of the file system is its words, as a reader sees them through the cache; balloc and bfree
-- are those of Bitmap. `size` is `sb.size`, and none is a panic.
pub mod Trunc
use basic_os.Prelude.{
  ℕ, zero, suc, ◌+◌, ◌-◌, Bool, true, false, Option, none, some, List, [], ◌∷◌, ◌==◌, ltb,
  if◌then◌else◌, update, take, get_or, set, map,
}
use basic_os.Bitmap.{Blocks, balloc, bfree}

-- NDIRECT and NINDIRECT of fs.h
abbrev pub ndirect : ℕ
ndirect = 12

abbrev pub nindirect : ℕ
nindirect = 128

pub record Inode : Type 0 where
  pub addrs : List ℕ
  pub size : ℕ

-- `a[i] = v` in block `b`
abbrev pub put_word : ℕ → ℕ → ℕ → Blocks → Blocks
put_word b i v s = record s { words = update s.words b (set (s.words b) i v) }

-- The loop that splits the number of a block of the file, with its rounds bounded by that number: the
-- indirect blocks to pass, and the entry in the last one.
unfoldable pub split_bn : ℕ → ℕ → ℕ → ℕ × ℕ
split_bn zero passed bn = (passed, bn)
split_bn (suc n) passed bn =
    let rest = split_bn n (passed + 1) (bn - (nindirect - 1)) in
    if ltb bn (nindirect - 1) then (passed, bn) else rest

-- The first indirect block, which is allocated if there is none.
abbrev pub new_head : Inode → Option (ℕ × Blocks) → Option (ℕ × Inode × Blocks)
new_head ip none = none
new_head ip (some (addr, s)) =
    some (addr, record ip { addrs = set ip.addrs 0 addr }, put_word addr (nindirect - 1) 0 s)

unfoldable pub first_indirect : ℕ → Inode → Blocks → Option (ℕ × Inode × Blocks)
first_indirect size ip s =
    if get_or ip.addrs 0 0 == 0
    then new_head ip (balloc size s)
    else some (get_or ip.addrs 0 0, ip, s)

-- Entry `i` of block `b`, which is allocated if it is 0; whether it was.
abbrev pub new_entry : ℕ → ℕ → Option (ℕ × Blocks) → Option (ℕ × Bool × Blocks)
new_entry b i none = none
new_entry b i (some (addr, s)) = some (addr, true, put_word b i addr s)

unfoldable pub entry : ℕ → ℕ → ℕ → Blocks → Option (ℕ × Bool × Blocks)
entry size b i s =
    if get_or (s.words b) i 0 == 0
    then new_entry b i (balloc size s)
    else some (get_or (s.words b) i 0, false, s)

-- The loop along the chain of indirect blocks: the last entry of each is the number of the next.
unfoldable pub follow_chain : ℕ → ℕ → ℕ → Blocks → Option (ℕ × Blocks)
follow_chain size zero b s = some (b, s)
follow_chain size (suc n) b s = elim (entry size b (nindirect - 1) s) [
  | none ↦ none
  | some (next, is_new, s') ↦
      follow_chain size n next (if is_new then put_word next (nindirect - 1) 0 s' else s')
]

-- `bmap` past its call for the first indirect block, for entry `i` of the block `passed` blocks further:
-- along the chain, and then the entry.
abbrev pub mapped : Inode → Option (ℕ × Bool × Blocks) → Option (ℕ × Inode × Blocks)
mapped ip none = none
mapped ip (some (addr, is_new, s)) = some (addr, ip, s)

abbrev pub map_in : ℕ → ℕ → Inode → Option (ℕ × Blocks) → Option (ℕ × Inode × Blocks)
map_in size i ip none = none
map_in size i ip (some (b, s)) = mapped ip (entry size b i s)

abbrev pub map_from : ℕ → ℕ → ℕ → Option (ℕ × Inode × Blocks) → Option (ℕ × Inode × Blocks)
map_from size passed i none = none
map_from size passed i (some (head, ip, s)) = map_in size i ip (follow_chain size passed head s)

-- `bmap`
unfoldable pub bmap : ℕ → Inode → ℕ → Blocks → Option (ℕ × Inode × Blocks)
bmap size ip bn s =
    let (passed, i) = split_bn bn 0 bn in map_from size passed i (first_indirect size ip s)

-- A loop of `itrunc` over numbers of blocks.
pub free_all : List ℕ → Blocks → Option Blocks
free_all [] s = some s
free_all (a ∷ as') s = elim (a == 0) [
  | true ↦ free_all as' s
  | false ↦ elim (bfree a s) [ none ↦ none | some s' ↦ free_all as' s' ]
]

-- The second part of `itrunc`, for `addrs[NDIRECT]`.
pub free_indirect : ℕ → Blocks → Option Blocks
free_indirect a s =
    if a == 0
    then some s
    else elim (free_all (take nindirect (s.words a)) s) [ none ↦ none | some s' ↦ bfree a s' ]

-- `itrunc`: every number that is not 0 becomes 0.
pub itrunc : Inode → Blocks → Option (Inode × Blocks)
itrunc ip s = elim (free_all (take ndirect ip.addrs) s) [
  | none ↦ none
  | some s1 ↦ elim (free_indirect (get_or ip.addrs ndirect 0) s1) [
    | none ↦ none
    | some s2 ↦ some (record { addrs = map (λ _. 0) ip.addrs; size = 0 }, s2)
  ]
]

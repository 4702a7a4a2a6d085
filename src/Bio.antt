-- ===== src/Bio.antt =====
-- xv6-public/bio.c: which buffer a block gets. The circular list is the list of its buffers from
-- `bcache.head.next` on, the most recently used one first; `id` is the index in `bcache.buf`.
-- Each operation runs under `bcache.lock`. The contents of the buffers are the subject of Block.
pub mod Unique
pub mod Release
use basic_os.Prelude.{
  ℕ, zero, suc, ◌+◌, ◌-◌, ◌%◌, ◌^◌, Bool, true, false, not, ◌&&◌, ◌||◌, Option, none, some, List,
  [], ◌∷◌, ◌==◌, if◌then◌else◌,
}

-- `flags` is the two bits B_VALID and B_DIRTY; `refcnt` is a `uint`.
pub record Buf : Type 0 where
  pub id : ℕ
  pub dev : ℕ
  pub blockno : ℕ
  pub valid : Bool
  pub dirty : Bool
  pub refcnt : ℕ

-- NBUF of param.h
abbrev pub buffer_count : ℕ
buffer_count = 30

-- The static array is zero before `binit` links it.
abbrev pub zeroed : ℕ → Buf
zeroed i = record { id = i; dev = 0; blockno = 0; valid = false; dirty = false; refcnt = 0 }

-- The loop of `binit` with `n` rounds left, from index `i`: each buffer goes behind `head`.
pub link_from : ℕ → ℕ → List Buf → List Buf
link_from zero i bs = bs
link_from (suc n) i bs = link_from n (i + 1) (zeroed i ∷ bs)

pub binit : List Buf
binit = link_from buffer_count 0 []

abbrev pub is_block : ℕ → ℕ → Buf → Bool
is_block dev blockno b = (b.dev == dev) && (b.blockno == blockno)

-- `refcnt == 0 && (flags & B_DIRTY) == 0`
abbrev pub is_free : Buf → Bool
is_free b = (b.refcnt == 0) && not b.dirty

-- The first loop of `bget`: the buffer that caches the block, with one more reference.
pub find_cached : ℕ → ℕ → List Buf → Option (ℕ × List Buf)
find_cached dev blockno [] = none
find_cached dev blockno (b ∷ bs) =
    if is_block dev blockno b
    then some (b.id, record b { refcnt = (b.refcnt + 1) % 2 ^ 32 } ∷ bs)
    else elim (find_cached dev blockno bs) [ none ↦ none | some (i, bs') ↦ some (i, b ∷ bs') ]

-- The second loop, from the end of the list: the least recently used free buffer, recycled.
pub recycle : ℕ → ℕ → List Buf → Option (ℕ × List Buf)
recycle dev blockno [] = none
recycle dev blockno (b ∷ bs) = elim (recycle dev blockno bs) [
  | some (i, bs') ↦ some (i, b ∷ bs')
  | none ↦
      if is_free b
      then some (
        b.id,
        record b { dev = dev; blockno = blockno; valid = false; dirty = false; refcnt = 1 } ∷ bs,
      )
      else none
]

-- `none` is the panic. The caller then waits for the buffer's sleep lock.
pub bget : ℕ → ℕ → List Buf → Option (ℕ × List Buf)
bget dev blockno bs = elim (find_cached dev blockno bs) [
  | some r ↦ some r
  | none ↦ recycle dev blockno bs
]

-- `b->refcnt--`
abbrev pub unreferenced : Buf → Buf
unreferenced b = record b { refcnt = (b.refcnt + 2 ^ 32 - 1) % 2 ^ 32 }

-- The buffer `i` taken out of the list, and the list with `b->refcnt--` done in place.
pub take_out : ℕ → List Buf → Option (Buf × List Buf)
take_out i [] = none
take_out i (b ∷ bs) =
    if b.id == i
    then some (b, bs)
    else elim (take_out i bs) [ none ↦ none | some (c, bs') ↦ some (c, b ∷ bs') ]

pub drop_reference : ℕ → List Buf → List Buf
drop_reference i [] = []
drop_reference i (b ∷ bs) = if b.id == i then unreferenced b ∷ bs else b ∷ drop_reference i bs

-- `held` is the answer of `holdingsleep`; `none` is the panic, or a buffer that is not in the list.
pub brelse : Bool → ℕ → List Buf → Option (List Buf)
brelse held i bs = if not held then none else elim (take_out i bs) [
  | none ↦ none
  | some (b, others) ↦
      if (unreferenced b).refcnt == 0
      then some (unreferenced b ∷ others)
      else some (drop_reference i bs)
]

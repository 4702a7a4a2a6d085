-- ===== src/Bio/Unique.antt =====
-- `bget` of bio.c: one buffer for a block, no buffer in use is recycled, and when it panics.
use basic_os.Prelude.{
  ℕ, ◌-◌, ◌^◌, ◌<◌, ◌≡◌, ◌≢◌, inl, inr, refl, ap, arith, Bool, true, false, not, ◌&&◌, ◌||◌, List,
  [], ◌∷◌, ◌==◌, Option, none, some, if◌then◌else◌, Bool-cases, All,
}
use basic_os.Bio.{Buf, is_block, is_free, find_cached, recycle, bget}

-- Some buffer caches the block.
abbrev pub caches : ℕ → ℕ → List Buf → Bool
caches dev blockno [] = false
caches dev blockno (b ∷ bs) = is_block dev blockno b || caches dev blockno bs

-- Some buffer caches the block and may not be recycled.
abbrev pub uses : ℕ → ℕ → List Buf → Bool
uses dev blockno [] = false
uses dev blockno (b ∷ bs) = (is_block dev blockno b && not (is_free b)) || uses dev blockno bs

-- No two buffers cache the same block, device 0 excepted, which the zeroed buffers name.
abbrev pub IsUnique : List Buf → Type 0
IsUnique [] = Unit
IsUnique (b ∷ bs) = (b.dev ≢ 0 → caches b.dev b.blockno bs ≡ false) × IsUnique bs

-- The buffers by their numbers in `bcache.buf`, in the order of the list.
abbrev pub ids : List Buf → List ℕ
ids [] = []
ids (b ∷ bs) = b.id ∷ ids bs

-- Buffer `i` caches the block and is referenced.
abbrev pub serves : ℕ → ℕ → ℕ → List Buf → Bool
serves dev blockno i [] = false
serves dev blockno i (b ∷ bs) =
    ((b.id == i) && (is_block dev blockno b && not (b.refcnt == 0))) || serves dev blockno i bs

-- Reference counts are far from the end of a `uint`.
abbrev pub AreSmall : List Buf → Type 0
AreSmall = All (λ b. b.refcnt < 2 ^ 32 - 1)

module _ (dev blockno : ℕ) where
  -- What `bget` makes of a list: the same buffers in the same order; buffer `i` caches the block and is
  -- referenced; no other block comes into the cache, and those that a buffer must keep are kept; no
  -- block gets a second buffer.
  pub record Gotten (bs : List Buf) (i : ℕ) (bs' : List Buf) : Type 0 where
    pub same_ids : ids bs' ≡ ids bs
    pub served : serves dev blockno i bs' ≡ true
    pub others :
        (d n : ℕ)
        → ((d == dev) && (n == blockno)) ≡ false
        → caches d n bs ≡ false
        → caches d n bs' ≡ false
    pub kept : (d n : ℕ) → uses d n bs ≡ true → uses d n bs' ≡ true
    pub unique : IsUnique bs → IsUnique bs'

  abbrev Found : List Buf → Option (ℕ × List Buf) → Type 0
  Found bs none = caches dev blockno bs ≡ false
  Found bs (some (i, bs')) = Gotten bs i bs'

  Gotten-cons :
      (b : Buf) (bs : List Buf) (i : ℕ) (bs' : List Buf)
      → is_block dev blockno b ≡ false
      → Gotten bs i bs'
      → Gotten (b ∷ bs) i (b ∷ bs')
  Gotten-cons b bs i bs' other g = record {
    same_ids = ap (λ xs. b.id ∷ xs) g.same_ids;
    served = ground (arith, g.served);
    others = λ d n ne h. ground (arith, g.others d n);
    kept = λ d n h. ground (arith, g.kept d n);
    unique = λ u. (λ nz. g.others b.dev b.blockno (ground arith) (u.0 nz), g.unique u.1);
  }

  abbrev keep_first : Buf → Option (ℕ × List Buf) → Option (ℕ × List Buf)
  keep_first b none = none
  keep_first b (some (i, bs')) = some (i, b ∷ bs')

  Found-cons :
      (b : Buf) (bs : List Buf) (r : Option (ℕ × List Buf))
      → is_block dev blockno b ≡ false
      → Found bs r
      → Found (b ∷ bs) (elim r [ none ↦ none | some (i, bs') ↦ some (i, b ∷ bs') ])
  Found-cons b bs none other f = ground arith
  Found-cons b bs (some (i, bs')) other g = Gotten-cons b bs i bs' other g

  find_cached-Found : (bs : List Buf) → AreSmall bs → Found bs (find_cached dev blockno bs)
  unfolding find_cached
  find_cached-Found [] small = refl
  find_cached-Found (b ∷ bs) small = elim (Bool-cases (is_block dev blockno b)) [
    | inl here ↦ rw here (record {
      same_ids = refl;
      served = ground (arith, small.0);
      others = λ d n ne h. ground arith;
      kept = λ d n h. ground (arith, small.0);
      unique = λ u. u;
    })
    | inr there ↦
        rw there (Found-cons b bs (find_cached dev blockno bs) there (find_cached-Found bs small.1))
  ]

  abbrev Recycled : List Buf → Option (ℕ × List Buf) → Type 0
  Recycled bs none = All (λ b. is_free b ≡ false) bs
  Recycled bs (some (i, bs')) = Gotten bs i bs'

  recycle-Recycled :
      (bs : List Buf) → caches dev blockno bs ≡ false → Recycled bs (recycle dev blockno bs)
  unfolding recycle
  recycle-Recycled [] absent = tt
  recycle-Recycled (b ∷ bs) absent =
      step (recycle dev blockno bs) (recycle-Recycled bs (ground arith))
    where
      step :
          (r : Option (ℕ × List Buf))
          → Recycled bs r
          → Recycled (b ∷ bs) (elim r [
            | some (i, bs') ↦ some (i, b ∷ bs')
            | none ↦
                if is_free b
                then some (
                  b.id,
                  record b {
                    dev = dev;
                    blockno = blockno;
                    valid = false;
                    dirty = false;
                    refcnt = 1;
                  }
                      ∷ bs,
                )
                else none
          ])
      step (some (i, bs')) g = Gotten-cons b bs i bs' (ground arith) g
      step none busy = elim (Bool-cases (is_free b)) [
        | inl free ↦ rw free (record {
          same_ids = refl;
          served = ground arith;
          others = λ d n ne h. ground arith;
          kept = λ d n h. ground arith;
          unique = λ u. (λ nz. ground arith, u.1);
        })
        | inr used ↦ rw used (used, busy)
      ]

  -- What each outcome of `bget` means; `none` is the panic.
  abbrev pub BgetMeans : List Buf → Option (ℕ × List Buf) → Type 0
  BgetMeans bs none = (caches dev blockno bs ≡ false) × All (λ b. is_free b ≡ false) bs
  BgetMeans bs (some (i, bs')) = Gotten bs i bs'

  -- `bget` with reference counts that do not wrap: the buffer that it returns caches the block and is
  -- referenced, the buffers and their order are as before, no referenced or dirty buffer loses its
  -- block, and if no block of a device other than 0 had two buffers, none has now. It panics only if
  -- the block is not cached and every buffer is referenced or dirty.
  pub bget_lem : (bs : List Buf) → AreSmall bs → BgetMeans bs (bget dev blockno bs)
  unfolding bget
  bget_lem bs small = step (find_cached dev blockno bs) (find_cached-Found bs small)
    where
      step_recycle :
          (r : Option (ℕ × List Buf))
          → caches dev blockno bs ≡ false
          → Recycled bs r
          → BgetMeans bs r
      step_recycle none absent busy = (absent, busy)
      step_recycle (some (i, bs')) absent g = g

      step :
          (r : Option (ℕ × List Buf))
          → Found bs r
          → BgetMeans bs (elim r [ some r' ↦ some r' | none ↦ recycle dev blockno bs ])
      step (some (i, bs')) g = g
      step none absent = step_recycle (recycle dev blockno bs) absent (recycle-Recycled bs absent)

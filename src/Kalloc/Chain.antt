-- ===== src/Kalloc/Chain.antt =====
-- The free list of kalloc.c as a list of pages: `kfree` pushes, `kalloc` pops, `kcount` counts.
use basic_os.Prelude.{
  ℕ, zero, suc, ◌+◌, ◌%◌, ◌^◌, ◌≤◌, ◌<◌, ◌≡◌, ◌≢◌, ◌⊎◌, refl, ap, ◌∙◌, arith, false, List, [], ◌∷◌,
  ◌==◌, none, some, length, has, All, IsDistinct,
}
use basic_os.CString.{Memory, memset, store_word}
use basic_os.CString.Set.{memset_lem, in_range}
use basic_os.Kalloc.{page_size, phys_top, v2p, load_word, Kmem, kfree, kalloc, count_from, kcount}

-- From `r` the `next` words lead through the pages `ps` to the null pointer.
pub data Chain (m : Memory) : ℕ → List ℕ → Type 0 where
  nil : Chain m 0 []
  cons : {r : ℕ} {ps : List ℕ} → r ≢ 0 → Chain m (load_word m r) ps → Chain m r (r ∷ ps)

-- The address of a page that `kfree` takes.
abbrev pub IsPage : ℕ → ℕ → Type 0
IsPage end v = (v % page_size ≡ 0) × (end ≤ v) × (v2p v < phys_top) × (v ≢ 0) × (v < 2 ^ 32)

-- The state of the allocator: the free pages `ps` are distinct pages.
pub record IsFree (end : ℕ) (k : Kmem) (ps : List ℕ) : Type 0 where
  pub chain : Chain k.memory k.freelist ps
  pub distinct : IsDistinct ps
  pub pages : All (IsPage end) ps

load_word-store_word : (a w : ℕ) (m : Memory) → w < 2 ^ 32 → load_word (store_word a w m) a ≡ w
unfolding store_word
load_word-store_word a w m h = ground arith

-- Bytes outside the freed page stay.
pub spared :
    (v w : ℕ) (m : Memory) (a : ℕ)
    → in_range v page_size a ≡ false
    → store_word v w (memset v 1 page_size m) a ≡ m a
unfolding store_word
spared v w m a h = ground (arith, memset_lem v 1 page_size m a)

Chain-spared :
    (v w : ℕ) (m : Memory) {r : ℕ} {ps : List ℕ} (end : ℕ)
    → v % page_size ≡ 0
    → has v ps ≡ false
    → All (IsPage end) ps
    → Chain m r ps
    → Chain (store_word v w (memset v 1 page_size m)) r ps
Chain-spared v w m end al out pages nil = nil
Chain-spared v w m end al out pages (cons {r} ne c) =
    cons ne (rw same (Chain-spared v w m end al (ground arith) pages.1 c))
  where
    away : (i : ℕ) → i < 4 → in_range v page_size (r + i) ≡ false
    away i h = ground (arith, pages.0)

    same : load_word (store_word v w (memset v 1 page_size m)) r ≡ load_word m r
    same = rw (
      spared v w m r (ap (in_range v page_size) (omega arith) ∙ away 0 (omega arith)),
      spared v w m (r + 1) (away 1 (omega arith)),
      spared v w m (r + 2) (away 2 (omega arith)),
      spared v w m (r + 3) (away 3 (omega arith)),
    )

null_or :
    {m : Memory} {r : ℕ} {ps : List ℕ} → Chain m r ps → (end : ℕ) → All (IsPage end) ps → r < 2 ^ 32
null_or nil end pages = omega arith
null_or (cons ne c) end pages = pages.0.4

-- `kfree` of a page that is not free takes it and makes it the first free page; no byte outside the
-- page is changed. (Freeing a page twice is not noticed, and is excluded here.)
pub kfree-IsFree :
    (end v : ℕ) (k : Kmem) (ps : List ℕ)
    → IsFree end k ps
    → IsPage end v
    → has v ps ≡ false
    → (k' : Kmem) × (kfree end k v ≡ some k')
      × IsFree end k' (v ∷ ps)
      × ((a : ℕ) → in_range v page_size a ≡ false → k'.memory a ≡ k.memory a)
unfolding kfree
kfree-IsFree end v k ps f pg out = (
  record { memory = store_word v k.freelist (memset v 1 page_size k.memory); freelist = v },
  ground (arith),
  record {
    chain = cons pg.3 (
        rw
          (load_word-store_word v k.freelist (memset v 1 page_size k.memory)
            (null_or f.chain end f.pages))
          (Chain-spared v k.freelist k.memory end pg.0 out f.pages f.chain));
    distinct = (out, f.distinct);
    pages = (pg, f.pages);
  },
  spared v k.freelist k.memory,
)

-- An address that is no page is refused: unaligned, inside the kernel, or past the physical memory.
pub kfree_refuses :
    (end v : ℕ) (k : Kmem)
    → (v % page_size ≢ 0) ⊎ ((v < end) ⊎ (phys_top ≤ v2p v))
    → kfree end k v ≡ none
unfolding kfree
kfree_refuses end v k bad = ground arith

Chain-pop :
    {m : Memory} {r p : ℕ} {ps : List ℕ}
    → Chain m r (p ∷ ps)
    → (r ≡ p) × (r ≢ 0) × Chain m (load_word m r) ps
Chain-pop (cons ne c) = (refl, ne, c)

Chain-end : {m : Memory} {r : ℕ} → Chain m r [] → r ≡ 0
Chain-end nil = refl

-- `kalloc` returns the first free page and leaves the others; with no page free it returns 0 and
-- changes nothing.
pub kalloc-cons :
    (end p : ℕ) (k : Kmem) (ps : List ℕ)
    → IsFree end k (p ∷ ps)
    → let (r, k') = kalloc k in (r ≡ p) × IsFree end k' ps × (k'.memory ≡ k.memory)
unfolding kalloc
kalloc-cons end p k ps f =
    let (e, ne, c) = Chain-pop f.chain in
    let test : (k.freelist == 0) ≡ false = ground arith in
    rw test (e, record { chain = c; distinct = f.distinct.1; pages = f.pages.1 }, refl)

pub kalloc-nil : (end : ℕ) (k : Kmem) → IsFree end k [] → kalloc k ≡ (0, k)
unfolding kalloc
kalloc-nil end k f = let e = Chain-end f.chain in ground (arith, e)

count_from_lem :
    (fuel : ℕ) {m : Memory} {r : ℕ} {ps : List ℕ} (count : ℕ)
    → Chain m r ps
    → length ps < fuel
    → count_from fuel m r count ≡ some (count + length ps)
unfolding count_from
count_from_lem zero count c lt = absurd (omega arith)
count_from_lem (suc fuel) count nil lt = ap some (omega arith)
count_from_lem (suc fuel) {m} {r} count (cons {ps} ne c) lt =
    let test : (r == 0) ≡ false = ground arith in
    rw test (count_from_lem fuel (count + 1) c (omega arith) ∙ ap some (omega arith))

-- `kcount` returns the number of free pages, with more rounds than that.
pub kcount_lem :
    (end fuel : ℕ) (k : Kmem) (ps : List ℕ)
    → IsFree end k ps
    → length ps < fuel
    → kcount fuel k ≡ some (length ps)
unfolding kcount
kcount_lem end fuel k ps f lt = count_from_lem fuel 0 f.chain lt ∙ ap some (omega arith)

-- ===== src/Kalloc/Pages.antt =====
-- `freerange` of kalloc.c puts every whole page of a range on the free list.
use basic_os.Prelude.{
  ℕ, zero, suc, ◌+◌, ◌-◌, ◌/◌, ◌%◌, ◌≤◌, ◌<◌, ◌≡◌, refl, arith, true, false, List, [], ◌∷◌, leb,
  some, length, has, All,
}
use basic_os.Kalloc.{page_size, kern_base, phys_top, page_round_up, Kmem, free_from, freerange}
use basic_os.Kalloc.Chain.{IsFree, kfree-IsFree}

-- The free list after the `n` pages from `p` on were freed in turn.
abbrev pub freed : ℕ → ℕ → List ℕ → List ℕ
freed zero p ps = ps
freed (suc n) p ps = freed n (p + page_size) (p ∷ ps)

pub length-freed : (n p : ℕ) (ps : List ℕ) → length (freed n p ps) ≡ n + length ps
length-freed zero p ps = omega arith
length-freed (suc n) p ps = omega (arith, length-freed n (p + page_size) (p ∷ ps))

not-has-above : (p : ℕ) (ps : List ℕ) → All (λ x. x < p) ps → has p ps ≡ false
not-has-above p [] h = refl
not-has-above p (x ∷ ps) h = ground (arith, not-has-above p ps h.1)

All-above : (p q : ℕ) (ps : List ℕ) → p ≤ q → All (λ x. x < p) ps → All (λ x. x < q) ps
All-above p q [] le h = tt
All-above p q (x ∷ ps) le h = (omega arith, All-above p q ps le h.1)

module _ (end vend : ℕ) (top : vend ≤ kern_base + phys_top) where
  -- The addresses at which a page may begin.
  abbrev pub Starts : ℕ → Type 0
  Starts p = (p % page_size ≡ 0) × (end ≤ p) × (kern_base ≤ p)

  free_from_lem :
      (fuel n p : ℕ) (k : Kmem) (ps : List ℕ)
      → Starts p
      → n ≡ (vend - p) / page_size
      → n < fuel
      → IsFree end k ps
      → All (λ x. x < p) ps
      → (k' : Kmem) × (free_from end fuel p vend k ≡ some k') × IsFree end k' (freed n p ps)
  unfolding free_from
  free_from_lem zero n p k ps st e lt f below = absurd (omega arith)
  free_from_lem (suc fuel) zero p k ps st e lt f below =
      let test : leb (p + page_size) vend ≡ false = ground arith in
      (k, rw (test, free_from) refl, f)
  free_from_lem (suc fuel) (suc n) p k ps st e lt f below =
      let test : leb (p + page_size) vend ≡ true = ground arith in
      let (k1, e1, f1, same) = kfree-IsFree end p k ps f (omega arith) (not-has-above p ps below) in
      let (k', e', f') =
        free_from_lem fuel n (p + page_size) k1 (p ∷ ps) (omega arith) (omega arith) (omega arith)
          f1 (omega arith, All-above p (p + page_size) ps (omega arith) below) in
      (k', rw (test, free_from, e1) e', f')

  -- `freerange` from an address in the kernel's part of memory, past the kernel's end, up to an
  -- address within the physical memory: it does not panic, it ends within as many rounds as there are
  -- pages and one more, and every whole page of the range is free, besides those below it that were free
  -- before.
  pub freerange_lem :
      (fuel vstart : ℕ) (k : Kmem) (ps : List ℕ)
      → end ≤ vstart
      → kern_base ≤ vstart
      → vstart ≤ vend
      → (vend - page_round_up vstart) / page_size < fuel
      → IsFree end k ps
      → All (λ x. x < page_round_up vstart) ps
      → (k' : Kmem) × (freerange end fuel vstart vend k ≡ some k')
        × IsFree end k'
            (freed ((vend - page_round_up vstart) / page_size) (page_round_up vstart) ps)
  unfolding freerange
  freerange_lem fuel vstart k ps past high le lt f below =
      free_from_lem fuel _ (page_round_up vstart) k ps (omega arith) refl lt f below

-- ===== src/Vm/Dealloc.antt =====
-- `deallocuvm` of vm.c: its loop and the whole.
use basic_os.Prelude.{
  ℕ, zero, suc, ◌+◌, ◌-◌, ◌*◌, ◌/◌, ◌%◌, ◌^◌, ◌≤◌, ◌<◌, ◌≡◌, inl, inr, refl, ap, ◌∙◌, arith, true,
  false, ◌||◌, some, ◌==◌, ltb, leb, Bool-cases,
}
use mathlib.Core.Path.{subst}
use basic_os.Vm.{Mem, page_size, kern_base, phys_top, pdx, ptx, frame, present, round_up, put}
use basic_os.Vm.Walk.{entry, walkpgdir_look, same_entry}
use basic_os.Vm.Space.{Ran, ran, and_then, kfree, dealloc_at, dealloc_one, dealloc_from, deallocuvm}
use basic_os.Vm.Shrink.{
  IsGood, IsUser, released, without, in_range, Shrunk, Shrunk-skip, Shrunk-one, IsUser-without,
}

-- Rounds of the loop, by what the page table says of the page.
data Round (first pgdir n : ℕ) (m : Mem) : Ran → Type 0 where
  no_table :
      ((v : ℕ) → in_range n ((n / 1024 + 1) * 1024) v ≡ true → present (entry m pgdir v) ≡ false)
      → Round first pgdir n m (ran ((n / 1024 + 1) * 1024 * page_size) m)
  not_mapped :
      present (entry m pgdir (n * page_size)) ≡ false
      → Round first pgdir n m (ran ((n + 1) * page_size) m)
  freed :
      present (m.words pgdir (pdx (n * page_size))) ≡ true
      → present (entry m pgdir (n * page_size)) ≡ true
      → Round first pgdir n m (ran ((n + 1) * page_size) (without pgdir (n * page_size) m))

table_entry :
    (pgdir va : ℕ) (m : Mem)
    → present (m.words pgdir (pdx va)) ≡ true
    → m.words (frame (m.words pgdir (pdx va))) (ptx va) ≡ entry m pgdir va
table_entry pgdir va m p = ground (arith, p)

pub kfree_good : (first p : ℕ) (m : Mem) → IsGood first p → kfree first p m ≡ some (released p m)
kfree_good first p m g = ground (arith, g)

dealloc_good :
    (first a t i e : ℕ) (m : Mem)
    → 0 < first
    → m.words t i ≡ e
    → present e ≡ true
    → IsGood first (frame e)
    → dealloc_at first a (some (t, i), m)
      ≡ ran ((a + page_size) % 2 ^ 32) (put t i 0 (released (frame e) m))
dealloc_good first a t i e m pos w p g =
    let z : (frame e == 0) ≡ false = ground (arith, g, pos) in
    let b : (ltb (frame e * page_size) first || leb phys_top (frame e * page_size)) ≡ false =
      ground (arith, g) in
    rw (w, p, z, b) refl

dealloc_one_lem :
    (first pgdir n : ℕ) (m : Mem)
    → 0 < first
    → IsUser first pgdir m
    → n * page_size < kern_base
    → Round first pgdir n m (dealloc_one first pgdir (n * page_size) m)
unfolding dealloc_one
dealloc_one_lem first pgdir n m pos s low = elim (walkpgdir_look pgdir (n * page_size) m) [
  | inr (e, p) ↦ rw e (
      subst (λ a. Round first pgdir n m (ran a m)) (omega (arith, low))
        (no_table
          (λ v r. let q : pdx v ≡ pdx (n * page_size) = ground (arith, r) in rw (q, p) refl)))
  | inl (e, p) ↦ (elim (Bool-cases (present (entry m pgdir (n * page_size)))) [
    | inl h ↦
        rw
          (
            e,
            dealloc_good first (n * page_size) _ _ _ m pos (table_entry pgdir (n * page_size) m p) h
                (s.owned _ low h).1,
          )
          (subst (λ a. Round first pgdir n m (ran a (without pgdir (n * page_size) m)))
            (omega (arith, low)) (freed p h))
    | inr h ↦
        rw (e, table_entry pgdir (n * page_size) m p, h)
          (subst (λ a. Round first pgdir n m (ran a m)) (omega (arith, low)) (not_mapped h))
  ])
]

-- The page after the last one below an address.
abbrev pub page_end : ℕ → ℕ
page_end a = (a + page_size - 1) / page_size

Shrunk-refl :
    (first pgdir lo hi : ℕ) (m : Mem)
    → IsUser first pgdir m
    → hi ≤ lo
    → Shrunk first pgdir lo hi m m
Shrunk-refl first pgdir lo hi m s h = record {
  user = s;
  entries = λ v. ground (arith, h);
  root = λ i. refl;
  others = λ q e o. (e, λ j. refl);
}

-- A run of the loop that clears the pages from number `lo` on.
abbrev Clears : ℕ → ℕ → ℕ → ℕ → Mem → Ran → Type 0
Clears first pgdir lo hi m r = (m' : Mem) × (a : ℕ) × (r ≡ ran a m') × Shrunk first pgdir lo hi m m'

Clears-step :
    (first pgdir n hi : ℕ) (m : Mem) (r : Ran) (k : ℕ → Mem → Ran)
    → IsUser first pgdir m
    → n < hi
    → n * page_size < kern_base
    → Round first pgdir n m r
    → ((n' : ℕ) (t : Mem)
        → n < n'
        → IsUser first pgdir t
        → Clears first pgdir n' hi t (k (n' * page_size) t))
    → Clears first pgdir n hi m (and_then r k)
Clears-step first pgdir n hi m r k s l low (no_table h) rest =
    let c = rest ((n / 1024 + 1) * 1024) m (omega arith) s in
    (c.0, c.1, c.2, Shrunk-skip first pgdir n _ hi m c.0 h (omega arith) c.3)
Clears-step first pgdir n hi m r k s l low (not_mapped h) rest =
    let c = rest (n + 1) m (omega arith) s in
    (
      c.0,
      c.1,
      c.2,
      Shrunk-skip first pgdir n _ hi m c.0
          (λ v r. rw (same_entry m pgdir v (n * page_size) (ground (arith, r))) h) (omega arith)
          c.3,
    )
Clears-step first pgdir n hi m r k s l low (freed p h) rest =
    let c =
      rest (n + 1) (without pgdir (n * page_size) m) (omega arith)
        (IsUser-without first pgdir (n * page_size) m s low p h) in
    (c.0, c.1, c.2, Shrunk-one first pgdir n hi m c.0 s low p h l c.3)

dealloc_from_lem :
    (first pgdir oldsz fuel n : ℕ) (m : Mem)
    → 0 < first
    → oldsz ≤ kern_base
    → page_end oldsz < n + fuel
    → 0 < fuel
    → IsUser first pgdir m
    → Clears first pgdir n
        (page_end oldsz)
        m
        (dealloc_from first pgdir oldsz fuel (n * page_size) m)
unfolding dealloc_from
dealloc_from_lem first pgdir oldsz zero n m pos h e f s = absurd (omega arith)
dealloc_from_lem first pgdir oldsz (suc fuel) n m pos h e f s =
    elim (Bool-cases (leb oldsz (n * page_size))) [
      | inl d ↦ rw d (m, n * page_size, refl, Shrunk-refl first pgdir n _ m s (ground (arith, d)))
      | inr d ↦ rw d (
          Clears-step first pgdir n (page_end oldsz) m _
            (λ a' m'. dealloc_from first pgdir oldsz fuel a' m') s (ground (arith, d))
            (ground (arith, d, h)) (dealloc_one_lem first pgdir n m pos s (ground (arith, d, h)))
            (λ n' t l u.
              dealloc_from_lem first pgdir oldsz fuel n' t pos h (omega arith)
                (ground (arith, d, e)) u))
    ]

-- `deallocuvm` from `oldsz`, at most KERNBASE, to a smaller `newsz`, in an address space whose user
-- pages are its own, ends and returns `newsz` with no panic: the entries of the pages from the end of
-- `newsz` to the end of `oldsz` that were mapped are 0, all other entries are kept, the user pages are
-- still its own, the directory is unchanged, and pages outside the address space that were not among
-- those freed keep their contents and stay outside.
pub deallocuvm_lem :
    (first pgdir oldsz newsz : ℕ) (m : Mem)
    → 0 < first
    → IsUser first pgdir m
    → newsz < oldsz
    → oldsz ≤ kern_base
    → (m' : Mem) × (deallocuvm first pgdir oldsz newsz m ≡ ran newsz m')
      × Shrunk first pgdir (page_end newsz) (page_end oldsz) m m'
unfolding deallocuvm
deallocuvm_lem first pgdir oldsz newsz m pos s l h =
    let b : leb oldsz newsz ≡ false = ground (arith, l) in
    let e : round_up newsz ≡ page_end newsz * page_size = omega arith in
    let c =
      dealloc_from_lem first pgdir oldsz (oldsz / page_size + 2) (page_end newsz) m pos h
        (omega arith) (omega arith) s in
    (
      c.0,
      rw b (
          ap
            (λ a.
              and_then (dealloc_from first pgdir oldsz (oldsz / page_size + 2) a m)
                (λ z m'. ran newsz m'))
            e
          ∙ ap (λ r. and_then r (λ z m'. ran newsz m')) c.2),
      c.3,
    )

-- ===== src/Vm/Grow.antt =====
-- What `allocuvm` of vm.c has done to an address space, on the way and when it gives up.
use basic_os.Prelude.{
  ℕ, ◌+◌, ◌*◌, ◌≤◌, ◌<◌, ◌≡◌, inl, inr, refl, sym, ap, ◌∙◌, arith, true, false, ◌==◌, if◌then◌else◌,
  Bool-cases, has,
}
use basic_os.Vm.{Mem, page_size, kern_base, frame, flags, present, pte_of}
use basic_os.Vm.Walk.{entry, Elsewhere, Grows, Grows-refl, Grows-trans}
use basic_os.Vm.Shrink.{IsUser, in_range, Shrunk}

-- From `m` to `t` the pages from number `lo` to before `hi` were mapped, to pages that were free and are
-- now zero, for the user to read and write; all else is as before.
pub record Grown (first pgdir lo hi : ℕ) (m t : Mem) : Type 0 where
  pub user : IsUser first pgdir t
  pub kept : (v : ℕ) → in_range lo hi v ≡ false → entry t pgdir v ≡ entry m pgdir v
  pub fresh :
      (v : ℕ)
      → in_range lo hi v ≡ true
      → (flags (entry t pgdir v) ≡ 7)
        × (has (frame (entry t pgdir v)) m.free ≡ true)
        × ((j : ℕ) → t.words (frame (entry t pgdir v)) j ≡ 0)
  pub grows : Grows pgdir m t

-- From `m` to `t` nothing was mapped.
pub record Undone (first pgdir lo hi : ℕ) (m t : Mem) : Type 0 where
  pub user : IsUser first pgdir t
  pub kept : (v : ℕ) → in_range lo hi v ≡ false → entry t pgdir v ≡ entry m pgdir v
  pub gone : (v : ℕ) → in_range lo hi v ≡ true → present (entry t pgdir v) ≡ false
  pub others :
      (q : ℕ) → Elsewhere pgdir m q → Elsewhere pgdir t q × ((j : ℕ) → t.words q j ≡ m.words q j)

pub true_not_false : true ≡ false → ⊥
true_not_false e = cc

pub Undone-Shrunk :
    (first pgdir lo n hi : ℕ) (m t u : Mem)
    → ((v : ℕ) → in_range lo hi v ≡ true → present (entry m pgdir v) ≡ false)
    → Grown first pgdir lo n m t
    → n ≤ hi
    → Shrunk first pgdir lo hi t u
    → Undone first pgdir lo hi m u
Undone-Shrunk first pgdir lo n hi m t u absent g l s = record {
  user = s.user;
  kept = λ v h. ground (arith, s.entries v, g.kept v, h, l);
  gone = λ v h. ground (arith, s.entries v, h);
  others = λ q e.
      let k = s.others q (let w = g.grows in w.still q e) (λ v r p f.
        elim (Bool-cases (in_range lo n v)) [
          | inl i ↦
              true_not_false (sym ((g.fresh v i).1) ∙ ap (λ a. has a m.free) (sym f) ∙ e.not_free)
          | inr i ↦ true_not_false (sym p ∙ ap present (g.kept v i) ∙ absent v r)
        ]) in
      (k.0, λ j. k.1 j ∙ (let w = g.grows in w.others q e j));
}

pub Grown-refl : (first pgdir lo : ℕ) (m : Mem) → IsUser first pgdir m → Grown first pgdir lo lo m m
Grown-refl first pgdir lo m s = record {
  user = s;
  kept = λ v h. refl;
  fresh = λ v h. absurd (ground (arith, h));
  grows = Grows-refl pgdir m s.space;
}

pub Grown-add :
    (first pgdir lo n p : ℕ) (m t u : Mem)
    → lo ≤ n
    → Grown first pgdir lo n m t
    → IsUser first pgdir u
    → Grows pgdir t u
    → ((v : ℕ) → entry u pgdir v ≡ (if frame v == n then pte_of p 6 else entry t pgdir v))
    → has p t.free ≡ true
    → ((j : ℕ) → u.words p j ≡ 0)
    → n * page_size < kern_base
    → Grown first pgdir lo (n + 1) m u
Grown-add first pgdir lo n p m t u l g s w e h z low = record {
  user = s;
  kept = λ v r. ground (arith, e v, g.kept v, r, l);
  fresh = λ v r. elim (Bool-cases (frame v == n)) [
    | inl q ↦
        let k : frame (entry u pgdir v) ≡ p = ground (arith, e v, q) in
        (ground (arith, e v, q), rw k (let y = g.grows in y.taken p h), rw k z)
    | inr q ↦
        let k : entry u pgdir v ≡ entry t pgdir v = ground (arith, e v, q) in
        let i : in_range lo n v ≡ true = ground (arith, q, r) in
        let y = g.user in
        rw k (
          (g.fresh v i).0,
          (g.fresh v i).1,
          λ j.
              w.others _ (y.owned v (ground (arith, i, low)) (ground (arith, (g.fresh v i).0))).0 j
              ∙ (g.fresh v i).2 j,
        )
  ];
  grows = Grows-trans pgdir m t u g.grows w;
}

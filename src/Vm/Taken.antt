-- ===== src/Vm/Taken.antt =====
-- What keeps the user part of an address space of vm.c while it grows.
use basic_os.Prelude.{
  ℕ, ◌<◌, ◌≡◌, ◌≢◌, inl, inr, sym, ap, ◌∙◌, arith, true, false, List, ◌∷◌, ◌==◌, if◌then◌else◌,
  Bool-cases, has,
}
use mathlib.Core.Path.{subst}
use basic_os.Vm.{Mem, kern_base, pdx, frame, present}
use basic_os.Vm.Walk.{entry, Elsewhere, Grows}
use basic_os.Vm.Shrink.{
  IsGood, IsUser, released, IsSpace-released, entry-released, Elsewhere-released,
}

-- The state after `kalloc` gives page `p`, whose words then become `f`.
abbrev pub taken : ℕ → (ℕ → ℕ) → (ℕ → ℕ → ℕ) → List ℕ → Mem
taken p f ws ps = record { words = λ q j. if q == p then f j else ws q j; free = ps }

module _ (first pgdir p : ℕ) (f : ℕ → ℕ) (ws : ℕ → ℕ → ℕ) (ps : List ℕ)
    (s : IsUser first pgdir (record { words = ws; free = p ∷ ps })) where
  not_pgdir : p ≢ pgdir
  not_pgdir e = let r = s.space.root_used in ground (arith, r, e)

  unused : (q : ℕ) → has q (p ∷ ps) ≡ false → (p ≢ q) × (has q ps ≡ false)
  unused q h = ground (arith, h)

  root_taken : (i : ℕ) → (taken p f ws ps).words pgdir i ≡ ws pgdir i
  root_taken i = ground (arith, not_pgdir)

  present_taken :
      (i : ℕ) → present ((taken p f ws ps).words pgdir i) ≡ true → present (ws pgdir i) ≡ true
  present_taken i h = subst (λ w. present w ≡ true) (root_taken i) h

  pub entry-taken :
      (v : ℕ)
      → entry (taken p f ws ps) pgdir v ≡ entry (record { words = ws; free = p ∷ ps }) pgdir v
  entry-taken v = let t = s.space.table_used (pdx v) in ground (arith, not_pgdir, t)

  pub Grows-taken : Grows pgdir (record { words = ws; free = p ∷ ps }) (taken p f ws ps)
  Grows-taken = record {
    space = record {
      not_root = λ i. rw (root_taken i) (s.space.not_root i);
      apart = λ i j. rw (root_taken i, root_taken j) (s.space.apart i j);
      table_used = λ i h.
          subst (λ w. has (frame w) ps ≡ false) (sym (root_taken i))
            (unused _ (s.space.table_used i (present_taken i h))).1;
      root_used = (unused pgdir s.space.root_used).1;
      distinct = s.space.distinct.1;
    };
    others = λ q e j. ground (arith, unused q e.not_free);
    still = λ q e. record {
      not_free = (unused q e.not_free).1;
      not_root = e.not_root;
      not_table = λ i. rw (root_taken i) (e.not_table i);
    };
    taken = λ q h. ground (arith, h);
    tables = λ i h. inl (root_taken i);
  }

  pub Elsewhere-taken : Elsewhere pgdir (taken p f ws ps) p
  Elsewhere-taken = record {
    not_free = s.space.distinct.0;
    not_root = not_pgdir;
    not_table = λ i h e.
        (unused _ (s.space.table_used i (present_taken i h))).0 (sym e ∙ ap frame (root_taken i));
  }

-- An address space keeps its user pages when it grows by tables alone.
pub IsUser-grows :
    (first pgdir : ℕ) (m m' : Mem)
    → IsUser first pgdir m
    → Grows pgdir m m'
    → ((v : ℕ) → entry m' pgdir v ≡ entry m pgdir v)
    → IsUser first pgdir m'
IsUser-grows first pgdir m m' s g e = record {
  space = g.space;
  owned = λ v. rw (e v) (λ l p. (g.still _ (s.owned v l p).0, (s.owned v l p).1));
  once = λ u v. rw (e u, e v) (s.once u v);
  good = λ q h. s.good q (g.taken q h);
}

-- It keeps them too when a page `p` of its own is added at page number `n`.
pub IsUser-add :
    (first pgdir n p e : ℕ) (m m' : Mem)
    → IsUser first pgdir m
    → Grows pgdir m m'
    → Elsewhere pgdir m' p
    → IsGood first p
    → frame e ≡ p
    → ((v : ℕ) → v < kern_base → present (entry m pgdir v) ≡ true → frame (entry m pgdir v) ≢ p)
    → ((v : ℕ) → entry m' pgdir v ≡ (if frame v == n then e else entry m pgdir v))
    → IsUser first pgdir m'
IsUser-add first pgdir n p e m m' s g o b f ne h = record {
  space = g.space;
  owned = λ v l r. elim (Bool-cases (frame v == n)) [
    | inl q ↦ let k : frame (entry m' pgdir v) ≡ p = ground (arith, h v, q, f) in rw k (o, b)
    | inr q ↦
        let k : entry m' pgdir v ≡ entry m pgdir v = ground (arith, h v, q) in
        let w = s.owned v l (ground (arith, k, r)) in rw k (g.still _ w.0, w.1)
  ];
  once = λ u v.
      rw (h u, h v)
        (λ lu lv d pu pv. ground (arith, s.once u v lu lv d, ne u lu, ne v lv, f, pu, pv, d));
  good = λ q r. s.good q (g.taken q r);
}

-- And when a page of its own that it does not map is freed.
pub IsUser-released :
    (first pgdir q : ℕ) (m : Mem)
    → IsUser first pgdir m
    → Elsewhere pgdir m q
    → IsGood first q
    → ((v : ℕ) → v < kern_base → present (entry m pgdir v) ≡ true → frame (entry m pgdir v) ≢ q)
    → IsUser first pgdir (released q m)
IsUser-released first pgdir q m s o b ne = record {
  space = IsSpace-released pgdir q m s.space o;
  owned = λ v. rw (entry-released pgdir q m s.space o v) (λ l p.
      (Elsewhere-released pgdir q m s.space o _ (s.owned v l p).0 (ne v l p), (s.owned v l p).1));
  once = λ u v.
      rw (entry-released pgdir q m s.space o u, entry-released pgdir q m s.space o v) (s.once u v);
  good = λ p h. ground (arith, h, s.good p, b);
}

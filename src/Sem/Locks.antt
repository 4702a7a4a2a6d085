-- ===== src/Sem/Locks.antt =====
-- The mutex of a semaphore and `ptable.lock`: at most one thread is between its lock and its unlock.
use basic_os.Prelude.{
  ℕ, ◌≡◌, inl, inr, refl, sym, ap, ◌∙◌, arith, Bool, true, false, ◌==◌, update, Bool-cases,
}
use basic_os.Sem.{
  Pc, wait_test, wait_acquire, wait_unlock, wait_mark, wait_tidy, wait_take, wait_done, post_inc,
  post_unlock,
}

-- Where a thread holds the mutex, and where `ptable.lock`
abbrev pub has_mutex : Pc → Bool
has_mutex wait_test = true
has_mutex wait_acquire = true
has_mutex wait_unlock = true
has_mutex wait_take = true
has_mutex wait_done = true
has_mutex post_inc = true
has_mutex post_unlock = true
has_mutex c = false

abbrev pub has_table : Pc → Bool
has_table wait_unlock = true
has_table wait_mark = true
has_table wait_tidy = true
has_table c = false

-- A lock that is taken exactly while one thread stands where it is held
pub record IsLock (h : Pc → Bool) (taken : Bool) (pc : ℕ → Pc) : Type 0 where
  pub one : (i j : ℕ) → h (pc i) ≡ true → h (pc j) ≡ true → i ≡ j
  pub marked : (i : ℕ) → h (pc i) ≡ true → taken ≡ true
  pub held : taken ≡ true → (i : ℕ) × (h (pc i) ≡ true)

module _ (h : Pc → Bool) (pc : ℕ → Pc) (i : ℕ) where
  pub IsLock-keep :
      (taken : Bool) (pc' : ℕ → Pc)
      → ((j : ℕ) → h (pc' j) ≡ h (pc j))
      → IsLock h taken pc
      → IsLock h taken pc'
  IsLock-keep taken pc' e l = record {
    one = λ a b p q. l.one a b (sym (e a) ∙ p) (sym (e b) ∙ q);
    marked = λ a p. l.marked a (sym (e a) ∙ p);
    held = λ t. let w = l.held t in (w.0, e w.0 ∙ w.1);
  }

  pub update_same : (c c' : Pc) → pc i ≡ c → h c ≡ h c' → (j : ℕ) → h (update pc i c' j) ≡ h (pc j)
  update_same c c' e p j = elim (Bool-cases (i == j)) [
    | inl q ↦ let k : i ≡ j = ground (arith, q) in rw q (sym p ∙ ap h (sym e ∙ ap pc k))
    | inr q ↦ rw q refl
  ]

  pub IsLock-acquire : (c : Pc) → h c ≡ true → IsLock h false pc → IsLock h true (update pc i c)
  IsLock-acquire c p l = record {
    one = λ a b x y. ground (arith, l.marked a, l.marked b, x, y);
    marked = λ a x. refl;
    held = λ t. (i, ground (arith, p));
  }

  pub IsLock-release :
      (taken : Bool) (c : Pc)
      → h c ≡ false
      → h (pc i) ≡ true
      → IsLock h taken pc
      → IsLock h false (update pc i c)
  IsLock-release taken c p q l = record {
    one = λ a b x y. ground (arith, l.one i a q, l.one i b q, x, y, p);
    marked = λ a x. ground (arith, l.one i a q, x, p);
    held = λ t. absurd (cc);
  }

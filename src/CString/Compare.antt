-- ===== src/CString/Compare.antt =====
-- `strncmp`, `memcmp` and `strlen` of string.c.
use basic_os.Prelude.{
  ℕ, zero, suc, ◌+◌, ◌≡◌, ◌≢◌, ◌↔◌, refl, arith, ◌==◌, ◌<◌, Bool-cases, inl, inr, ap, ◌∙◌, some,
}
use basic_os.CString.{Memory, strncmp, memcmp, sub_int, strlen, strlen_from}

-- The first `n` bytes of two regions agree.
abbrev pub SameBytes : Memory → ℕ → ℕ → ℕ → Type 0
SameBytes m p q n = (k : ℕ) → k < n → m (p + k) ≡ m (q + k)

-- The strings at `p` and `q` agree in their first `n` characters: up to a NUL in both, or all of them.
abbrev pub SameString : Memory → ℕ → ℕ → ℕ → Type 0
SameString m p q n = (k : ℕ) → k < n → ((j : ℕ) → j < k → m (p + j) ≢ 0) → m (p + k) ≡ m (q + k)

module _ (m : Memory) (bytes : (a : ℕ) → m a < 256) where
  sub_int-zero : (p q : ℕ) → sub_int (m p) (m q) ≡ 0 → m p ≡ m q
  sub_int-zero p q e = omega (arith, bytes p, bytes q)

  -- A zero result, one byte at a time.
  memcmp-suc :
      (n p q : ℕ) → (memcmp m p q (suc n) ≡ 0) ↔ ((m p ≡ m q) × (memcmp m (p + 1) (q + 1) n ≡ 0))
  unfolding memcmp
  memcmp-suc n p q = ground (arith, bytes p, bytes q)

  -- For two regions, `memcmp` returns 0 exactly when all their bytes agree.
  pub memcmp-zero_iff : (n p q : ℕ) → (memcmp m p q n ≡ 0) ↔ SameBytes m p q n
  unfolding memcmp
  memcmp-zero_iff n p q = (to n p q, from n p q)
    where
      to : (n p q : ℕ) → memcmp m p q n ≡ 0 → SameBytes m p q n
      to zero p q e k lt = absurd (omega arith)
      to (suc n) p q e zero lt =
          ap m (omega arith) ∙ ((memcmp-suc n p q).0 e).0 ∙ ap m (omega arith)
      to (suc n) p q e (suc k) lt =
          ap m (omega arith)
          ∙ to n (p + 1) (q + 1) ((memcmp-suc n p q).0 e).1 k (omega arith)
          ∙ ap m (omega arith)

      from : (n p q : ℕ) → SameBytes m p q n → memcmp m p q n ≡ 0
      from zero p q s = refl
      from (suc n) p q s = (memcmp-suc n p q).1 (
        ap m (omega arith) ∙ s 0 (omega arith) ∙ ap m (omega arith),
        from n (p + 1) (q + 1)
            (λ k lt. ap m (omega arith) ∙ s (suc k) (omega arith) ∙ ap m (omega arith)),
      )

  strncmp-suc :
      (n p q : ℕ)
      → (strncmp m p q (suc n) ≡ 0) ↔ ((m p ≡ m q) × (m p ≢ 0 → strncmp m (p + 1) (q + 1) n ≡ 0))
  unfolding strncmp
  strncmp-suc n p q = (
    λ e. (ground (arith, bytes p, bytes q), λ ne. ground (arith, bytes p, bytes q)),
    λ h. strncmp_zero h.0 h.1,
  )
    where
      strncmp_zero :
          m p ≡ m q → (m p ≢ 0 → strncmp m (p + 1) (q + 1) n ≡ 0) → strncmp m p q (suc n) ≡ 0
      strncmp_zero e f = elim (Bool-cases (m p == 0)) [
        | inl end ↦ ground (arith, bytes p, bytes q)
        | inr more ↦ ground (arith, f (ground arith))
      ]

  -- For two strings, `strncmp` returns 0 exactly when their first `n` characters agree, where a NUL in
  -- both ends the comparison.
  pub strncmp-zero_iff : (n p q : ℕ) → (strncmp m p q n ≡ 0) ↔ SameString m p q n
  unfolding strncmp
  strncmp-zero_iff n p q = (to n p q, from n p q)
    where
      to : (n p q : ℕ) → strncmp m p q n ≡ 0 → SameString m p q n
      to zero p q e k lt before = absurd (omega arith)
      to (suc n) p q e zero lt before =
          ap m (omega arith) ∙ ((strncmp-suc n p q).0 e).0 ∙ ap m (omega arith)
      to (suc n) p q e (suc k) lt before =
          let first : m p ≢ 0 = λ z. before 0 (omega arith) (ap m (omega arith) ∙ z) in
          ap m (omega arith)
          ∙ to n (p + 1) (q + 1) (((strncmp-suc n p q).0 e).1 first) k (omega arith)
              (λ j h z. before (suc j) (omega arith) (ap m (omega arith) ∙ z))
          ∙ ap m (omega arith)

      from : (n p q : ℕ) → SameString m p q n → strncmp m p q n ≡ 0
      from zero p q s = refl
      from (suc n) p q s = (strncmp-suc n p q).1 (
        ap m (omega arith) ∙ s 0 (omega arith) (λ j h. absurd (omega arith)) ∙ ap m (omega arith),
        λ first. from n (p + 1) (q + 1) (λ k lt before.
            ap m (omega arith)
            ∙ s (suc k) (omega arith) (cons_before p k first before)
            ∙ ap m (omega arith)),
      )
        where
          cons_before :
              (p k : ℕ)
              → m p ≢ 0
              → ((j : ℕ) → j < k → m (p + 1 + j) ≢ 0)
              → (j : ℕ) → j < suc k
              → m (p + j) ≢ 0
          cons_before p k first before zero h z = first (ap m (omega arith) ∙ z)
          cons_before p k first before (suc j) h z = before j (omega arith) (ap m (omega arith) ∙ z)

module _ (m : Memory) (s : ℕ) where
  strlen_from_lem :
      (fuel n k : ℕ)
      → ((j : ℕ) → j < k → m (s + (n + j)) ≢ 0)
      → m (s + (n + k)) ≡ 0
      → k < fuel
      → strlen_from fuel m s n ≡ some (n + k)
  unfolding strlen_from
  strlen_from_lem zero n k before at_end lt = absurd (omega arith)
  strlen_from_lem (suc fuel) n zero before at_end lt =
      let e : m (s + n) ≡ 0 = ap m (omega arith) ∙ at_end in ground (arith, e)
  strlen_from_lem (suc fuel) n (suc k) before at_end lt =
      let e : m (s + n) ≢ 0 = λ z. before 0 (omega arith) (ap m (omega arith) ∙ z) in
      ground (
        arith,
        e,
        strlen_from_lem fuel (n + 1) k
            (λ j h z. before (suc j) (omega arith) (ap m (omega arith) ∙ z))
            (ap m (omega arith) ∙ at_end) (omega arith),
      )

  -- `strlen` returns the number of bytes before the first NUL, with more rounds than that.
  pub strlen_lem :
      (fuel k : ℕ)
      → ((j : ℕ) → j < k → m (s + j) ≢ 0)
      → m (s + k) ≡ 0
      → k < fuel
      → strlen fuel m s ≡ some k
  unfolding strlen
  strlen_lem fuel k before at_end lt =
      strlen_from_lem fuel 0 k (λ j h z. before j h (ap m (omega arith) ∙ z))
        (ap m (omega arith) ∙ at_end) lt
      ∙ ap some (omega arith)

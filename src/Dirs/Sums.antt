-- ===== src/Dirs/Sums.antt =====
-- Sums over the numbers below a bound.
use basic_os.Prelude.{
  ℕ, zero, suc, ◌+◌, ◌<◌, ◌≡◌, ◌≢◌, inl, inr, refl, ap, ap₂, arith, Bool-cases, ◌==◌,
}

abbrev pub sum : (ℕ → ℕ) → ℕ → ℕ
sum f zero = 0
sum f (suc n) = sum f n + f n

pub sum_cong : (f g : ℕ → ℕ) (n : ℕ) → ((d : ℕ) → d < n → f d ≡ g d) → sum f n ≡ sum g n
sum_cong f g zero h = refl
sum_cong f g (suc n) h =
    ap₂ (λ a b. a + b) (sum_cong f g n (λ d l. h d (omega (arith, l)))) (h n (omega arith))

-- A sum where one term changes
pub sum_change :
    (f g : ℕ → ℕ) (n i : ℕ) → i < n → ((d : ℕ) → d ≢ i → f d ≡ g d) → sum f n + g i ≡ sum g n + f i
sum_change f g zero i l h = absurd (omega (arith, l))
sum_change f g (suc n) i l h = elim (Bool-cases (i == n)) [
  | inl e ↦
      let q : i ≡ n = ground (arith, e) in
      let a = sum_cong f g n (λ d m. h d (λ z. absurd (omega (arith, m, z, q)))) in
      let b = ap f q in let c = ap g q in omega (arith, a, b, c)
  | inr e ↦
      let a = sum_change f g n i (ground (arith, e, l)) h in
      let b = h n (λ z. absurd (ground (arith, e, z))) in omega (arith, a, b)
]

-- A term is at most the sum.
pub sum_term : (f : ℕ → ℕ) (n i : ℕ) → i < n → f i ≢ 0 → sum f n ≢ 0
sum_term f zero i l h = λ e. omega (arith, l)
sum_term f (suc n) i l h = λ e. elim (Bool-cases (i == n)) [
  | inl q ↦ let w : i ≡ n = ground (arith, q) in let a = ap f w in h (omega (arith, a, e))
  | inr q ↦ sum_term f n i (ground (arith, q, l)) h (omega (arith, e))
]

-- ===== src/Sh/Shorter.antt =====
-- The text that gettoken and peek of sh.c leave is no longer than what they got.
use basic_os.Prelude.{
  ℕ, ◌≤◌, ◌<◌, ◌≡◌, ◌≢◌, ◌⊎◌, inl, inr, refl, sym, ap, ◌∙◌, arith, Bool, true, false, not, List, [],
  ◌∷◌, if◌then◌else◌, length, Bool-cases,
}
use mathlib.Core.Path.{subst}
use basic_os.Sh.{
  Fault, Result, ok, failed, bind, is_in, whitespace, skip, after_word, right_angle, token_at,
  gettoken, starts,
}

true_not_false : true ≡ false → ⊥
true_not_false e = cc

pub length-skip : (s : List ℕ) → length (skip s) ≤ length s
unfolding skip
length-skip [] = omega arith
length-skip (c ∷ s) = ground (arith, length-skip s)

length-after_word : (s : List ℕ) → length (after_word s) ≤ length s
unfolding after_word
length-after_word [] = omega arith
length-after_word (c ∷ s) = ground (arith, length-after_word s)

-- What is skipped to is no white space.
skip_head : (s : List ℕ) (c : ℕ) (r : List ℕ) → skip s ≡ c ∷ r → is_in whitespace c ≡ false
unfolding skip
skip_head [] c r e = cc
skip_head (d ∷ s) c r e = elim (Bool-cases (is_in whitespace d)) [
  | inl p ↦ skip_head s c r (ground (arith, e, p))
  | inr p ↦ ground (arith, e, p)
]

right_angle_left : (s : List ℕ) → length (right_angle s).left ≤ length s
right_angle_left [] = omega arith
right_angle_left (c ∷ s) = ground (arith, length-skip s, length-skip (c ∷ s))

token_at_left :
    (c : ℕ) (s : List ℕ)
    → is_in whitespace c ≡ false
    → length (token_at (c ∷ s)).left < length (c ∷ s)
unfolding after_word
token_at_left c s h =
    ground
      (arith, h, length-skip s, right_angle_left s, length-skip (after_word s), length-after_word s)

-- A token that is not the end of the text takes some of it away.
token_shorter :
    (s t : List ℕ)
    → skip s ≡ t
    → ((t ≡ []) × ((token_at t).ret ≡ 0) × (length (token_at t).left ≡ 0))
      ⊎ (length (token_at t).left < length t)
token_shorter s [] e = inl (refl, refl, refl)
token_shorter s (c ∷ r) e = inr (token_at_left c r (skip_head s c r e))

pub length-gettoken : (s : List ℕ) → length (gettoken s).left ≤ length s
unfolding gettoken
length-gettoken s = elim (token_shorter s (skip s) refl) [
  | inl (e, z, l) ↦ omega (arith, l)
  | inr l ↦ omega (arith, l, length-skip s)
]

gettoken-starts :
    (s toks : List ℕ) → starts toks (skip s) ≡ true → length (gettoken s).left < length s
unfolding gettoken
gettoken-starts s toks h = elim (token_shorter s (skip s) refl) [
  | inl (e, z, l) ↦ absurd (true_not_false (sym h ∙ ap (starts toks) e))
  | inr l ↦ omega (arith, l, length-skip s)
]

pub skip-skip : (s : List ℕ) → skip (skip s) ≡ skip s
unfolding skip
skip-skip [] = refl
skip-skip (c ∷ s) = elim (Bool-cases (is_in whitespace c)) [
  | inl p ↦ rw p (skip-skip s)
  | inr p ↦ rw (p, p) refl
]

-- After a `peek` that found a token, `gettoken` takes it away.
pub gettoken_peeked :
    (s toks : List ℕ) → starts toks (skip s) ≡ true → length (gettoken (skip s)).left < length s
gettoken_peeked s toks h =
    omega (arith, gettoken-starts (skip s) toks (ap (starts toks) (skip-skip s) ∙ h), length-skip s)

pub gettoken_ret : (s : List ℕ) → (gettoken s).ret ≢ 0 → length (gettoken s).left < length s
unfolding gettoken
gettoken_ret s h = elim (token_shorter s (skip s) refl) [
  | inl (e, z, l) ↦ absurd (h z)
  | inr l ↦ omega (arith, l, length-skip s)
]

-- A run that keeps within its fuel, and leaves at most `n` characters.
pub data Fits {ℓ} {A : Type ℓ} (n : ℕ) : Result (A × List ℕ) → Type ℓ where
  fits : {a : A} {s : List ℕ} → length s ≤ n → Fits n (ok (a, s))
  fails : {e : Fault} → Fits n (failed e)

module _ {ℓ} {A : Type ℓ} where
  pub Fits-bind {κ} :
      {B : Type κ} {m n : ℕ} {r : Result (A × List ℕ)} (f : A × List ℕ → Result (B × List ℕ))
      → Fits m r
      → ((a : A) (s : List ℕ) → length s ≤ m → Fits n (f (a, s)))
      → Fits n (bind r f)
  Fits-bind f (fits {a} {s} h) k = k a s h
  Fits-bind f fails k = fails

  pub Fits-ok :
      {n : ℕ} {r : Result (A × List ℕ)} (b : A) (t : List ℕ)
      → Fits n r
      → r ≡ ok (b, t)
      → length t ≤ n
  Fits-ok {n} b t (fits {a} {s} h) e = let q : s ≡ t = cc in subst (λ u. length u ≤ n) q h
  Fits-ok {n} b t fails e = cc

  -- More room is as good.
  pub Fits-le : {m n : ℕ} {r : Result (A × List ℕ)} → Fits m r → m ≤ n → Fits n r
  Fits-le (fits h) l = fits (omega (arith, l, h))
  Fits-le fails l = fails

  pub Fits-if :
      {n : ℕ} (b : Bool) {x y : Result (A × List ℕ)}
      → (b ≡ true → Fits n x)
      → (b ≡ false → Fits n y)
      → Fits n (if b then x else y)
  Fits-if true h k = h refl
  Fits-if false h k = k refl

pub not-false : (b : Bool) → not b ≡ false → b ≡ true
not-false b h = ground (arith, h)

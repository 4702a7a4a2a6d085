-- ===== src/Printf/Roundtrip.antt =====
-- `atoi` reads what `printint` prints, and `printint` stays in its buffer.
use basic_os.Prelude.{
  ℕ, zero, suc, ◌+◌, ◌-◌, ◌*◌, ◌/◌, ◌%◌, ◌^◌, ◌≤◌, ◌<◌, ◌≡◌, ◌⊎◌, inl, inr, refl, ap, ◌∙◌, arith,
  Bool, true, false, List, [], ◌∷◌, ◌++◌, ◌==◌, Bool-cases, length, length-append,
}
use basic_os.Printf.{
  minus, digit, digits, print_back, is_negative, int_buf, printint, atoi_from, atoi,
}

-- The least number with `k` + 1 decimal digits.
abbrev ten : ℕ → ℕ
ten zero = 1
ten (suc k) = 10 * ten k

atoi_from-digit :
    (q d : ℕ) (out : List ℕ)
    → d < 10
    → q * 10 + d < 2 ^ 32
    → atoi_from q (digit d ∷ out) ≡ atoi_from (q * 10 + d) out
atoi_from-digit q d out small h =
    let shown : digit d ≡ d + 48 = ground (arith, small) in
    rw shown (ground (arith, small, h, ap (λ k. atoi_from k out) value))
  where
    value : (q * 10 + (d + 48) + (2 ^ 32 - 48)) % 2 ^ 32 ≡ q * 10 + d
    value = omega (arith, h)

atoi_from-digits :
    (n x : ℕ) (out : List ℕ)
    → x < ten (suc n)
    → x < 2 ^ 32
    → atoi_from 0 (print_back (digits (suc n) 10 x) out) ≡ atoi_from x out
unfolding digits
atoi_from-digits zero x out h w =
    let last : (x / 10 == 0) ≡ true = ground (arith, h) in
    rw last (
      atoi_from-digit 0 (x % 10) out (omega arith) (omega arith)
      ∙ ap (λ k. atoi_from k out) (omega (arith, h)))
atoi_from-digits (suc n) x out h w = elim (Bool-cases (x / 10 == 0)) [
  | inl last ↦ rw last (
      atoi_from-digit 0 (x % 10) out (omega arith) (omega arith)
      ∙ ap (λ k. atoi_from k out) (ground (arith, last)))
  | inr more ↦ rw more (
      atoi_from-digits n (x / 10) (digit (x % 10) ∷ out) (omega arith) (omega arith)
      ∙ atoi_from-digit (x / 10) (x % 10) out (omega arith) (omega arith)
      ∙ ap (λ k. atoi_from k out) (omega arith))
]

div_ten : (base x k : ℕ) → (base ≡ 10) ⊎ (base ≡ 16) → x < ten (suc k) → x / base < ten k
div_ten base x k b h = elim b [
  | inl decimal ↦ rw decimal (omega (arith, h))
  | inr hexadecimal ↦ rw hexadecimal (omega (arith, h))
]

print_back-append :
    (buf : List ℕ) (c : ℕ) (out : List ℕ)
    → print_back (buf ++ (c ∷ [])) out ≡ c ∷ print_back buf out
print_back-append [] c out = refl
print_back-append (d ∷ buf) c out = print_back-append buf c (d ∷ out)

length-digits :
    (n k base x : ℕ)
    → (base ≡ 10) ⊎ (base ≡ 16)
    → x < ten (suc k)
    → length (digits n base x) ≤ suc k
unfolding digits
length-digits zero k base x b h = omega arith
length-digits (suc n) zero base x b h =
    let none_left : (x / base == 0) ≡ true = ground (arith, div_ten base x 0 b h) in
    rw none_left (omega arith)
length-digits (suc n) (suc k) base x b h = elim (Bool-cases (x / base == 0)) [
  | inl last ↦ rw last (omega arith)
  | inr more ↦
      rw more (omega (arith, length-digits n k base (x / base) b (div_ten base x (suc k) b h)))
]

-- `atoi` reads back what `printint` prints in decimal: all of an unsigned number or of a signed number
-- that is not negative, and for a negative number what stands after its sign, which is its amount.
pub atoi-printint :
    (xx : ℕ) (sgn : Bool)
    → xx < 2 ^ 32
    → ((is_negative xx sgn ≡ false) × (atoi (printint xx 10 sgn) ≡ xx))
      ⊎ ((is_negative xx sgn ≡ true)
          × (s : List ℕ) × (printint xx 10 sgn ≡ minus ∷ s)
          × (atoi s ≡ 2 ^ 32 - xx))
unfolding atoi printint int_buf
atoi-printint xx sgn h = elim (Bool-cases (is_negative xx sgn)) [
  | inl negative ↦ inr (
    negative,
    print_back (digits 16 10 ((2 ^ 32 - xx) % 2 ^ 32)) [],
    rw negative (print_back-append (digits 16 10 ((2 ^ 32 - xx) % 2 ^ 32)) minus []),
    atoi_from-digits 15 ((2 ^ 32 - xx) % 2 ^ 32) [] (omega arith) (omega arith)
        ∙ ground (arith, negative),
  )
  | inr natural ↦ inl (natural, rw natural (atoi_from-digits 15 xx [] (omega arith) h))
]

-- `printint` in base 10 or 16 fills at most eleven bytes of its buffer, which has sixteen, and so all
-- of the digits.
pub length-int_buf :
    (xx base : ℕ) (sgn : Bool)
    → (base ≡ 10) ⊎ (base ≡ 16)
    → xx < 2 ^ 32
    → length (int_buf xx base sgn) ≤ 11
unfolding int_buf
length-int_buf xx base sgn b h = elim (Bool-cases (is_negative xx sgn)) [
  | inl negative ↦ rw negative (
      omega (
        arith,
        length-append (digits 16 base ((2 ^ 32 - xx) % 2 ^ 32)) (minus ∷ []),
        length-digits 16 9 base ((2 ^ 32 - xx) % 2 ^ 32) b (omega arith),
      ))
  | inr natural ↦ rw natural (omega (arith, length-digits 16 9 base xx b (omega arith)))
]

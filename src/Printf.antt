-- ===== src/Printf.antt =====
-- xv6-public/printf.c, `printint`, and xv6-public/ulib.c, `atoi`: numbers as text in user programs.
-- A string is the list of its bytes; an `int` is its 32-bit pattern.
pub mod Roundtrip
use basic_os.Prelude.{
  ℕ, zero, suc, ◌+◌, ◌-◌, ◌*◌, ◌/◌, ◌%◌, ◌^◌, Bool, true, false, ◌&&◌, List, [], ◌∷◌, ◌++◌, ◌==◌,
  ltb, leb, if◌then◌else◌,
}

abbrev pub minus : ℕ
minus = 45

-- `digits[d]`
abbrev pub digit : ℕ → ℕ
digit d = if ltb d 10 then d + 48 else d + 55

-- The first loop of `printint`: what it puts into `buf`, the last digit first. The first argument is
-- the number of bytes of `buf` that are left.
pub digits : ℕ → ℕ → ℕ → List ℕ
digits zero base x = []
digits (suc n) base x =
    let rest = digits n base (x / base) in digit (x % base) ∷ (if x / base == 0 then [] else rest)

-- The second loop, which prints `buf` from its end.
abbrev pub print_back : List ℕ → List ℕ → List ℕ
print_back [] out = out
print_back (c ∷ buf) out = print_back buf (c ∷ out)

abbrev pub is_negative : ℕ → Bool → Bool
is_negative xx sgn = sgn && leb (2 ^ 31) xx

-- `printint`: what it fills `buf` with, and the text that it prints.
pub int_buf : ℕ → ℕ → Bool → List ℕ
int_buf xx base sgn =
    if is_negative xx sgn
    then digits 16 base ((2 ^ 32 - xx) % 2 ^ 32) ++ (minus ∷ [])
    else digits 16 base xx

pub printint : ℕ → ℕ → Bool → List ℕ
printint xx base sgn = print_back (int_buf xx base sgn) []

-- The loop of `atoi`.
abbrev pub atoi_from : ℕ → List ℕ → ℕ
atoi_from n [] = n
atoi_from n (c ∷ s) =
    if leb 48 c && leb c 57 then atoi_from ((n * 10 + c + (2 ^ 32 - 48)) % 2 ^ 32) s else n

pub atoi : List ℕ → ℕ
atoi s = atoi_from 0 s

-- ===== src/Grep.antt =====
-- xv6-public/grep.c: the matcher of regular expressions by Kernighan and Pike.
-- A string is the list of its bytes before the 0 that ends it.
pub mod Meaning
use basic_os.Prelude.{ℕ, Bool, true, false, ◌&&◌, ◌||◌, List, [], ◌∷◌, ◌==◌, if◌then◌else◌}

abbrev pub caret : ℕ
caret = 94

abbrev pub star : ℕ
star = 42

abbrev pub dollar : ℕ
dollar = 36

abbrev pub dot : ℕ
dot = 46

abbrev pub is_end : List ℕ → Bool
is_end [] = true
is_end (x ∷ xs) = false

-- The loop of `matchstar`, given `matchhere` of the rest of the expression.
abbrev pub match_star : (List ℕ → Bool) → ℕ → List ℕ → Bool
match_star here c [] = here []
match_star here c (x ∷ xs) = here (x ∷ xs) || ((x == c || c == dot) && match_star here c xs)

-- The last test of `matchhere`, which takes one character of the text.
abbrev pub match_one : (List ℕ → Bool) → ℕ → List ℕ → Bool
match_one here c [] = false
match_one here c (x ∷ xs) = (c == dot || c == x) && here xs

-- `matchhere`
pub match_here : List ℕ → List ℕ → Bool
match_here [] text = true
match_here (c ∷ []) text = if c == dollar then is_end text else match_one (match_here []) c text
match_here (c ∷ d ∷ re) text =
    if d == star then match_star (match_here re) c text else match_one (match_here (d ∷ re)) c text

-- The loop of `match`, at every suffix of the text.
pub match_anywhere : List ℕ → List ℕ → Bool
match_anywhere re [] = match_here re []
match_anywhere re (x ∷ xs) = match_here re (x ∷ xs) || match_anywhere re xs

pub match_line : List ℕ → List ℕ → Bool
match_line [] text = match_anywhere [] text
match_line (c ∷ re) text = if c == caret then match_here re text else match_anywhere (c ∷ re) text

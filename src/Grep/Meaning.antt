-- ===== src/Grep/Meaning.antt =====
-- What a regular expression of grep.c means, and that the matcher decides it.
use basic_os.Prelude.{
  ℕ, ◌≡◌, ◌↔◌, ◌⊎◌, inl, inr, refl, sym, ap, arith, Bool, true, List, [], ◌∷◌, ◌++◌, ◌==◌,
  if◌then◌else◌, Bool-cases, All,
}
use mathlib.Core.Path.{subst}
use basic_os.Grep.{
  caret, star, dollar, dot, is_end, match_star, match_one, match_here, match_anywhere, match_line,
}

-- The parts of an expression: one character, any number of characters, and the end of the text.
pub data Item : Type 0 where
  one : ℕ → Item
  many : ℕ → Item
  at_end : Item

abbrev pub items : List ℕ → List Item
items [] = []
items (c ∷ []) = if c == dollar then at_end ∷ [] else one c ∷ []
items (c ∷ d ∷ re) = if d == star then many c ∷ items re else one c ∷ items (d ∷ re)

-- A dot stands for every character.
abbrev pub Accepts : ℕ → ℕ → Type 0
Accepts c x = (c ≡ dot) ⊎ (c ≡ x)

-- The texts that begin with what the items describe.
abbrev pub Begins : List Item → List ℕ → Type 0
Begins [] text = Unit
Begins (one c ∷ is) text =
    (x : ℕ) × (rest : List ℕ) × (text ≡ x ∷ rest) × Accepts c x × Begins is rest
Begins (many c ∷ is) text =
    (front : List ℕ) × (rest : List ℕ) × (text ≡ front ++ rest)
    × All (Accepts c) front
    × Begins is rest
Begins (at_end ∷ is) text = text ≡ []

-- The texts that match: those that hold the expression somewhere, or begin with what follows a caret.
abbrev pub Contains : List Item → List ℕ → Type 0
Contains is text = (before : List ℕ) × (after : List ℕ) × (text ≡ before ++ after) × Begins is after

abbrev pub Matches : List ℕ → List ℕ → Type 0
Matches [] text = Contains [] text
Matches (c ∷ re) text =
    if c == caret then Begins (items re) text else Contains (items (c ∷ re)) text

-- A test that decides a property of texts.
abbrev Decides : (List ℕ → Bool) → (List ℕ → Type 0) → Type 0
Decides here P = (text : List ℕ) → (here text ≡ true) ↔ P text

match_one_lem :
    (here : List ℕ → Bool) (is : List Item) (c : ℕ)
    → Decides here (Begins is)
    → Decides (match_one here c) (Begins (one c ∷ is))
match_one_lem here is c d [] = (λ h. absurd (cc), λ (x, rest, e, a, b). absurd (cc))
match_one_lem here is c d (x ∷ xs) = (
  λ h. (x, xs, refl, ground arith, (d xs).0 (ground arith)),
  λ (y, rest, e, a, b).
      let xy : x ≡ y = ground (arith, e) in
      let same : xs ≡ rest = ground (arith, e) in
      let later : here xs ≡ true = (d xs).1 (subst (Begins is) (sym same) b) in
      ground (arith, a, xy, later),
)

match_star_lem :
    (here : List ℕ → Bool) (is : List Item) (c : ℕ)
    → Decides here (Begins is)
    → Decides (match_star here c) (Begins (many c ∷ is))
match_star_lem here is c d text = (to text, from text)
  where
    to : (text : List ℕ) → match_star here c text ≡ true → Begins (many c ∷ is) text
    to [] h = ([], [], refl, tt, (d []).0 h)
    to (x ∷ xs) h = elim (Bool-cases (here (x ∷ xs))) [
      | inl now ↦ ([], x ∷ xs, refl, tt, (d (x ∷ xs)).0 now)
      | inr later ↦
          let (front, rest, e, a, b) = to xs (ground arith) in
          (x ∷ front, rest, ap (λ r. x ∷ r) e, (ground arith, a), b)
    ]

    from : (text : List ℕ) → Begins (many c ∷ is) text → match_star here c text ≡ true
    from text (front, rest, e, a, b) =
        subst (λ r. match_star here c r ≡ true) (sym e) (along front rest a b)
      where
        now : (rest : List ℕ) → here rest ≡ true → match_star here c rest ≡ true
        now [] h = h
        now (x ∷ xs) h = ground arith

        along :
            (front rest : List ℕ)
            → All (Accepts c) front
            → Begins is rest
            → match_star here c (front ++ rest) ≡ true
        along [] rest a b = now rest ((d rest).1 b)
        along (x ∷ front) rest (a, more) b = ground (arith, along front rest more b, a)

is_end_iff : (text : List ℕ) → (is_end text ≡ true) ↔ (text ≡ [])
is_end_iff [] = (λ h. refl, λ h. refl)
is_end_iff (x ∷ xs) = (λ h. absurd (cc), λ h. absurd (cc))

match_here_lem : (re : List ℕ) → Decides (match_here re) (Begins (items re))
unfolding match_here
match_here_lem [] text = (λ h. tt, λ h. refl)
match_here_lem (c ∷ []) text = elim (Bool-cases (c == dollar)) [
  | inl last ↦ rw last (is_end_iff text)
  | inr plain ↦ rw plain (match_one_lem (match_here []) [] c (match_here_lem []) text)
]
match_here_lem (c ∷ d ∷ re) text = elim (Bool-cases (d == star)) [
  | inl starred ↦ rw starred (match_star_lem (match_here re) (items re) c (match_here_lem re) text)
  | inr plain ↦
      rw plain
        (match_one_lem (match_here (d ∷ re)) (items (d ∷ re)) c (match_here_lem (d ∷ re)) text)
]

match_anywhere_lem : (re : List ℕ) → Decides (match_anywhere re) (Contains (items re))
unfolding match_anywhere
match_anywhere_lem re text = (
  to text,
  λ (before, after, e, b). subst (λ r. match_anywhere re r ≡ true) (sym e) (along before after b),
)
  where
    to : (text : List ℕ) → match_anywhere re text ≡ true → Contains (items re) text
    to [] h = ([], [], refl, (match_here_lem re []).0 h)
    to (x ∷ xs) h = elim (Bool-cases (match_here re (x ∷ xs))) [
      | inl now ↦ ([], x ∷ xs, refl, (match_here_lem re (x ∷ xs)).0 now)
      | inr later ↦
          let (before, after, e, b) = to xs (ground arith) in
          (x ∷ before, after, ap (λ r. x ∷ r) e, b)
    ]

    now : (text : List ℕ) → match_here re text ≡ true → match_anywhere re text ≡ true
    now [] h = h
    now (x ∷ xs) h = ground arith

    along :
        (before after : List ℕ)
        → Begins (items re) after
        → match_anywhere re (before ++ after) ≡ true
    along [] after b = now after ((match_here_lem re after).1 b)
    along (x ∷ before) after b = ground (arith, along before after b)

-- `match` returns 1 exactly for the texts that match the expression: those that begin with what
-- follows a caret, or that hold the expression somewhere.
pub match_line_iff : (re text : List ℕ) → (match_line re text ≡ true) ↔ Matches re text
unfolding match_line
match_line_iff [] text = match_anywhere_lem [] text
match_line_iff (c ∷ re) text = elim (Bool-cases (c == caret)) [
  | inl anchored ↦ rw anchored (match_here_lem re text)
  | inr free ↦ rw free (match_anywhere_lem (c ∷ re) text)
]

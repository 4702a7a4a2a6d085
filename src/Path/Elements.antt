-- ===== src/Path/Elements.antt =====
-- Path names as lists of elements, and `skipelem` of fs.c.
use basic_os.Prelude.{
  ℕ, ◌≤◌, ◌<◌, ◌≡◌, ◌⊎◌, inl, inr, refl, sym, ap, ◌∙◌, arith, true, false, Option, none, some, List,
  [], ◌∷◌, ◌==◌, if◌then◌else◌, take, length, Bool-cases,
}
use basic_os.Path.{
  slash, dirsiz, skip_slashes, first_elem, after_elem, elem_at, skipelem, Dirent, dirlookup,
  is_empty,
}

-- The parts of a path between its slashes, and those of them that are not empty, cut to the length of
-- a name.
abbrev pub add_char : ℕ → List (List ℕ) → List (List ℕ)
add_char c [] = (c ∷ []) ∷ []
add_char c (s ∷ ss) = (c ∷ s) ∷ ss

abbrev pub split : List ℕ → List (List ℕ)
split [] = [] ∷ []
split (c ∷ path) = if c == slash then [] ∷ split path else add_char c (split path)

abbrev pub keep : List (List ℕ) → List (List ℕ)
keep [] = []
keep ([] ∷ ss) = keep ss
keep ((c ∷ s) ∷ ss) = take dirsiz (c ∷ s) ∷ keep ss

abbrev pub elements : List ℕ → List (List ℕ)
elements path = keep (split path)

-- The inode of a name in what an inode holds.
abbrev pub looked_up : Option (List Dirent) → List ℕ → Option ℕ
looked_up none x = none
looked_up (some des) x = dirlookup des x

module _ (entries : ℕ → Option (List Dirent)) where
  -- To follow names one by one from an inode.
  abbrev pub walk : ℕ → List (List ℕ) → Option ℕ
  walk ip [] = some ip
  walk ip (x ∷ xs) = elim (looked_up (entries ip) x) [ none ↦ none | some next ↦ walk next xs ]

  -- The same but for the last name, which is returned with the directory that it is to be found in.
  abbrev pub walk_parent : ℕ → List ℕ → List (List ℕ) → Option (ℕ × List ℕ)
  walk_parent ip x [] = elim (entries ip) [ none ↦ none | some des ↦ some (ip, x) ]
  walk_parent ip x (y ∷ ys) = elim (looked_up (entries ip) x) [
    | none ↦ none
    | some next ↦ walk_parent next y ys
  ]

elements-skip_slashes : (path : List ℕ) → elements (skip_slashes path) ≡ elements path
elements-skip_slashes [] = refl
elements-skip_slashes (c ∷ path) = elim (Bool-cases (c == slash)) [
  | inl here ↦ rw here (elements-skip_slashes path)
  | inr other ↦ rw (other, other) refl
]

-- What is left after an element.
abbrev more : List ℕ → List (List ℕ)
more [] = []
more (c ∷ path) = split path

split-first_elem : (path : List ℕ) → split path ≡ first_elem path ∷ more (after_elem path)
split-first_elem [] = refl
split-first_elem (c ∷ path) = elim (Bool-cases (c == slash)) [
  | inl here ↦ rw here refl
  | inr other ↦ rw other (ap (add_char c) (split-first_elem path))
]

after_elem-slash :
    (path : List ℕ) → keep (more (after_elem path)) ≡ elements (skip_slashes (after_elem path))
after_elem-slash [] = refl
after_elem-slash (c ∷ path) = elim (Bool-cases (c == slash)) [
  | inl here ↦ rw (here, here) (sym (elements-skip_slashes path))
  | inr other ↦ rw other (after_elem-slash path)
]

length-skip_slashes : (path : List ℕ) → length (skip_slashes path) ≤ length path
length-skip_slashes [] = omega arith
length-skip_slashes (c ∷ path) = ground (arith, length-skip_slashes path)

length-after_elem : (path : List ℕ) → length (after_elem path) ≤ length path
length-after_elem [] = omega arith
length-after_elem (c ∷ path) = ground (arith, length-after_elem path)

-- A path that does not begin with a slash begins with an element.
elements-cons :
    (c : ℕ) (path : List ℕ)
    → (c == slash) ≡ false
    → elements (c ∷ path)
      ≡ take dirsiz (first_elem (c ∷ path)) ∷ elements (skip_slashes (after_elem (c ∷ path)))
elements-cons c path other =
    ap keep (split-first_elem (c ∷ path))
    ∙ rw other (ap (λ ss. take dirsiz (c ∷ first_elem path) ∷ ss) (after_elem-slash path))

-- What is left when the slashes are skipped is nothing, or does not begin with a slash.
skip_slashes-cases :
    (path : List ℕ)
    → (skip_slashes path ≡ [])
      ⊎ ((c : ℕ) × (p : List ℕ) × (skip_slashes path ≡ c ∷ p) × ((c == slash) ≡ false))
skip_slashes-cases [] = inl refl
skip_slashes-cases (c ∷ path) = elim (Bool-cases (c == slash)) [
  | inl here ↦ rw here (skip_slashes-cases path)
  | inr other ↦ rw other (inr (c, path, refl, other))
]

-- A path is left over exactly if an element is.
abbrev pub Left : List ℕ → Type 0
Left rest =
    ((is_empty rest ≡ true) × (elements rest ≡ []))
    ⊎ ((is_empty rest ≡ false) × (y : List ℕ) × (ys : List (List ℕ)) × (elements rest ≡ y ∷ ys))

Left-skip_slashes : (path : List ℕ) → Left (skip_slashes path)
Left-skip_slashes path = elim (skip_slashes-cases path) [
  | inl none_left ↦ rw none_left (inl (refl, refl))
  | inr (c, p, e, other) ↦ rw e (inr (refl, _, _, elements-cons c p other))
]

-- `skipelem` takes the first element of a path, and fails exactly if there is none.
pub skipelem_lem :
    (path : List ℕ)
    → ((skipelem path ≡ none) × (elements path ≡ []))
      ⊎ ((name : List ℕ) × (rest : List ℕ) × (skipelem path ≡ some (name, rest))
          × (elements path ≡ name ∷ elements rest)
          × (length rest < length path)
          × Left rest)
unfolding skipelem
skipelem_lem path = elim (skip_slashes-cases path) [
  | inl none_left ↦
      inl (ap elem_at none_left, sym (elements-skip_slashes path) ∙ ap elements none_left)
  | inr (c, p, e, other) ↦ inr (
    take dirsiz (first_elem (c ∷ p)),
    skip_slashes (after_elem (c ∷ p)),
    ap elem_at e,
    sym (elements-skip_slashes path) ∙ ap elements e ∙ elements-cons c p other,
    shorter c p e other,
    Left-skip_slashes (after_elem (c ∷ p)),
  )
]
  where
    shorter :
        (c : ℕ) (p : List ℕ)
        → skip_slashes path ≡ c ∷ p
        → (c == slash) ≡ false
        → length (skip_slashes (after_elem (c ∷ p))) < length path
    shorter c p e other = rw other (
        omega (
          arith,
          length-skip_slashes (after_elem p),
          length-after_elem p,
          length-skip_slashes path,
          ap length e,
        ))

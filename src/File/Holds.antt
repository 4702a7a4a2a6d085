-- ===== src/File/Holds.antt =====
-- Descriptors that hold a file, counted.
use basic_os.Prelude.{
  ℕ, zero, suc, ◌+◌, ◌^◌, ◌≤◌, ◌<◌, ◌≡◌, ◌≢◌, ◌⊎◌, inl, inr, refl, sym, ap, ◌∙◌, arith, Option,
  none, some, List, [], ◌∷◌, ◌==◌, if◌then◌else◌, length, get_elem?, set, Option-cases, length-set,
}
use mathlib.Core.Path.{subst}
use basic_os.File.{File, Files, argfd, free_fd}

-- One if a descriptor refers to file `i`.
abbrev pub one_for : ℕ → Option ℕ → ℕ
one_for i none = 0
one_for i (some j) = if j == i then 1 else 0

abbrev pub holds : ℕ → List (Option ℕ) → ℕ
holds i [] = 0
holds i (o ∷ os) = one_for i o + holds i os

-- Each file counts the descriptors of this process and the references that others hold, which the
-- 32-bit counter can count; descriptors refer to files of the table.
pub record RefsCounted (others : ℕ → ℕ) (s : Files) : Type 0 where
  pub counted :
      (i : ℕ) {f : File} → get_elem? s.files i ≡ some f → f.ref ≡ others i + holds i s.ofile
  pub countable : (i : ℕ) → others i + length s.ofile < 2 ^ 31
  pub in_table : (fd : ℕ) {i : ℕ} → argfd fd s.ofile ≡ some i → i < length s.files

pub holds_le : (i : ℕ) (os : List (Option ℕ)) → holds i os ≤ length os
holds_le i [] = ground arith
holds_le i (none ∷ os) = ground (arith, holds_le i os)
holds_le i (some j ∷ os) = ground (arith, holds_le i os)

pub holds-set :
    (i fd : ℕ) (os : List (Option ℕ)) (v : Option ℕ) {o : Option ℕ}
    → get_elem? os fd ≡ some o
    → holds i (set os fd v) + one_for i o ≡ holds i os + one_for i v
holds-set i fd [] v e = absurd (cc)
holds-set i zero (o ∷ os) v {o = old} e =
    let same : o ≡ old = ground (arith, e) in ground (arith, ap (one_for i) same)
holds-set i (suc fd) (o ∷ os) v e = ground (arith, holds-set i fd os v e)

pub get_elem?_in :
    {A : Type 0} → (xs : List A) (i : ℕ) → i < length xs → (x : A) × (get_elem? xs i ≡ some x)
get_elem?_in [] i h = absurd (omega arith)
get_elem?_in (x ∷ xs) zero h = (x, refl)
get_elem?_in (x ∷ xs) (suc i) h = get_elem?_in xs i (omega arith)

pub argfd-get :
    (fd : ℕ) (os : List (Option ℕ)) {i : ℕ} → argfd fd os ≡ some i → get_elem? os fd ≡ some (some i)
argfd-get fd [] h = absurd (cc)
argfd-get zero (o ∷ os) h = ground (arith, h)
argfd-get (suc fd) (o ∷ os) h = argfd-get fd os h

pub free_fd-get :
    (os : List (Option ℕ)) {fd : ℕ} → free_fd os ≡ some fd → get_elem? os fd ≡ some none
free_fd-get [] h = absurd (cc)
free_fd-get (none ∷ os) {fd = zero} h = refl
free_fd-get (none ∷ os) {fd = suc fd} h = absurd (cc)
free_fd-get (some i ∷ os) {fd} h = elim (Option-cases (free_fd os)) [
  | inl missing ↦ absurd (ground (arith, missing, h))
  | inr (k, found) ↦
      let here : suc k ≡ fd = ground (arith, found, h) in
      subst (λ n. get_elem? (some i ∷ os) n ≡ some none) here (free_fd-get os found)
]

pub argfd-set-none :
    (fd fd' : ℕ) (os : List (Option ℕ)) {i : ℕ}
    → argfd fd' (set os fd none) ≡ some i
    → argfd fd' os ≡ some i
argfd-set-none fd fd' [] h = h
argfd-set-none zero zero (o ∷ os) h = absurd (cc)
argfd-set-none zero (suc fd') (o ∷ os) h = h
argfd-set-none (suc fd) zero (o ∷ os) h = h
argfd-set-none (suc fd) (suc fd') (o ∷ os) h = argfd-set-none fd fd' os h

pub argfd-set-some :
    (fd fd' k : ℕ) (os : List (Option ℕ)) {i : ℕ}
    → argfd fd' (set os fd (some k)) ≡ some i
    → (argfd fd' os ≡ some i) ⊎ (k ≡ i)
argfd-set-some fd fd' k [] h = inl h
argfd-set-some zero zero k (o ∷ os) h = inr (ground arith)
argfd-set-some zero (suc fd') k (o ∷ os) h = inl h
argfd-set-some (suc fd) zero k (o ∷ os) h = inl h
argfd-set-some (suc fd) (suc fd') k (o ∷ os) h = argfd-set-some fd fd' k os h

-- One file's new count.
pub counted-set :
    (fs : List File) (i : ℕ) (f g : File) (n : ℕ → ℕ)
    → get_elem? fs i ≡ some f
    → g.ref ≡ n i
    → ((j : ℕ) (h : File) → i ≢ j → get_elem? fs j ≡ some h → h.ref ≡ n j)
    → (j : ℕ) (h : File) → get_elem? (set fs i g) j ≡ some h
    → h.ref ≡ n j
counted-set [] i f g n e self rest j h ej = absurd (cc)
counted-set (x ∷ xs) zero f g n e self rest zero h ej =
    let same : g ≡ h = ground (arith, ej) in ap (λ k. k.ref) (sym same) ∙ self
counted-set (x ∷ xs) zero f g n e self rest (suc j) h ej = rest (suc j) h (ground arith) ej
counted-set (x ∷ xs) (suc i) f g n e self rest zero h ej = rest zero h (ground arith) ej
counted-set (x ∷ xs) (suc i) f g n e self rest (suc j) h ej =
    counted-set xs i f g (λ k. n (suc k)) e self (λ k z ne ez. rest (suc k) z (ground arith) ez) j h
      ej

-- A change of one file and one descriptor that keeps the counts.
pub RefsCounted-set :
    (others : ℕ → ℕ) (s : Files) (i fd : ℕ) (f g : File) (o v : Option ℕ)
    → RefsCounted others s
    → get_elem? s.files i ≡ some f
    → get_elem? s.ofile fd ≡ some o
    → g.ref + one_for i o ≡ f.ref + one_for i v
    → ((j : ℕ) → i ≢ j → one_for j o ≡ one_for j v)
    → ((k j : ℕ) → argfd k (set s.ofile fd v) ≡ some j → j < length s.files)
    → RefsCounted others (record { files = set s.files i g; ofile = set s.ofile fd v })
RefsCounted-set others s i fd f g o v r e eo self same inside = record {
  counted = λ j {f = h} ej.
      counted-set s.files i f g (λ k. others k + holds k (set s.ofile fd v)) e
        (omega (arith, self, r.counted i e, holds-set i fd s.ofile v eo))
        (λ k z ne ez. omega (arith, r.counted k ez, holds-set k fd s.ofile v eo, same k ne)) j h ej;
  countable = λ j. omega (arith, r.countable j, length-set s.ofile fd v);
  in_table = λ k {i = j} h. omega (arith, inside k j h, length-set s.files i g);
}

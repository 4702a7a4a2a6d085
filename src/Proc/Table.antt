-- ===== src/Proc/Table.antt =====
-- Facts about the slots of the process table.
use basic_os.Prelude.{
  ℕ, zero, suc, ◌≡◌, ◌≢◌, inl, inr, refl, ap, arith, Bool, true, false, List, [], ◌∷◌, ◌==◌, Option,
  none, some, Bool-cases, map, get_elem?, length,
}
use basic_os.Proc.{Proc, find_slot, modify, any_proc}

-- What `find_slot` says of the slots.
abbrev pub Finds : (Proc → Bool) → List Proc → Option ℕ → Type 0
Finds test ps none = (i : ℕ) (p : Proc) → get_elem? ps i ≡ some p → test p ≡ false
Finds test ps (some i) = (p : Proc) × (get_elem? ps i ≡ some p) × (test p ≡ true)

pub find_slot-Finds : (test : Proc → Bool) (ps : List Proc) → Finds test ps (find_slot test ps)
find_slot-Finds test [] = λ i p e. absurd (cc)
find_slot-Finds test (q ∷ ps) = elim (Bool-cases (test q)) [
  | inl hit ↦ rw hit (q, refl, hit)
  | inr miss ↦ rw miss (step (find_slot test ps) miss (find_slot-Finds test ps))
]
  where
    first_miss :
        Finds test ps none
        → test q ≡ false
        → (i : ℕ) (p : Proc) → get_elem? (q ∷ ps) i ≡ some p
        → test p ≡ false
    first_miss f miss zero p e = ground (arith, miss)
    first_miss f miss (suc i) p e = f i p e

    step :
        (r : Option ℕ)
        → test q ≡ false
        → Finds test ps r
        → Finds test (q ∷ ps) (elim r [ none ↦ none | some i ↦ some (suc i) ])
    step none miss f = λ i p e. first_miss f miss i p e
    step (some i) miss f = f

pub modify_self :
    (i : ℕ) (f : Proc → Proc) (ps : List Proc) {p : Proc}
    → get_elem? ps i ≡ some p
    → get_elem? (modify i f ps) i ≡ some (f p)
modify_self i f [] e = absurd (cc)
modify_self zero f (q ∷ ps) e = ground (arith)
modify_self (suc i) f (q ∷ ps) e = modify_self i f ps e

pub modify_ne :
    (i j : ℕ) (f : Proc → Proc) (ps : List Proc)
    → i ≢ j
    → get_elem? (modify i f ps) j ≡ get_elem? ps j
modify_ne i j f [] ne = refl
modify_ne zero zero f (q ∷ ps) ne = absurd (ne refl)
modify_ne zero (suc j) f (q ∷ ps) ne = refl
modify_ne (suc i) zero f (q ∷ ps) ne = refl
modify_ne (suc i) (suc j) f (q ∷ ps) ne = modify_ne i j f ps (λ e. ne (ap suc e))

pub length-modify : (i : ℕ) (f : Proc → Proc) (ps : List Proc) → length (modify i f ps) ≡ length ps
length-modify i f [] = refl
length-modify zero f (q ∷ ps) = refl
length-modify (suc i) f (q ∷ ps) = ap suc (length-modify i f ps)

pub get_elem?-map :
    (f : Proc → Proc) (ps : List Proc) (i : ℕ) {p : Proc}
    → get_elem? ps i ≡ some p
    → get_elem? (map f ps) i ≡ some (f p)
get_elem?-map f [] i e = absurd (cc)
get_elem?-map f (q ∷ ps) zero e = ground arith
get_elem?-map f (q ∷ ps) (suc i) e = get_elem?-map f ps i e

pub any_proc-get :
    (test : Proc → Bool) (ps : List Proc) (i : ℕ) {p : Proc}
    → get_elem? ps i ≡ some p
    → test p ≡ true
    → any_proc test ps ≡ true
any_proc-get test [] i e h = absurd (cc)
any_proc-get test (q ∷ ps) zero e h = ground arith
any_proc-get test (q ∷ ps) (suc i) e h = ground (arith, any_proc-get test ps i e h)

pub any_proc-none :
    (test : Proc → Bool) (ps : List Proc)
    → any_proc test ps ≡ false
    → (i : ℕ) {p : Proc} → get_elem? ps i ≡ some p
    → test p ≡ false
any_proc-none test [] h i e = absurd (cc)
any_proc-none test (q ∷ ps) h zero e = ground arith
any_proc-none test (q ∷ ps) h (suc i) e = any_proc-none test ps (ground arith) i e

pub modify-modify :
    (i : ℕ) (f g : Proc → Proc) (ps : List Proc)
    → modify i f (modify i g ps) ≡ modify i (λ p. f (g p)) ps
modify-modify i f g [] = refl
modify-modify zero f g (q ∷ ps) = refl
modify-modify (suc i) f g (q ∷ ps) = ap (λ xs. q ∷ xs) (modify-modify i f g ps)

-- A slot does not hold two processes that a test tells apart.
pub slot_clash :
    (test : Proc → Bool) (ps : List Proc) (i j : ℕ) {a b : Proc}
    → (i == j) ≡ true
    → get_elem? ps i ≡ some a
    → get_elem? ps j ≡ some b
    → test a ≡ true
    → test b ≡ false
    → ⊥
slot_clash test ps i j same ea eb ta tb = let ij : i ≡ j = ground arith in cc

-- ===== src/Dirs/Lists.antt =====
-- Directories as lists of entries: how many of them count for the `nlink` of an inode.
use basic_os.Prelude.{
  ℕ, zero, suc, ◌+◌, ◌-◌, ◌≤◌, ◌≡◌, ◌≢◌, refl, sym, ap, ap₂, ◌∙◌, arith, Bool, true, false, not,
  ◌&&◌, none, some, List, [], ◌∷◌, ◌==◌, if◌then◌else◌, take, Bool-cases, inl, inr, Option,
}
use basic_os.Path.{dirlookup, dirsiz, Dirent, same_name}
use basic_os.Dirs.{dot, find_name, free_slot, put_entry}

-- Entries count, but not those for "." and those that are free.
abbrev pub counts : ℕ → Dirent → Bool
counts n de = (de.inum == n) && (not (de.inum == 0) && not (same_name dirsiz dot de.name))

abbrev pub one : ℕ → Dirent → ℕ
one n de = if counts n de then 1 else 0

abbrev pub count : ℕ → List Dirent → ℕ
count n [] = 0
count n (de ∷ des) = one n de + count n des

one_free : (n : ℕ) (de : Dirent) → (de.inum == 0) ≡ true → one n de ≡ 0
one_free n de e = rw e (ground arith)

free_slot_here : (x : Dirent) (des : List Dirent) → (x.inum == 0) ≡ true → free_slot (x ∷ des) ≡ 0
unfolding free_slot
free_slot_here x des e = rw e refl

free_slot_later :
    (x : Dirent) (des : List Dirent)
    → (x.inum == 0) ≡ false
    → free_slot (x ∷ des) ≡ suc (free_slot des)
unfolding free_slot
free_slot_later x des e = rw e (omega arith)

pub count-add :
    (n : ℕ) (de : Dirent) (des : List Dirent)
    → count n (put_entry des (free_slot des) de) ≡ count n des + one n de
unfolding put_entry
count-add n de [] = omega arith
count-add n de (x ∷ des) = elim (Bool-cases (x.inum == 0)) [
  | inl e ↦
      ap (λ s. count n (put_entry (x ∷ des) s de)) (free_slot_here x des e)
      ∙ omega (arith, one_free n x e)
  | inr e ↦
      ap (λ s. count n (put_entry (x ∷ des) s de)) (free_slot_later x des e)
      ∙ omega (arith, count-add n de des)
]

-- `same_name` follows from a name in common.
pub same_name_lem :
    (k : ℕ) (a b c : List ℕ)
    → same_name k a b ≡ true
    → same_name k a c ≡ false
    → same_name k c b ≡ false
same_name_lem zero a b c e f = absurd (ground (arith, f))
same_name_lem (suc k) [] [] [] e f = absurd (ground (arith, f))
same_name_lem (suc k) [] [] (z ∷ c) e f = refl
same_name_lem (suc k) [] (y ∷ b) c e f = absurd (ground (arith, e))
same_name_lem (suc k) (x ∷ a) [] c e f = absurd (ground (arith, e))
same_name_lem (suc k) (x ∷ a) (y ∷ b) [] e f = refl
same_name_lem (suc k) (x ∷ a) (y ∷ b) (z ∷ c) e f = ground (arith, e, f, same_name_lem k a b c)

abbrev pub free : Dirent
free = record { inum = 0; name = [] }

-- Whether `find_name` stops at an entry
abbrev pub matches : List ℕ → Dirent → Bool
matches name de = not (de.inum == 0) && same_name dirsiz name de.name

find_name_here :
    (x : Dirent) (des : List Dirent) (name : List ℕ) (i : ℕ)
    → matches name x ≡ true
    → find_name (x ∷ des) name i ≡ some (i, x.inum)
unfolding find_name
find_name_here x des name i h =
    let a : (x.inum == 0) ≡ false = ground (arith, h) in
    let b : same_name dirsiz name x.name ≡ true = ground (arith, h) in rw (a, b) refl

find_name_later :
    (x : Dirent) (des : List Dirent) (name : List ℕ) (i : ℕ)
    → matches name x ≡ false
    → find_name (x ∷ des) name i ≡ find_name des name (i + 1)
unfolding find_name
find_name_later x des name i h = elim (Bool-cases (x.inum == 0)) [
  | inl a ↦ rw a refl
  | inr a ↦ let b : same_name dirsiz name x.name ≡ false = ground (arith, h, a) in rw (a, b) refl
]

-- A name that is not "." counts.
one_found :
    (n : ℕ) (name : List ℕ) (x : Dirent)
    → same_name dirsiz name dot ≡ false
    → matches name x ≡ true
    → one n x ≡ (if x.inum == n then 1 else 0)
one_found n name x d h =
    let a : (x.inum == 0) ≡ false = ground (arith, h) in
    let b : same_name dirsiz dot x.name ≡ false =
      same_name_lem dirsiz name x.name dot (ground (arith, h)) d in
    rw (a, b) ground arith

find_name_nil : (name : List ℕ) (i : ℕ) → find_name [] name i ≡ none
unfolding find_name
find_name_nil name i = refl

pub count-clear :
    (n : ℕ) (name : List ℕ) (des : List Dirent) (i k m : ℕ)
    → same_name dirsiz name dot ≡ false
    → find_name des name i ≡ some (k, m)
    → (i ≤ k)
      × (m ≢ 0)
      × (count n (put_entry des (k - i) free) + (if m == n then 1 else 0) ≡ count n des)
unfolding put_entry
count-clear n name [] i k m d e = absurd (ground (arith, sym (find_name_nil name i) ∙ e))
count-clear n name (x ∷ des) i k m d e = elim (Bool-cases (matches name x)) [
  | inl h ↦
      let q = sym (find_name_here x des name i h) ∙ e in
      let a : i ≡ k = ground (arith, q) in
      let b : x.inum ≡ m = ground (arith, q) in
      let s : k - i ≡ 0 = omega (arith, a) in
      let o = one_found n name x d h ∙ ap (λ y. if y == n then 1 else 0) b in
      let z : m ≢ 0 = ground (arith, h, b) in
      (
        omega (arith, a),
        z,
        ap (λ t. count n (put_entry (x ∷ des) t free) + (if m == n then 1 else 0)) s
            ∙ omega (arith, one_free n free refl, o),
      )
  | inr h ↦
      let r = count-clear n name des (i + 1) k m d (sym (find_name_later x des name i h) ∙ e) in
      let s : k - i ≡ suc (k - (i + 1)) = omega (arith, r.0) in
      (
        omega (arith, r.0),
        r.1,
        ap (λ t. count n (put_entry (x ∷ des) t free) + (if m == n then 1 else 0)) s
            ∙ omega (arith, r.2),
      )
]

-- Names that `dirlink` cuts
pub same_name-take : (k : ℕ) (a b : List ℕ) → same_name k a (take k b) ≡ same_name k a b
same_name-take zero a b = refl
same_name-take (suc k) [] [] = refl
same_name-take (suc k) [] (y ∷ b) = refl
same_name-take (suc k) (x ∷ a) [] = refl
same_name-take (suc k) (x ∷ a) (y ∷ b) = ap (λ t. (x == y) && t) (same_name-take k a b)

pub same_name_refl : (k : ℕ) (a : List ℕ) → same_name k a a ≡ true
same_name_refl zero a = refl
same_name_refl (suc k) [] = refl
same_name_refl (suc k) (x ∷ a) = ground (arith, same_name_refl k a)

nil_slot : (i : ℕ) → free_slot [] + i ≡ i
unfolding free_slot
nil_slot i = omega arith

not_found :
    (x : Dirent) (des : List Dirent) (name : List ℕ) (i : ℕ)
    → find_name (x ∷ des) name i ≡ none
    → matches name x ≡ false
not_found x des name i e = elim (Bool-cases (matches name x)) [
  | inl m ↦ absurd (ground (arith, sym (find_name_here x des name i m) ∙ e))
  | inr m ↦ m
]

put_found :
    (de : Dirent) (name : List ℕ) (ip : ℕ) (des : List Dirent) (i : ℕ)
    → matches name de ≡ true
    → de.inum ≡ ip
    → find_name des name i ≡ none
    → find_name (put_entry des (free_slot des) de) name i ≡ some (free_slot des + i, ip)
unfolding put_entry
put_found de name ip [] i m q e =
    let z : free_slot [] + i ≡ i = nil_slot i in
    find_name_here de [] name i m ∙ ap₂ (λ k t. some (k, t)) (sym z) q
put_found de name ip (x ∷ des) i m q e = elim (Bool-cases (x.inum == 0)) [
  | inl f ↦
      let z = free_slot_here x des f in
      ap (λ s. find_name (put_entry (x ∷ des) s de) name i) z
      ∙ find_name_here de des name i m
      ∙ ap₂ (λ k t. some (k, t)) (omega (arith, z)) q
  | inr f ↦
      let z = free_slot_later x des f in
      let w = not_found x des name i e in
      let y = put_found de name ip des (i + 1) m q (sym (find_name_later x des name i w) ∙ e) in
      ap (λ s. find_name (put_entry (x ∷ des) s de) name i) z
      ∙ find_name_later x (put_entry des (free_slot des) de) name i w
      ∙ y
      ∙ ap (λ k. some (k, ip)) (omega (arith, z))
]

-- `dirlookup` finds what `dirlink` writes.
pub find_name-put_entry :
    (name : List ℕ) (ip : ℕ) (des : List Dirent) (i : ℕ)
    → ip ≢ 0
    → find_name des name i ≡ none
    → find_name
        (put_entry des (free_slot des) (record { inum = ip; name = take dirsiz name }))
        name
        i
      ≡ some (free_slot des + i, ip)
find_name-put_entry name ip des i h e =
    let de : Dirent = record { inum = ip; name = take dirsiz name } in
    let m : matches name de ≡ true =
      ground (arith, h, same_name-take dirsiz name name ∙ same_name_refl dirsiz name) in
    put_found de name ip des i m refl e

-- `find_name` finds the inode that `dirlookup` of Path finds.
abbrev inum_of : Option (ℕ × ℕ) → Option ℕ
inum_of none = none
inum_of (some (slot, inum)) = some inum

dirlookup_here :
    (x : Dirent) (des : List Dirent) (name : List ℕ)
    → matches name x ≡ true
    → dirlookup (x ∷ des) name ≡ some x.inum
unfolding dirlookup
dirlookup_here x des name h =
    let a : (x.inum == 0) ≡ false = ground (arith, h) in
    let b : same_name dirsiz name x.name ≡ true = ground (arith, h) in rw (a, b) refl

dirlookup_later :
    (x : Dirent) (des : List Dirent) (name : List ℕ)
    → matches name x ≡ false
    → dirlookup (x ∷ des) name ≡ dirlookup des name
unfolding dirlookup
dirlookup_later x des name h = elim (Bool-cases (x.inum == 0)) [
  | inl a ↦ rw a refl
  | inr a ↦ let b : same_name dirsiz name x.name ≡ false = ground (arith, h, a) in rw (a, b) refl
]

pub find_name-dirlookup :
    (des : List Dirent) (name : List ℕ) (i : ℕ)
    → inum_of (find_name des name i) ≡ dirlookup des name
unfolding find_name dirlookup
find_name-dirlookup [] name i = refl
find_name-dirlookup (x ∷ des) name i = elim (Bool-cases (matches name x)) [
  | inl h ↦ ap inum_of (find_name_here x des name i h) ∙ sym (dirlookup_here x des name h)
  | inr h ↦
      ap inum_of (find_name_later x des name i h)
      ∙ find_name-dirlookup des name (i + 1)
      ∙ sym (dirlookup_later x des name h)
]

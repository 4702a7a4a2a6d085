-- ===== src/Bio/Release.antt =====
-- `brelse` of bio.c: no buffer is lost, and an unreferenced one becomes the most recently used.
use basic_os.Prelude.{
  ℕ, ◌≡◌, ◌⊎◌, inl, inr, refl, sym, ◌∙◌, arith, Bool, true, false, ◌||◌, List, [], ◌∷◌, ◌==◌,
  Option, none, some, if◌then◌else◌, Bool-cases, has,
}
use mathlib.Core.List.{Perm}
use mathlib.Core.List.Perm
use basic_os.Bio.{Buf, is_block, unreferenced, take_out, drop_reference, brelse}
use basic_os.Bio.Unique.{caches, IsUnique, ids}

record Taken (bs : List Buf) (b : Buf) (others : List Buf) : Type 0 where
  caches_eq : (d n : ℕ) → caches d n bs ≡ (is_block d n b || caches d n others)
  perm : Perm (b.id ∷ ids others) (ids bs)
  unique : IsUnique bs → IsUnique (b ∷ others)

abbrev TakenSpec : ℕ → List Buf → Option (Buf × List Buf) → Type 0
TakenSpec i bs none = has i (ids bs) ≡ false
TakenSpec i bs (some (b, others)) = Taken bs b others

Taken-cons :
    (i : ℕ) (x : Buf) (bs : List Buf) (r : Option (Buf × List Buf))
    → (x.id == i) ≡ false
    → TakenSpec i bs r
    → TakenSpec i (x ∷ bs) (elim r [ none ↦ none | some (c, bs') ↦ some (c, x ∷ bs') ])
Taken-cons i x bs none ne t = ground (arith, t)
Taken-cons i x bs (some (b, others)) ne t = record {
  caches_eq = λ d n. ground (arith, t.caches_eq d n);
  perm = Perm.trans (Perm.swap x.id b.id (ids others)) (Perm.cons x.id t.perm);
  unique = λ u. (
    λ nz. ground (arith, t.caches_eq x.dev x.blockno, u.0, (t.unique u.1).0 nz),
    (λ nz. ground (arith, t.caches_eq x.dev x.blockno, u.0 nz), (t.unique u.1).1),
  );
}

take_out-Taken : (i : ℕ) (bs : List Buf) → TakenSpec i bs (take_out i bs)
unfolding take_out
take_out-Taken i [] = refl
take_out-Taken i (x ∷ bs) = elim (Bool-cases (x.id == i)) [
  | inl here ↦ rw here (record { caches_eq = λ d n. refl; perm = Perm.refl _; unique = λ u. u })
  | inr there ↦ rw there (Taken-cons i x bs (take_out i bs) there (take_out-Taken i bs))
]

drop_reference-caches :
    (i : ℕ) (bs : List Buf) (d n : ℕ) → caches d n (drop_reference i bs) ≡ caches d n bs
unfolding drop_reference
drop_reference-caches i [] d n = refl
drop_reference-caches i (x ∷ bs) d n = ground (arith, drop_reference-caches i bs d n)

drop_reference-ids : (i : ℕ) (bs : List Buf) → ids (drop_reference i bs) ≡ ids bs
unfolding drop_reference
drop_reference-ids i [] = refl
drop_reference-ids i (x ∷ bs) = ground (arith, drop_reference-ids i bs)

drop_reference-IsUnique : (i : ℕ) (bs : List Buf) → IsUnique bs → IsUnique (drop_reference i bs)
unfolding drop_reference
drop_reference-IsUnique i [] u = tt
drop_reference-IsUnique i (x ∷ bs) u = elim (Bool-cases (x.id == i)) [
  | inl here ↦ rw here u
  | inr there ↦
      rw there (
        λ nz. drop_reference-caches i bs x.dev x.blockno ∙ u.0 nz,
        drop_reference-IsUnique i bs u.1,
      )
]

-- What each outcome of `brelse` means; `none` is the panic.
abbrev pub BrelseMeans : Bool → ℕ → List Buf → Option (List Buf) → Type 0
BrelseMeans held i bs none = (held ≡ false) ⊎ (has i (ids bs) ≡ false)
BrelseMeans held i bs (some bs') =
    (held ≡ true)
    × ((d n : ℕ) → caches d n bs' ≡ caches d n bs)
    × Perm (ids bs') (ids bs)
    × (IsUnique bs → IsUnique bs')

-- `brelse` of a buffer of the list whose lock is held: every block that was cached is cached still,
-- the buffers are the same ones, perhaps in another order, and no block gets a second buffer. It panics
-- only if the lock is not held.
pub brelse_lem : (held : Bool) (i : ℕ) (bs : List Buf) → BrelseMeans held i bs (brelse held i bs)
unfolding brelse
brelse_lem false i bs = inl refl
brelse_lem true i bs = step (take_out i bs) (take_out-Taken i bs)
  where
    step :
        (r : Option (Buf × List Buf))
        → TakenSpec i bs r
        → BrelseMeans true i bs (elim r [
          | none ↦ none
          | some (b, others) ↦
              if (unreferenced b).refcnt == 0
              then some (unreferenced b ∷ others)
              else some (drop_reference i bs)
        ])
    step none t = inr t
    step (some (b, others)) t = elim (Bool-cases ((unreferenced b).refcnt == 0)) [
      | inl last ↦ rw last (refl, (λ d n. sym (t.caches_eq d n)), t.perm, t.unique)
      | inr more ↦ rw more (
        refl,
        drop_reference-caches i bs,
        rw (drop_reference-ids i bs) (Perm.refl (ids bs)),
        drop_reference-IsUnique i bs,
      )
    ]

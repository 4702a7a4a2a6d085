-- ===== src/Sleeplock/Exclusive.antt =====
-- Mutual exclusion by sleeplock.c.
use basic_os.Prelude.{
  ℕ, ◌≡◌, ◌↔◌, ◌⊎◌, inl, inr, refl, sym, ap, ◌∙◌, arith, true, false, some, List, [], ◌∷◌, ◌++◌,
}
use basic_os.Sleeplock.{Sleeplock, initsleeplock, acquiresleep, releasesleep, holdingsleep}

-- A lock, and the processes that are between `acquiresleep` and `releasesleep`.
pub record Use : Type 0 where
  pub lock : Sleeplock
  pub inside : List ℕ

-- A process that gets the lock goes in; one that gives it back, as only one inside does, goes out.
pub data Step (s t : Use) : Type 0 where
  enters : (pid : ℕ) → acquiresleep pid s.lock ≡ some t.lock → t.inside ≡ pid ∷ s.inside → Step s t
  leaves :
      (us : List ℕ) (pid : ℕ) (vs : List ℕ)
      → s.inside ≡ us ++ (pid ∷ vs)
      → t.lock ≡ releasesleep s.lock
      → t.inside ≡ us ++ vs
      → Step s t

pub data Reach (s : Use) : Use → Type 0 where
  here : Reach s s
  next : {t u : Use} → Reach s t → Step t u → Reach s u

-- The lock is free and no process is inside, or the one inside is the one that the lock names.
abbrev pub IsExclusive : Use → Type 0
IsExclusive s =
    ((s.lock.locked ≡ false) × (s.inside ≡ []))
    ⊎ ((s.lock.locked ≡ true) × (s.inside ≡ s.lock.pid ∷ []))

-- A list of one element splits in one way.
one_left : (us : List ℕ) (x y : ℕ) (vs : List ℕ) → x ∷ [] ≡ us ++ (y ∷ vs) → us ++ vs ≡ []
one_left [] x y vs e = ground (arith, e)
one_left (u ∷ []) x y vs e = absurd (cc)
one_left (u ∷ w ∷ us) x y vs e = absurd (cc)

none_left : (us : List ℕ) (y : ℕ) (vs : List ℕ) → [] ≡ us ++ (y ∷ vs) → ⊥
none_left [] y vs e = absurd (cc)
none_left (u ∷ us) y vs e = absurd (cc)

Step-IsExclusive : {s t : Use} → Step s t → IsExclusive s → IsExclusive t
unfolding acquiresleep releasesleep
Step-IsExclusive {s} {t} (enters pid e el) x = elim x [
  | inl (free, nobody) ↦
      let taken : record s.lock { locked = true; pid = pid } ≡ t.lock = ground (arith, free, e) in
      inr (
        sym (ap (λ l. l.locked) taken),
        el ∙ ap (λ ps. pid ∷ ps) nobody ∙ ap (λ l. l.pid ∷ []) taken,
      )
  | inr (busy, one) ↦ absurd (ground (arith, busy, e))
]
Step-IsExclusive {s} {t} (leaves us pid vs e el et) x = elim x [
  | inl (free, nobody) ↦ absurd (none_left us pid vs (sym nobody ∙ e))
  | inr (busy, one) ↦ inl (ap (λ l. l.locked) el, et ∙ one_left us s.lock.pid pid vs (sym one ∙ e))
]

Reach-IsExclusive : {s t : Use} → Reach s t → IsExclusive s → IsExclusive t
Reach-IsExclusive here x = x
Reach-IsExclusive (next r step) x = Step-IsExclusive step (Reach-IsExclusive r x)

-- From a fresh lock that no process uses, at most one process is ever between `acquiresleep` and
-- `releasesleep`, and `holdingsleep` is true exactly of that one.
pub holdingsleep_iff :
    {t : Use} (pid : ℕ)
    → Reach (record { lock = initsleeplock; inside = [] }) t
    → (holdingsleep pid t.lock ≡ true) ↔ (t.inside ≡ pid ∷ [])
unfolding holdingsleep initsleeplock
holdingsleep_iff {t} pid r = elim (Reach-IsExclusive r (inl (refl, refl))) [
  | inl (free, nobody) ↦ (λ h. absurd (ground (arith, free, h)), λ e. absurd (cc))
  | inr (busy, one) ↦ (
    λ h. one ∙ ap (λ p. p ∷ []) (ground (arith, busy, h)),
    λ e. let same : t.lock.pid ≡ pid = ground (arith, one, e) in ground (arith, busy, same),
  )
]

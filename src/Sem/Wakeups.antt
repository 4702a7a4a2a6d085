-- ===== src/Sem/Wakeups.antt =====
-- What the threads at a semaphore know of its count.
use basic_os.Prelude.{
  ℕ, ◌+◌, ◌-◌, ◌^◌, ◌<◌, ◌≡◌, ◌≢◌, ◌⊎◌, inl, inr, sym, ap, ◌∙◌, arith, Bool, true, false, ◌==◌,
  if◌then◌else◌, update, Bool-cases,
}
use basic_os.Sem.{
  Pc, outside, wait_acquire, wait_unlock, wait_mark, asleep, wait_take, post_unlock, post_signal,
  Sem, sem_init, woken,
}
use basic_os.Sem.Locks.{has_mutex, has_table, IsLock}

-- A thread that found the count 0 and still has the mutex; one that sleeps or is about to; one that has
-- counted up and will signal; and one that found the count positive.
abbrev pub decided : Pc → Bool
decided wait_acquire = true
decided wait_unlock = true
decided c = false

abbrev pub dozing : Pc → Bool
dozing wait_mark = true
dozing asleep = true
dozing c = false

abbrev pub will_signal : Pc → Bool
will_signal post_unlock = true
will_signal post_signal = true
will_signal c = false

abbrev pub takes : Pc → Bool
takes wait_take = true
takes c = false

-- What threads know of the count where they stand
pub record IsCounted (count : ℕ) (pc : ℕ → Pc) : Type 0 where
  pub found_zero : (i : ℕ) → decided (pc i) ≡ true → count ≡ 0
  pub found_some : (i : ℕ) → takes (pc i) ≡ true → count ≢ 0
  pub no_lost :
      (i : ℕ) → dozing (pc i) ≡ true → (count ≡ 0) ⊎ ((j : ℕ) × (will_signal (pc j) ≡ true))

-- The invariant
pub record IsSound (n : ℕ) (s : Sem) : Type 0 where
  pub mutex : IsLock has_mutex s.locked s.pc
  pub lock : IsLock has_table s.table s.pc
  pub counted : IsCounted s.count s.pc
  pub units : s.count + s.taken ≡ n + s.posted

pub sem_init-IsSound : (n : ℕ) → n < 2 ^ 32 → IsSound n (sem_init n)
sem_init-IsSound n small = record {
  mutex = record {
    one = λ i j p. absurd (cc);
    marked = λ i p. absurd (cc);
    held = λ t. absurd (cc);
  };
  lock = record {
    one = λ i j p. absurd (cc);
    marked = λ i p. absurd (cc);
    held = λ t. absurd (cc);
  };
  counted = record {
    found_zero = λ i p. absurd (cc);
    found_some = λ i p. absurd (cc);
    no_lost = λ i p. absurd (cc);
  };
  units = omega (arith, small);
}

-- The decided and those that take have the mutex.
decided_mutex : (c : Pc) → decided c ≡ true → has_mutex c ≡ true
decided_mutex c h = ground (arith, h)

takes_mutex : (c : Pc) → takes c ≡ true → has_mutex c ≡ true
takes_mutex c h = ground (arith, h)

pub true_not_false : true ≡ false → ⊥
true_not_false e = cc

woken-decided : (c : Pc) → decided (woken c) ≡ true → decided c ≡ true
woken-decided c h = ground (arith, h)

woken-takes : (c : Pc) → takes (woken c) ≡ true → takes c ≡ true
woken-takes c h = ground (arith, h)

woken-has_table : (c : Pc) → dozing (woken c) ≡ true → has_table c ≡ true
woken-has_table c h = ground (arith, h)

less :
    (count : ℕ) (j : ℕ → Pc)
    → (count ≡ 0) ⊎ ((k : ℕ) × (will_signal (j k) ≡ true))
    → (count - 1 ≡ 0) ⊎ ((k : ℕ) × (will_signal (j k) ≡ true))
less count j (inl z) = inl (omega (arith, z))
less count j (inr w) = inr w

-- A point of thread `i` after it moved, and of the others.
moved :
    (f : Pc → Bool) (i : ℕ) (c : Pc) (pc : ℕ → Pc) (j : ℕ)
    → f (update pc i c j) ≡ true
    → ((i ≡ j) × (f c ≡ true)) ⊎ ((i ≢ j) × (f (pc j) ≡ true))
moved f i c pc j h = elim (Bool-cases (i == j)) [
  | inl q ↦ inl (ground (arith, q), ap (λ b. f (if b then c else pc j)) (sym q) ∙ h)
  | inr q ↦ inr (ground (arith, q), ap (λ b. f (if b then c else pc j)) (sym q) ∙ h)
]

stays :
    (f : Pc → Bool) (i : ℕ) (c c' : Pc) (pc : ℕ → Pc) (j : ℕ)
    → pc i ≡ c
    → (f c ≡ true → f c' ≡ true)
    → f (pc j) ≡ true
    → f (update pc i c' j) ≡ true
stays f i c c' pc j e h p = elim (Bool-cases (i == j)) [
  | inl q ↦ let k : i ≡ j = ground (arith, q) in rw q (h (ap f (sym e ∙ ap pc k) ∙ p))
  | inr q ↦ rw q p
]

module _ (i : ℕ) (c c' : Pc) (pc : ℕ → Pc) (at : pc i ≡ c) where
  still :
      (count : ℕ)
      → (will_signal c ≡ true → will_signal c' ≡ true)
      → (count ≡ 0) ⊎ ((j : ℕ) × (will_signal (pc j) ≡ true))
      → (count ≡ 0) ⊎ ((j : ℕ) × (will_signal (update pc i c' j) ≡ true))
  still count h (inl z) = inl z
  still count h (inr (k, p)) = inr (k, stays will_signal i c c' pc k at h p)

  -- A thread moves and the count stays.
  pub Counted-move :
      (count : ℕ)
      → IsCounted count pc
      → (decided c' ≡ true → count ≡ 0)
      → (takes c' ≡ true → count ≢ 0)
      → (dozing c' ≡ true → (decided c ≡ true) ⊎ (dozing c ≡ true))
      → (will_signal c ≡ true → will_signal c' ≡ true)
      → IsCounted count (update pc i c')
  Counted-move count v hz hs hd hw = record {
    found_zero = λ j p. elim (moved decided i c' pc j p) [
      | inl (e, q) ↦ hz q
      | inr (e, q) ↦ v.found_zero j q
    ];
    found_some =
        λ j p. elim (moved takes i c' pc j p) [ inl (e, q) ↦ hs q | inr (e, q) ↦ v.found_some j q ];
    no_lost = λ j p. elim (moved dozing i c' pc j p) [
      | inl (e, q) ↦ elim (hd q) [
        | inl d ↦ inl (v.found_zero i (ap decided at ∙ d))
        | inr d ↦ still count hw (v.no_lost i (ap dozing at ∙ d))
      ]
      | inr (e, q) ↦ still count hw (v.no_lost j q)
    ];
  }

  -- The thread that has the mutex takes a unit: all others are where they know nothing of the count.
  pub Counted-take :
      (count : ℕ)
      → IsCounted count pc
      → IsLock has_mutex true pc
      → has_mutex c ≡ true
      → decided c' ≡ false
      → takes c' ≡ false
      → dozing c' ≡ false
      → will_signal c ≡ false
      → IsCounted (count - 1) (update pc i c')
  Counted-take count v l m hz hs hd hw = record {
    found_zero = λ j p. elim (moved decided i c' pc j p) [
      | inl (e, q) ↦ absurd (true_not_false (sym q ∙ hz))
      | inr (e, q) ↦ absurd (e (l.one i j (ap has_mutex at ∙ m) (decided_mutex (pc j) q)))
    ];
    found_some = λ j p. elim (moved takes i c' pc j p) [
      | inl (e, q) ↦ absurd (true_not_false (sym q ∙ hs))
      | inr (e, q) ↦ absurd (e (l.one i j (ap has_mutex at ∙ m) (takes_mutex (pc j) q)))
    ];
    no_lost = λ j p. elim (moved dozing i c' pc j p) [
      | inl (e, q) ↦ absurd (true_not_false (sym q ∙ hd))
      | inr (e, q) ↦
          still (count - 1) (λ w. absurd (true_not_false (sym w ∙ hw)))
            (less count pc (v.no_lost j q))
    ];
  }

  -- And it adds one, to signal later.
  pub Counted-post :
      (count : ℕ)
      → IsLock has_mutex true pc
      → has_mutex c ≡ true
      → decided c' ≡ false
      → takes c' ≡ false
      → will_signal c' ≡ true
      → IsCounted (count + 1) (update pc i c')
  Counted-post count l m hz hs hw = record {
    found_zero = λ j p. elim (moved decided i c' pc j p) [
      | inl (e, q) ↦ absurd (true_not_false (sym q ∙ hz))
      | inr (e, q) ↦ absurd (e (l.one i j (ap has_mutex at ∙ m) (decided_mutex (pc j) q)))
    ];
    found_some = λ j p. omega arith;
    no_lost = λ j p. inr (i, ground (arith, hw));
  }

-- A signal wakes all that sleep; none is about to, since that thread would have `ptable.lock`.
pub Counted-signal :
    (i count : ℕ) (pc : ℕ → Pc)
    → IsCounted count pc
    → IsLock has_table false pc
    → IsCounted count (update (λ j. woken (pc j)) i outside)
Counted-signal i count pc v l = record {
  found_zero = λ j p. elim (moved decided i outside (λ k. woken (pc k)) j p) [
    | inl (e, q) ↦ absurd (true_not_false (sym q))
    | inr (e, q) ↦ v.found_zero j (woken-decided (pc j) q)
  ];
  found_some = λ j p. elim (moved takes i outside (λ k. woken (pc k)) j p) [
    | inl (e, q) ↦ absurd (true_not_false (sym q))
    | inr (e, q) ↦ v.found_some j (woken-takes (pc j) q)
  ];
  no_lost = λ j p. elim (moved dozing i outside (λ k. woken (pc k)) j p) [
    | inl (e, q) ↦ absurd (true_not_false (sym q))
    | inr (e, q) ↦ absurd (true_not_false (sym (l.marked j (woken-has_table (pc j) q))))
  ];
}

-- ===== src/Sem/Progress.antt =====
-- Semaphores: some thread can go on.
use basic_os.Prelude.{
  ℕ, ◌+◌, ◌^◌, ◌<◌, ◌≡◌, ◌≢◌, ◌⊎◌, inl, inr, refl, ap, arith, Bool, true, false, not, Option, none,
  some, if◌then◌else◌, Bool-cases,
}
use basic_os.Sem.{
  Pc, outside, wait_lock, wait_test, wait_acquire, wait_unlock, wait_mark, asleep, awake, wait_tidy,
  wait_relock, wait_take, wait_done, post_lock, post_inc, post_unlock, post_signal, Sem, step_at,
  step, Reach,
}
use basic_os.Sem.Locks.{has_mutex, has_table}
use basic_os.Sem.Wakeups.{will_signal, dozing}
use basic_os.Sem.Steps.{Reach-IsSound}

-- In a call of `sem_wait` or `sem_post`
abbrev pub inside : Pc → Bool
inside outside = false
inside c = true

-- Whether a thread at a point has a step, by whether the mutex and `ptable.lock` are taken
abbrev can_go : Pc → Bool → Bool → Bool
can_go wait_lock locked table = not locked
can_go wait_acquire locked table = not table
can_go asleep locked table = false
can_go awake locked table = not table
can_go wait_relock locked table = not locked
can_go post_lock locked table = not locked
can_go post_signal locked table = not table
can_go c locked table = true

unblocked :
    (b : Bool) (x : Sem)
    → not b ≡ true
    → (s' : Sem) × (◌≡◌ {A = Option Sem} (if b then none else some x) (some s'))
unblocked true x h = absurd (cc)
unblocked false x h = (x, refl)

goes :
    (c : Pc) (i : ℕ) (s : Sem)
    → can_go c s.locked s.table ≡ true
    → (s' : Sem) × (step_at true i c s ≡ some s')
unfolding step_at
goes outside i s h = (_, refl)
goes wait_lock i s h = unblocked s.locked _ h
goes wait_test i s h = (_, refl)
goes wait_acquire i s h = unblocked s.table _ h
goes wait_unlock i s h = (_, refl)
goes wait_mark i s h = (_, refl)
goes asleep i s h = absurd (cc)
goes awake i s h = unblocked s.table _ h
goes wait_tidy i s h = (_, refl)
goes wait_relock i s h = unblocked s.locked _ h
goes wait_take i s h = (_, refl)
goes wait_done i s h = (_, refl)
goes post_lock i s h = unblocked s.locked _ h
goes post_inc i s h = (_, refl)
goes post_unlock i s h = (_, refl)
goes post_signal i s h = unblocked s.table _ h

has_table_goes :
    (c : Pc) (l t : Bool) → has_table c ≡ true → (can_go c l t ≡ true) × (inside c ≡ true)
has_table_goes c l t h = (ground (arith, h), ground (arith, h))

has_mutex_goes :
    (c : Pc) (l t : Bool)
    → t ≡ false
    → has_mutex c ≡ true
    → (can_go c l t ≡ true) × (inside c ≡ true)
has_mutex_goes c l t e h = (ground (arith, h, e), ground (arith, h))

will_signal_goes :
    (c : Pc) (l t : Bool)
    → t ≡ false
    → will_signal c ≡ true
    → (can_go c l t ≡ true) × (inside c ≡ true)
will_signal_goes c l t e h = (ground (arith, h, e), ground (arith, h))

free_goes :
    (c : Pc) (l t : Bool)
    → l ≡ false
    → t ≡ false
    → inside c ≡ true
    → (c ≡ asleep) ⊎ (can_go c l t ≡ true)
free_goes asleep l t e f h = inl refl
free_goes c l t e f h = inr (ground (arith, e, f, h))

move :
    (s : Sem) (j : ℕ)
    → (can_go (s.pc j) s.locked s.table ≡ true) × (inside (s.pc j) ≡ true)
    → (j : ℕ) × (inside (s.pc j) ≡ true) × ((s' : Sem) × (step true j s ≡ some s'))
move s j w = (j, w.1, goes (s.pc j) j s w.0)

-- In every state that threads reach from `sem_init n`, while `n` and the units posted are below 2 ^ 32 in
-- sum, the count is not 0 and a thread is in `sem_wait` or `sem_post`, some thread in one of them has a
-- step: they are not all blocked.
pub Reach-step :
    (n : ℕ) (s : Sem) (i : ℕ)
    → Reach n s
    → n + s.posted < 2 ^ 32
    → s.count ≢ 0
    → inside (s.pc i) ≡ true
    → (j : ℕ) × (inside (s.pc j) ≡ true) × ((s' : Sem) × (step true j s ≡ some s'))
Reach-step n s i r small pos h =
    let v = Reach-IsSound n s r small in
    let m = v.mutex in
    let t = v.lock in
    let k = v.counted in
    let go = λ (j : ℕ) (w : (can_go (s.pc j) s.locked s.table ≡ true) × (inside (s.pc j) ≡ true)).
      move s j w in
    elim (Bool-cases s.table) [
      | inl a ↦ let w = t.held a in go w.0 (has_table_goes (s.pc w.0) s.locked s.table w.1)
      | inr a ↦ elim (Bool-cases s.locked) [
        | inl b ↦ let w = m.held b in go w.0 (has_mutex_goes (s.pc w.0) s.locked s.table a w.1)
        | inr b ↦ elim (free_goes (s.pc i) s.locked s.table b a h) [
          | inl e ↦ elim (k.no_lost i (ap dozing e)) [
            | inl z ↦ absurd (pos z)
            | inr w ↦ go w.0 (will_signal_goes (s.pc w.0) s.locked s.table a w.1)
          ]
          | inr g ↦ go i (g, h)
        ]
      ]
    ]

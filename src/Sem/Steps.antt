-- ===== src/Sem/Steps.antt =====
-- Semaphores: no wake-up is lost, no unit is taken twice, and some thread can always go on.
use basic_os.Prelude.{
  ℕ, ◌+◌, ◌-◌, ◌%◌, ◌^◌, ◌≤◌, ◌<◌, ◌≡◌, inl, inr, refl, sym, ap, ◌∙◌, arith, Bool, true, false,
  Option, none, some, ◌==◌, if◌then◌else◌, Bool-cases,
}
use basic_os.Sem.{
  Pc, outside, wait_lock, wait_test, wait_acquire, wait_unlock, wait_mark, asleep, awake, wait_tidy,
  wait_relock, wait_take, wait_done, post_lock, post_inc, post_unlock, post_signal, Sem, goto,
  woken, step_at, Reach, start, next,
}
use basic_os.Sem.Locks.{has_mutex, has_table, IsLock, IsLock-keep, update_same}
use mathlib.Core.Path.{subst}
use basic_os.Sem.Wakeups.{
  decided, takes, IsSound, sem_init-IsSound, Counted-move, Counted-take, Counted-post,
  Counted-signal, true_not_false,
}
use basic_os.Sem.Moves.{
  Sound-move, Sound-lock, Sound-unlock, Sound-acquire, Sound-release, Counted-plain,
}

-- What a step leads to, if there is one
abbrev Sounds : ℕ → Option Sem → Type 0
Sounds n none = Unit
Sounds n (some s) = n + s.posted < 2 ^ 32 → IsSound n s

Sounds-if :
    (n : ℕ) (b : Bool) (s : Sem)
    → (b ≡ false → Sounds n (some s))
    → Sounds n (if b then none else some s)
Sounds-if n true s h = tt
Sounds-if n false s h = h refl

-- No thread is at a point where a test is false and true.
never {ℓ} : {A : Type ℓ} → false ≡ true → A
never h = absurd (true_not_false (sym h))

woken_mutex : (c : Pc) → has_mutex (woken c) ≡ has_mutex c
woken_mutex c = ground arith

woken_lock : (c : Pc) → has_table (woken c) ≡ has_table c
woken_lock c = ground arith

module _ (n i : ℕ) (s : Sem) (v : IsSound n s) where
  has-IsLock : (c : Pc) → s.pc i ≡ c → has_mutex c ≡ true → IsLock has_mutex true s.pc
  has-IsLock c at h =
      let m = v.mutex in
      subst (λ b. IsLock has_mutex b s.pc) (m.marked i (ap has_mutex at ∙ h)) v.mutex

  Sound-test :
      s.pc i ≡ wait_test → IsSound n (goto i (if s.count == 0 then wait_acquire else wait_take) s)
  Sound-test at = elim (Bool-cases (s.count == 0)) [
    | inl e ↦ rw e (
        Sound-move n i s wait_test wait_acquire v at refl refl (
          Counted-move i wait_test wait_acquire s.pc at s.count v.counted (λ h. ground (arith, e))
            (λ h. never h) (λ h. never h) (λ h. never h)))
    | inr e ↦ rw e (
        Sound-move n i s wait_test wait_take v at refl refl (
          Counted-move i wait_test wait_take s.pc at s.count v.counted (λ h. never h)
            (λ h. ground (arith, e)) (λ h. never h) (λ h. never h)))
  ]

  Sound-take :
      s.pc i ≡ wait_take
      → n + s.posted < 2 ^ 32
      → IsSound n (
          goto i wait_done
            (record s { count = (s.count + 2 ^ 32 - 1) % 2 ^ 32; taken = s.taken + 1 }))
  Sound-take at small =
      let k = v.counted in
      let pos = k.found_some i (ap takes at) in
      let e : (s.count + 2 ^ 32 - 1) % 2 ^ 32 ≡ s.count - 1 = omega (arith, v.units, pos, small) in
      rw e (record {
        mutex =
            IsLock-keep has_mutex s.pc i s.locked _
              (update_same has_mutex s.pc i wait_take wait_done at refl) v.mutex;
        lock =
            IsLock-keep has_table s.pc i s.table _
              (update_same has_table s.pc i wait_take wait_done at refl) v.lock;
        counted =
            Counted-take i wait_take wait_done s.pc at s.count v.counted
              (has-IsLock wait_take at refl) refl refl refl refl refl;
        units = omega (arith, v.units, pos);
      })

  Sound-inc :
      s.pc i ≡ post_inc
      → n + (s.posted + 1) < 2 ^ 32
      → IsSound n
          (goto i post_unlock (record s { count = (s.count + 1) % 2 ^ 32; posted = s.posted + 1 }))
  Sound-inc at small =
      let e : (s.count + 1) % 2 ^ 32 ≡ s.count + 1 = omega (arith, v.units, small) in
      rw e (record {
        mutex =
            IsLock-keep has_mutex s.pc i s.locked _
              (update_same has_mutex s.pc i post_inc post_unlock at refl) v.mutex;
        lock =
            IsLock-keep has_table s.pc i s.table _
              (update_same has_table s.pc i post_inc post_unlock at refl) v.lock;
        counted =
            Counted-post i post_inc post_unlock s.pc at s.count (has-IsLock post_inc at refl) refl
              refl refl refl;
        units = omega (arith, v.units);
      })

  Sound-signal :
      s.pc i ≡ post_signal
      → s.table ≡ false
      → IsSound n (goto i outside (record s { pc = λ j. woken (s.pc j) }))
  Sound-signal at f = record {
    mutex =
        IsLock-keep has_mutex (λ j. woken (s.pc j)) i s.locked _
          (update_same has_mutex (λ j. woken (s.pc j)) i post_signal outside (ap woken at) refl)
          (IsLock-keep has_mutex s.pc i s.locked _ (λ j. woken_mutex (s.pc j)) v.mutex);
    lock =
        IsLock-keep has_table (λ j. woken (s.pc j)) i s.table _
          (update_same has_table (λ j. woken (s.pc j)) i post_signal outside (ap woken at) refl)
          (IsLock-keep has_table s.pc i s.table _ (λ j. woken_lock (s.pc j)) v.lock);
    counted =
        Counted-signal i s.count s.pc v.counted (subst (λ b. IsLock has_table b s.pc) f v.lock);
    units = v.units;
  }

step_at-Sounds :
    (n : ℕ) (waits : Bool) (i : ℕ) (c : Pc) (s : Sem)
    → IsSound n s
    → s.pc i ≡ c
    → Sounds n (step_at waits i c s)
unfolding step_at
step_at-Sounds n true i outside s v at = λ bd.
    Sound-move n i s outside wait_lock v at refl refl
      (Counted-plain n i s outside wait_lock v at refl refl refl refl)
step_at-Sounds n false i outside s v at = λ bd.
    Sound-move n i s outside post_lock v at refl refl
      (Counted-plain n i s outside post_lock v at refl refl refl refl)
step_at-Sounds n w i wait_lock s v at = Sounds-if n s.locked _ (λ f bd.
    Sound-lock n i s wait_lock wait_test v at f refl refl
      (Counted-plain n i s wait_lock wait_test v at refl refl refl refl))
step_at-Sounds n w i wait_test s v at = λ bd. Sound-test n i s v at
step_at-Sounds n w i wait_acquire s v at = Sounds-if n s.table _ (λ f bd.
    Sound-acquire n i s wait_acquire wait_unlock v at f refl refl (
      let k = v.counted in
      Counted-move i wait_acquire wait_unlock s.pc at s.count v.counted
        (λ h. k.found_zero i (ap decided at)) (λ h. never h) (λ h. never h) (λ h. never h)))
step_at-Sounds n w i wait_unlock s v at = λ bd.
    Sound-unlock n i s wait_unlock wait_mark v at refl refl refl (
      Counted-move i wait_unlock wait_mark s.pc at s.count v.counted (λ h. never h) (λ h. never h)
        (λ h. inl refl) (λ h. never h))
step_at-Sounds n w i wait_mark s v at = λ bd.
    Sound-release n i s wait_mark asleep v at refl refl refl (
      Counted-move i wait_mark asleep s.pc at s.count v.counted (λ h. never h) (λ h. never h)
        (λ h. inr refl) (λ h. never h))
step_at-Sounds n w i asleep s v at = tt
step_at-Sounds n w i awake s v at = Sounds-if n s.table _ (λ f bd.
    Sound-acquire n i s awake wait_tidy v at f refl refl
      (Counted-plain n i s awake wait_tidy v at refl refl refl refl))
step_at-Sounds n w i wait_tidy s v at = λ bd.
    Sound-release n i s wait_tidy wait_relock v at refl refl refl
      (Counted-plain n i s wait_tidy wait_relock v at refl refl refl refl)
step_at-Sounds n w i wait_relock s v at = Sounds-if n s.locked _ (λ f bd.
    Sound-lock n i s wait_relock wait_test v at f refl refl
      (Counted-plain n i s wait_relock wait_test v at refl refl refl refl))
step_at-Sounds n w i wait_take s v at = λ bd. Sound-take n i s v at bd
step_at-Sounds n w i wait_done s v at = λ bd.
    Sound-unlock n i s wait_done outside v at refl refl refl
      (Counted-plain n i s wait_done outside v at refl refl refl refl)
step_at-Sounds n w i post_lock s v at = Sounds-if n s.locked _ (λ f bd.
    Sound-lock n i s post_lock post_inc v at f refl refl
      (Counted-plain n i s post_lock post_inc v at refl refl refl refl))
step_at-Sounds n w i post_inc s v at = λ bd. Sound-inc n i s v at bd
step_at-Sounds n w i post_unlock s v at = λ bd.
    Sound-unlock n i s post_unlock post_signal v at refl refl refl (
      Counted-move i post_unlock post_signal s.pc at s.count v.counted (λ h. never h) (λ h. never h)
        (λ h. never h) (λ h. refl))
step_at-Sounds n w i post_signal s v at = Sounds-if n s.table _ (λ f bd. Sound-signal n i s v at f)

-- `posted` does not go down.
abbrev IsLater : Sem → Option Sem → Type 0
IsLater s none = Unit
IsLater s (some s') = s.posted ≤ s'.posted

IsLater-if :
    (b : Bool) (s s' : Sem) → s.posted ≤ s'.posted → IsLater s (if b then none else some s')
IsLater-if true s s' h = tt
IsLater-if false s s' h = h

step_at-IsLater : (waits : Bool) (i : ℕ) (c : Pc) (s : Sem) → IsLater s (step_at waits i c s)
unfolding step_at
step_at-IsLater w i outside s = omega arith
step_at-IsLater w i wait_lock s = IsLater-if s.locked s _ (omega arith)
step_at-IsLater w i wait_test s = omega arith
step_at-IsLater w i wait_acquire s = IsLater-if s.table s _ (omega arith)
step_at-IsLater w i wait_unlock s = omega arith
step_at-IsLater w i wait_mark s = omega arith
step_at-IsLater w i asleep s = tt
step_at-IsLater w i awake s = IsLater-if s.table s _ (omega arith)
step_at-IsLater w i wait_tidy s = omega arith
step_at-IsLater w i wait_relock s = IsLater-if s.locked s _ (omega arith)
step_at-IsLater w i wait_take s = omega arith
step_at-IsLater w i wait_done s = omega arith
step_at-IsLater w i post_lock s = IsLater-if s.locked s _ (omega arith)
step_at-IsLater w i post_inc s = omega arith
step_at-IsLater w i post_unlock s = omega arith
step_at-IsLater w i post_signal s = IsLater-if s.table s _ (omega arith)

-- In every state that any number of threads reach from `sem_init n` by steps of `sem_wait` and
-- `sem_post`, while `n` and the units posted are below 2 ^ 32 in sum: at most one thread is where it
-- has the mutex and at most one where it has `ptable.lock`, and the locks are taken exactly then; the
-- count and the units taken make up `n` and the units posted, and a thread about to take one finds the
-- count positive; and no wake-up is lost: where a thread sleeps or is about to, the count is 0 or some
-- thread has counted up and will signal.
pub Reach-IsSound : (n : ℕ) (s : Sem) → Reach n s → n + s.posted < 2 ^ 32 → IsSound n s
Reach-IsSound n s start small = sem_init-IsSound n (omega (arith, small))
Reach-IsSound n s (next t s' waits i r e) small =
    let later = subst (IsLater t) e (step_at-IsLater waits i (t.pc i) t) in
    let v = Reach-IsSound n t r (omega (arith, small, later)) in
    subst (Sounds n) e (step_at-Sounds n waits i (t.pc i) t v refl) small

-- ===== src/Sem.antt =====
-- xv6-public/thread_lock_impl.h: semaphores of threads, over `thread_sleep` and `thread_wakeup` of
-- xv6-public/proc.c.
-- A thread stands at a point of `sem_wait` or `sem_post`, and a step takes it to the next, where the
-- code between the two is under a lock or is one access of shared memory. `thread_mutex_lock` and
-- `mutex_lock`, which try `xchg` again and again, have a step only when the mutex is free, and so has
-- `acquire`. `taken` and `posted` count what the threads have done and are not read.
pub mod Locks
pub mod Wakeups
pub mod Moves
pub mod Steps
pub mod Progress
use basic_os.Prelude.{
  ℕ, ◌+◌, ◌-◌, ◌%◌, ◌^◌, ◌≡◌, Bool, true, false, Option, none, some, ◌==◌, if◌then◌else◌, update,
}

-- Points of `sem_wait`: before `thread_mutex_lock`, before the test of the loop, before the `acquire`,
-- the `mutex_unlock` and the sleep of `thread_sleep`, asleep, woken, before the `release` and the
-- `mutex_lock` that follow, before `count--` and before the last unlock; and of `sem_post`: before
-- `thread_mutex_lock`, before `count++`, before `thread_mutex_unlock` and before `thread_cond_signal`.
pub data Pc : Type 0 where
  outside : Pc
  wait_lock wait_test wait_acquire wait_unlock wait_mark asleep awake wait_tidy wait_relock : Pc
  wait_take wait_done : Pc
  post_lock post_inc post_unlock post_signal : Pc

-- `count`, an `int` as its 32 bits, and `m.locked` of the semaphore, whether `ptable.lock` is held, and the threads
pub record Sem : Type 0 where
  pub count : ℕ
  pub locked : Bool
  pub table : Bool
  pub pc : ℕ → Pc
  pub taken : ℕ
  pub posted : ℕ

-- `sem_init`
abbrev pub sem_init : ℕ → Sem
sem_init n = record {
  count = n % 2 ^ 32;
  locked = false;
  table = false;
  pc = λ i. outside;
  taken = 0;
  posted = 0;
}

abbrev pub goto : ℕ → Pc → Sem → Sem
goto i c s = record s { pc = update s.pc i c }

-- `wakeup1` of the condition's channel, on which only threads in `sem_wait` sleep
abbrev pub woken : Pc → Pc
woken asleep = awake
woken c = c

-- The step of thread `i` from a point; `waits` is what it calls when it stands outside.
unfoldable pub step_at : Bool → ℕ → Pc → Sem → Option Sem
step_at waits i outside s = some (goto i (if waits then wait_lock else post_lock) s)
step_at waits i wait_lock s =
    if s.locked then none else some (goto i wait_test (record s { locked = true }))
step_at waits i wait_test s = some (goto i (if s.count == 0 then wait_acquire else wait_take) s)
step_at waits i wait_acquire s =
    if s.table then none else some (goto i wait_unlock (record s { table = true }))
step_at waits i wait_unlock s = some (goto i wait_mark (record s { locked = false }))
step_at waits i wait_mark s = some (goto i asleep (record s { table = false }))
step_at waits i asleep s = none
step_at waits i awake s =
    if s.table then none else some (goto i wait_tidy (record s { table = true }))
step_at waits i wait_tidy s = some (goto i wait_relock (record s { table = false }))
step_at waits i wait_relock s =
    if s.locked then none else some (goto i wait_test (record s { locked = true }))
step_at waits i wait_take s =
    some
      (goto i wait_done (record s { count = (s.count + 2 ^ 32 - 1) % 2 ^ 32; taken = s.taken + 1 }))
step_at waits i wait_done s = some (goto i outside (record s { locked = false }))
step_at waits i post_lock s =
    if s.locked then none else some (goto i post_inc (record s { locked = true }))
step_at waits i post_inc s =
    some (goto i post_unlock (record s { count = (s.count + 1) % 2 ^ 32; posted = s.posted + 1 }))
step_at waits i post_unlock s = some (goto i post_signal (record s { locked = false }))
step_at waits i post_signal s =
    if s.table then none else some (goto i outside (record s { pc = λ j. woken (s.pc j) }))

abbrev pub step : Bool → ℕ → Sem → Option Sem
step waits i s = step_at waits i (s.pc i) s

-- What any number of threads can do, from `sem_init` on
pub data Reach (n : ℕ) : Sem → Type 0 where
  start : Reach n (sem_init n)
  next : (s s' : Sem) (waits : Bool) (i : ℕ) → Reach n s → step waits i s ≡ some s' → Reach n s'

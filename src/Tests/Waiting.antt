-- ===== src/Tests/Waiting.antt =====
-- The theorems on the scheduler and on semaphores at small states.
use basic_os.Prelude.{ℕ, ◌≡◌, refl, ap, ◌∙◌, arith, true, false, none, some, List, [], ◌∷◌, has}
use basic_os.Proc.{Proc, running, runnable, no_chan, other_chan, wakeup1}
use basic_os.Proc.Table.{modify_ne}
use basic_os.Proc.Sched.{pass, sleep, yield, is_runnable, IsFair, pass-sleep}
use basic_os.Sem.{Sem, sem_init, goto, wait_lock, step_at, step, Reach, start, next}
use basic_os.Sem.Wakeups.{IsSound}
use basic_os.Sem.Steps.{Reach-IsSound}
use basic_os.Sem.Progress.{inside, Reach-step}

abbrev shell : Proc
shell = record {
  sz = 8192;
  pgdir = 4096;
  kstack = 12288;
  state = running;
  pid = 2;
  parent = none;
  chan = no_chan;
  killed = false;
  isthread = false;
}

abbrev two : List Proc
two = record shell { pid = 1; state = runnable } ∷ shell ∷ []

-- Processes that do nothing but `yield`
yield-IsFair : IsFair yield
unfolding yield
yield-IsFair i j ps ne h =
    ap is_runnable (modify_ne i j (λ p. record p { state = runnable }) ps ne) ∙ h

pass-sleep_example :
    (has 1 (pass yield 2 0 (wakeup1 (other_chan 7) (sleep (other_chan 7) 1 two))).0 ≡ true)
    × (has 1 (pass yield 2 0 (wakeup1 (other_chan 7) (yield 1 two))).0 ≡ true)
pass-sleep_example = pass-sleep yield yield-IsFair (other_chan 7) two 1 refl (omega arith)

-- Thread 0 has called `sem_wait` on a semaphore of 1.
abbrev called : Sem
called = goto 0 wait_lock (sem_init 1)

called_reached : Reach 1 called
unfolding step_at
called_reached = next (sem_init 1) called true 0 start refl

Reach-IsSound_example : IsSound 1 called
Reach-IsSound_example = Reach-IsSound 1 called called_reached (omega arith)

Reach-step_example :
    (j : ℕ) × (inside (called.pc j) ≡ true) × ((s' : Sem) × (step true j called ≡ some s'))
Reach-step_example = Reach-step 1 called 0 called_reached (omega arith) (omega arith) refl

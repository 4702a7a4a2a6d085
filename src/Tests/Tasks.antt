-- ===== src/Tests/Tasks.antt =====
-- The theorems on processes, files, locks, system calls and the console at small states.
use basic_os.Prelude.{
  ℕ, zero, suc, ◌+◌, ◌*◌, ◌≤◌, ◌<◌, ◌≡◌, ◌≢◌, refl, ◌⊎◌, arith, true, false, none, some, [], ◌∷◌,
  get_elem?, if◌then◌else◌,
}
use basic_os.Proc.{
  Proc, Ptable, running, zombie, unused, no_chan, fork, wait_scan, wait_at, thread_join, exit,
  thread_exit, set_size,
}
use basic_os.Proc.Fork.{CreateMeans, forked, fork_lem}
use basic_os.Proc.Exit.{Exited, exit_lem}
use basic_os.Proc.Wakeup.{set_size_lem}
use basic_os.Proc.Threads.{Unwaited, thread_join-fork}
use basic_os.File.{File, fd_pipe, Closing, nothing, Files, sys_close, argfd}
use basic_os.File.Counts.{sys_close-RefsCounted}
use basic_os.File.Holds.{RefsCounted, holds}
use basic_os.Syscall.{fetchint, argptr, argint}
use basic_os.Syscall.Safe.{argptr_lem}
use basic_os.Console.{Input}
use basic_os.Console.Lines.{IsInput}
use basic_os.Spinlock.{Cpu, Lock}
use basic_os.Sleeplock.{initsleeplock, acquiresleep}
use basic_os.Sleeplock.Exclusive.{Use, Reach, here, next, enters}
use basic_os.Spinlock.Nesting.{IsCpu}

-- A process in slot 0 with a thread in slot 1 that has exited.
abbrev parent : Proc
parent = record {
  sz = 8192;
  pgdir = 4096;
  kstack = 12288;
  state = running;
  pid = 3;
  parent = none;
  chan = no_chan;
  killed = false;
  isthread = false;
}

abbrev gone : Proc
gone = record parent { state = zombie; pid = 4; parent = some 0; isthread = true }

abbrev table : Ptable
table = record { procs = parent ∷ gone ∷ []; nextpid = 5 }

abbrev roomy : Ptable
roomy = record { procs = parent ∷ record gone { state = unused } ∷ []; nextpid = 5 }

fork_lem_example :
    CreateMeans roomy (forked 40960 45056 0 parent) (fork 40960 45056 0 parent roomy)
    × ((i : ℕ) (p : Proc)
        → get_elem? roomy.procs i ≡ some p
        → p.state ≡ unused
        → ◌≢◌ {A = ℕ} 40960 0
        → ◌≢◌ {A = ℕ} 45056 0
        → (j : ℕ) × ((fork 40960 45056 0 parent roomy).0 ≡ some j) × (j ≤ i))
fork_lem_example = fork_lem 40960 45056 0 parent roomy

exit_lem_example :
    (thread_exit 1 0 parent table ≡ exit 1 0 parent table)
    × (((◌≡◌ {A = ℕ} 0 1) × (exit 1 0 parent table ≡ none))
        ⊎ ((◌≢◌ {A = ℕ} 0 1)
            × (t' : Ptable) × (exit 1 0 parent table ≡ some t')
            × Exited 1 0 parent table t'))
exit_lem_example = exit_lem 1 0 parent table

set_size_lem_example :
    get_elem? (set_size 0 parent 16384 table.procs) 1 ≡ some (record gone { sz = 16384 })
set_size_lem_example = set_size_lem 0 parent 16384 table.procs 1 refl

thread_join-fork_example :
    Unwaited 4 table 0 (fork 40960 45056 0 parent (thread_join 0 parent table).1)
unfolding thread_join wait_scan wait_at
thread_join-fork_example =
    thread_join-fork 0 parent table 40960 45056 0 parent {pid = 4} refl refl (omega arith)
      (omega arith)

-- An open pipe with two descriptors.
abbrev shared : File
shared = record {
  type_of = fd_pipe;
  ref = 2;
  readable = true;
  writable = false;
  pipe = 8192;
  ip = 0;
  off = 0;
}

abbrev two_fds : Files
two_fds = record { files = shared ∷ []; ofile = some 0 ∷ some 0 ∷ none ∷ [] }

two_fds-RefsCounted : RefsCounted (λ i. 0) two_fds
two_fds-RefsCounted = record {
  counted = λ i {f} e. counted i f e;
  countable = λ i. omega arith;
  in_table = λ fd {i} e. in_table fd i e;
}
  where
    counted :
        (i : ℕ) (f : File) → get_elem? two_fds.files i ≡ some f → f.ref ≡ 0 + holds i two_fds.ofile
    counted zero f e = ground (arith, e)
    counted (suc i) f e = absurd (cc)

    in_table : (fd i : ℕ) → argfd fd two_fds.ofile ≡ some i → i < 1
    in_table zero i e = ground (arith, e)
    in_table (suc zero) i e = ground (arith, e)
    in_table (suc (suc zero)) i e = absurd (cc)
    in_table (suc (suc (suc fd))) i e = absurd (cc)

sys_close-RefsCounted_example :
    (after : Closing) × (s' : Files) × (sys_close 1 two_fds ≡ some (some after, s'))
    × RefsCounted (λ i. 0) s'
    × (s'.ofile ≡ some 0 ∷ none ∷ none ∷ [])
    × ((after ≡ nothing) ⊎ ((◌≡◌ {A = ℕ} 0 0) × (holds 0 s'.ofile ≡ 0)))
sys_close-RefsCounted_example = sys_close-RefsCounted (λ i. 0) 1 two_fds two_fds-RefsCounted refl

argptr_lem_example :
    (100 + 8092 ≤ 8192) × (100 < 8192) × (4096 + 4 + 4 * 1 + 4 ≤ 8192) × (◌≡◌ {A = ℕ} 100 100)
unfolding argptr argint fetchint
argptr_lem_example =
    argptr_lem 8192 (omega arith) (λ a. 100) (λ a. 0) 4096 1 8092 (λ a. omega arith) refl

-- Two characters, not yet ended by a newline.
abbrev typed : Input
typed = record { buf = λ i. if◌then◌else◌ false 0 97; r = 0; w = 0; e = 2 }

typed-IsInput : IsInput typed
typed-IsInput = record {
  r_small = omega arith;
  w_small = omega arith;
  e_small = omega arith;
  ordered = omega arith;
  fits = omega arith;
}

-- A processor with interrupts on that holds nothing.
abbrev idle_cpu : Cpu
idle_cpu = record { id = 1; interrupts = true; ncli = 0; intena = false }

idle_cpu-IsCpu : IsCpu idle_cpu
idle_cpu-IsCpu = record { off = λ ne. absurd (ne refl) }

abbrev free_lock : Lock
free_lock = record { locked = false; cpu = none }

-- The process with pid 7 has taken a fresh lock.
abbrev seven_inside : Use
seven_inside = record { lock = record { locked = true; pid = 7 }; inside = 7 ∷ [] }

seven_entered : Reach (record { lock = initsleeplock; inside = [] }) seven_inside
unfolding acquiresleep initsleeplock
seven_entered = next here (enters 7 refl refl)

-- Two characters that the reader may take.
abbrev two_ready : Input
two_ready = record typed { w = 2 }

two_ready-IsInput : IsInput two_ready
two_ready-IsInput = record {
  r_small = omega arith;
  w_small = omega arith;
  e_small = omega arith;
  ordered = omega arith;
  fits = omega arith;
}

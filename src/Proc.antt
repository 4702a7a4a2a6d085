-- ===== src/Proc.antt =====
-- xv6-public/proc.c: the process table, under `ptable.lock`.
-- A `struct proc *` is a slot of the table; a channel is the address of a process or of something else.
-- The trap frame, the context, the name, the open files and the directory of a process are left out.
-- `exit` and `thread_exit` are modelled from where they take `ptable.lock`: before that they close the
-- open files and drop the directory, by calls that may wake processes that sleep on a pipe or on the
-- log.
-- The results of `kalloc` and `copyuvm` are arguments, 0 where they fail.
pub mod Table
pub mod Wakeup
pub mod Fork
pub mod Wait
pub mod Threads
pub mod Exit
pub mod Sched
use basic_os.Prelude.{
  ℕ, zero, suc, ◌+◌, ◌-◌, ◌%◌, ◌^◌, Bool, true, false, not, ◌&&◌, ◌||◌, Option, none, some, List,
  [], ◌∷◌, ◌==◌, if◌then◌else◌, map, get_elem?, set,
}

pub data ProcState : Type 0 where
  unused embryo sleeping runnable running zombie : ProcState

abbrev pub same_state : ProcState → ProcState → Bool
same_state unused unused = true
same_state embryo embryo = true
same_state sleeping sleeping = true
same_state runnable runnable = true
same_state running running = true
same_state zombie zombie = true
same_state _ _ = false

pub data Chan : Type 0 where
  no_chan : Chan
  proc_chan : ℕ → Chan
  other_chan : ℕ → Chan

abbrev pub same_chan : Chan → Chan → Bool
same_chan no_chan no_chan = true
same_chan (proc_chan i) (proc_chan j) = i == j
same_chan (other_chan a) (other_chan b) = a == b
same_chan _ _ = false

-- A pointer to a process, or null.
abbrev pub same_slot : Option ℕ → Option ℕ → Bool
same_slot none none = true
same_slot (some i) (some j) = i == j
same_slot _ _ = false

pub record Proc : Type 0 where
  pub sz : ℕ
  pub pgdir : ℕ
  pub kstack : ℕ
  pub state : ProcState
  pub pid : ℕ
  pub parent : Option ℕ
  pub chan : Chan
  pub killed : Bool
  pub isthread : Bool

pub record Ptable : Type 0 where
  pub procs : List Proc
  pub nextpid : ℕ

-- A field assignment through a pointer.
abbrev pub modify : ℕ → (Proc → Proc) → List Proc → List Proc
modify i f [] = []
modify zero f (p ∷ ps) = f p ∷ ps
modify (suc i) f (p ∷ ps) = p ∷ modify i f ps

-- The first slot that passes a test, as by a loop that leaves at it.
abbrev pub find_slot : (Proc → Bool) → List Proc → Option ℕ
find_slot test [] = none
find_slot test (p ∷ ps) =
    if test p then some 0 else elim (find_slot test ps) [ none ↦ none | some i ↦ some (suc i) ]

abbrev pub any_proc : (Proc → Bool) → List Proc → Bool
any_proc test [] = false
any_proc test (p ∷ ps) = test p || any_proc test ps

-- `wakeup1`
pub wakeup1 : Chan → List Proc → List Proc
wakeup1 c = map λ p.
    if same_state p.state sleeping && same_chan p.chan c then record p { state = runnable } else p

-- `allocproc` past its loop, for the slot that the loop found. `kstack` is what `kalloc` returns. The
-- slot keeps whatever else it held.
pub alloc_at : ℕ → Ptable → Option ℕ → Option ℕ × Ptable
alloc_at kstack t none = (none, t)
alloc_at kstack t (some i) =
    let t' = record t {
      procs = modify i (λ p. record p { state = embryo; pid = t.nextpid }) t.procs;
      nextpid = (t.nextpid + 1) % 2 ^ 32;
    } in
    if kstack == 0
    then (
      none,
      record t' { procs = modify i (λ p. record p { state = unused; kstack = kstack }) t'.procs },
    )
    else (some i, record t' { procs = modify i (λ p. record p { kstack = kstack }) t'.procs })

pub allocproc : ℕ → Ptable → Option ℕ × Ptable
allocproc kstack t = alloc_at kstack t (find_slot (λ p. same_state p.state unused) t.procs)

-- `fork` past its call of `allocproc`, by the process `cur` in slot `c`: `pgdir` is what `copyuvm`
-- returns. The result is the child's slot, or none for -1.
pub fork_into : ℕ → ℕ → Proc → Option ℕ × Ptable → Option ℕ × Ptable
fork_into pgdir c cur (none, t) = (none, t)
fork_into pgdir c cur (some i, t) =
    if pgdir == 0
    then (
      none,
      record t {
        procs = modify i (λ p. record p { pgdir = pgdir; kstack = 0; state = unused }) t.procs;
      },
    )
    else (
      some i,
      record t {
        procs =
            modify i
              (λ p. record p { pgdir = pgdir; sz = cur.sz; parent = some c; state = runnable })
              t.procs;
      },
    )

pub fork : ℕ → ℕ → ℕ → Proc → Ptable → Option ℕ × Ptable
fork kstack pgdir c cur t = fork_into pgdir c cur (allocproc kstack t)

-- `thread_create` past its call of `allocproc`, by the process `cur` in slot `c`.
pub thread_into : ℕ → Proc → Option ℕ × Ptable → Option ℕ × Ptable
thread_into c cur (none, t) = (none, t)
thread_into c cur (some i, t) = (
  some i,
  record t {
    procs =
        modify i
          (λ p. record p {
            pgdir = cur.pgdir;
            sz = cur.sz;
            parent = some c;
            isthread = true;
            state = runnable;
          })
          t.procs;
  },
)

pub thread_create : ℕ → ℕ → Proc → Ptable → Option ℕ × Ptable
thread_create kstack c cur t = thread_into c cur (allocproc kstack t)

-- How one scan of the table by `wait` or `thread_join` ends.
pub data WaitEnd : Type 0 where
  reaped : ℕ → WaitEnd
  no_children : WaitEnd
  sleeps : WaitEnd

-- The children that `wait` and `thread_join` look at.
abbrev pub waits_for : Bool → ℕ → Proc → Bool
waits_for threads c p =
    (if threads then p.isthread else not p.isthread) && same_slot p.parent (some c)

-- What both do to the slot of a child that they found: `kstack` and, in `wait`, `pgdir` are freed.
abbrev pub cleared : Proc → Proc
cleared p = record p { kstack = 0; pid = 0; parent = none; killed = false; state = unused }

abbrev pub pid_at : ℕ → List Proc → ℕ
pid_at i ps = elim (get_elem? ps i) [ none ↦ 0 | some p ↦ p.pid ]

-- One scan by the process `cur` in slot `c`, for the zombie at which it leaves the loop; past the end
-- of the table it knows whether there are children at all.
unfoldable pub wait_at : Bool → ℕ → Proc → Ptable → Option ℕ → WaitEnd × Ptable
wait_at threads c cur t (some i) =
    (reaped (pid_at i t.procs), record t { procs = modify i cleared t.procs })
wait_at threads c cur t none =
    if not (any_proc (waits_for threads c) t.procs) || cur.killed then (no_children, t) else (
      sleeps,
      record t {
        procs = modify c (λ p. record p { chan = proc_chan c; state = sleeping }) t.procs;
      },
    )

unfoldable pub wait_scan : Bool → ℕ → Proc → Ptable → WaitEnd × Ptable
wait_scan threads c cur t =
    wait_at threads c cur t
      (find_slot (λ p. waits_for threads c p && same_state p.state zombie) t.procs)

pub wait : ℕ → Proc → Ptable → WaitEnd × Ptable
wait = wait_scan false

unfoldable pub thread_join : ℕ → Proc → Ptable → WaitEnd × Ptable
thread_join = wait_scan true

-- The part of `exit` under `ptable.lock`, for slot `c`; `init` is `initproc`.
-- Handing the children over and waking `init` for the zombies among them are two passes here:
-- `wakeup1` changes no parent and makes no zombie.
pub leave : ℕ → ℕ → Proc → Ptable → Ptable
leave init c cur t =
    let woken = wakeup1 (elim cur.parent [ none ↦ no_chan | some p ↦ proc_chan p ]) t.procs in
    let is_child = λ (p : Proc). same_slot p.parent (some c) in
    let adopted = map (λ p. if is_child p then record p { parent = some init } else p) woken in
    let told =
      if any_proc (λ p. is_child p && same_state p.state zombie) woken
      then wakeup1 (proc_chan init) adopted
      else adopted in
    record t { procs = modify c (λ p. record p { state = zombie }) told }

-- `exit` without the closing of the files and the dropping of the directory. `none` is the panic.
pub exit : ℕ → ℕ → Proc → Ptable → Option Ptable
exit init c cur t = if c == init then none else some (leave init c cur t)

-- `thread_exit` does the same under the lock.
pub thread_exit : ℕ → ℕ → Proc → Ptable → Option Ptable
thread_exit init c cur t = if c == init then none else some (leave init c cur t)

-- `kill`: whether there is such a process, and the table.
pub kill : ℕ → List Proc → Bool × List Proc
kill pid ps = elim (find_slot (λ p. p.pid == pid) ps) [
  | none ↦ (false, ps)
  | some i ↦ (
    true,
    modify i
        (λ p. record p {
          killed = true;
          state = if same_state p.state sleeping then runnable else p.state;
        })
        ps,
  )
]

-- The slots that `growproc` gives the new size of `cur`, which is in slot `c`.
abbrev pub shares_size : ℕ → Proc → Proc → Bool
shares_size c cur p = p.isthread && (same_slot p.parent cur.parent || same_slot p.parent (some c))

-- The end of `growproc`, once the memory of `cur` in slot `c` has its new size.
pub set_size : ℕ → Proc → ℕ → List Proc → List Proc
set_size c cur sz ps =
    let grown = modify c (λ p. record p { sz = sz }) ps in
    let parent_grown =
      if cur.isthread
      then elim cur.parent [ none ↦ grown | some q ↦ modify q (λ p. record p { sz = sz }) grown ]
      else grown in
    map (λ p. if shares_size c cur p then record p { sz = sz } else p) parent_grown

-- ===== src/Proc/Fork.antt =====
-- `allocproc`, `fork` and `thread_create` of proc.c: which slot they take, what they put into it, and
-- that they leave the others alone.
use basic_os.Prelude.{
  ℕ, zero, suc, ◌≤◌, List, [], ◌∷◌, ◌+◌, ◌%◌, ◌^◌, ◌≡◌, ◌≢◌, inl, inr, refl, sym, ap, ◌∙◌, arith,
  Bool, true, false, ◌==◌, Option, none, some, Bool-cases, get_elem?,
}
use basic_os.Proc.{
  Proc, Ptable, unused, embryo, runnable, same_state, find_slot, modify, allocproc, alloc_at,
  fork_into, thread_into, fork, thread_create,
}
use basic_os.Proc.Table.{Finds, find_slot-Finds, modify_self, modify_ne, modify-modify, slot_clash}

abbrev pub is_unused : Proc → Bool
is_unused p = same_state p.state unused

-- The child of `fork` in a slot that held `old`: what it inherits, and what the slot keeps.
abbrev pub forked : ℕ → ℕ → ℕ → Proc → ℕ → Proc → Proc
forked kstack pgdir c cur pid old = record {
  sz = cur.sz;
  pgdir = pgdir;
  kstack = kstack;
  state = runnable;
  pid = pid;
  parent = some c;
  chan = old.chan;
  killed = old.killed;
  isthread = old.isthread;
}

-- The thread that `thread_create` puts into the slot.
abbrev pub threaded : ℕ → ℕ → Proc → ℕ → Proc → Proc
threaded kstack c cur pid old = record (forked kstack cur.pgdir c cur pid old) { isthread = true }

-- What a new process means for the table: `new` makes it from what its slot held.
pub record Created (t t' : Ptable) (slot : ℕ) (new : Proc → Proc) : Type 0 where
  pub old : Proc
  pub was_there : get_elem? t.procs slot ≡ some old
  pub was_unused : is_unused old ≡ true
  pub now : get_elem? t'.procs slot ≡ some (new old)
  pub others : (j : ℕ) → slot ≢ j → get_elem? t'.procs j ≡ get_elem? t.procs j
  pub next : t'.nextpid ≡ (t.nextpid + 1) % 2 ^ 32

-- What a failure means: no process that is in use is changed, and none appears.
pub record Refused (t t' : Ptable) : Type 0 where
  pub others :
      (j : ℕ) (p : Proc)
      → get_elem? t.procs j ≡ some p
      → is_unused p ≡ false
      → get_elem? t'.procs j ≡ some p
  pub none_new :
      (j : ℕ) (p : Proc)
      → get_elem? t'.procs j ≡ some p
      → is_unused p ≡ false
      → get_elem? t.procs j ≡ some p

Created-modify :
    (t : Ptable) (i : ℕ) (old : Proc) (new : Proc → Proc) (f : Proc → Proc)
    → get_elem? t.procs i ≡ some old
    → is_unused old ≡ true
    → f old ≡ new old
    → Created t (record { procs = modify i f t.procs; nextpid = (t.nextpid + 1) % 2 ^ 32 }) i new
Created-modify t i old new f e u same = record {
  old = old;
  was_there = e;
  was_unused = u;
  now = modify_self i f t.procs e ∙ ap some same;
  others = λ j ne. modify_ne i j f t.procs ne;
  next = refl;
}

Refused-modify :
    (t : Ptable) (n i : ℕ) (old : Proc) (f : Proc → Proc)
    → get_elem? t.procs i ≡ some old
    → is_unused old ≡ true
    → is_unused (f old) ≡ true
    → Refused t (record { procs = modify i f t.procs; nextpid = n })
Refused-modify t n i old f e u u' = record {
  others = λ j p ej used. elim (Bool-cases (i == j)) [
    | inl same ↦ absurd (slot_clash is_unused t.procs i j same e ej u used)
    | inr other ↦ modify_ne i j f t.procs (ground arith) ∙ ej
  ];
  none_new = λ j p ej used. elim (Bool-cases (i == j)) [
    | inl same ↦
        absurd (
          slot_clash is_unused (modify i f t.procs) i j same (modify_self i f t.procs e) ej u' used)
    | inr other ↦ sym (modify_ne i j f t.procs (ground arith)) ∙ ej
  ];
}

Refused-refl : (t : Ptable) → Refused t t
Refused-refl t = record { others = λ j p e u. e; none_new = λ j p e u. e }

-- What the two outcomes of a call that makes a process mean.
abbrev pub CreateMeans : Ptable → (ℕ → Proc → Proc) → Option ℕ × Ptable → Type 0
CreateMeans t new (none, t') = Refused t t'
CreateMeans t new (some i, t') = Created t t' i (new t.nextpid)

-- A further assignment to the new process, and one that gives its slot back.
Created-after :
    (t t' : Ptable) (i : ℕ) (new f : Proc → Proc)
    → Created t t' i new
    → Created t (record t' { procs = modify i f t'.procs }) i (λ p. f (new p))
Created-after t t' i new f m = record {
  old = m.old;
  was_there = m.was_there;
  was_unused = m.was_unused;
  now = modify_self i f t'.procs m.now;
  others = λ j ne. modify_ne i j f t'.procs ne ∙ m.others j ne;
  next = m.next;
}

Refused-after :
    (t t' : Ptable) (i : ℕ) (new f : Proc → Proc)
    → (m : Created t t' i new) → is_unused (f (new m.old)) ≡ true
    → Refused t (record t' { procs = modify i f t'.procs })
Refused-after t t' i new f m u = record {
  others = λ j p ej used. elim (Bool-cases (i == j)) [
    | inl same ↦ absurd (slot_clash is_unused t.procs i j same m.was_there ej m.was_unused used)
    | inr other ↦ modify_ne i j f t'.procs (ground arith) ∙ m.others j (ground arith) ∙ ej
  ];
  none_new = λ j p ej used. elim (Bool-cases (i == j)) [
    | inl same ↦ absurd (
        slot_clash is_unused (modify i f t'.procs) i j same (modify_self i f t'.procs m.now) ej u
          used)
    | inr other ↦ sym (modify_ne i j f t'.procs (ground arith) ∙ m.others j (ground arith)) ∙ ej
  ];
}

-- `allocproc`: the slot and what it is given.
allocated : ℕ → ℕ → Proc → Proc
allocated kstack pid old = record old { state = embryo; pid = pid; kstack = kstack }

alloc_at_lem :
    (kstack : ℕ) (t : Ptable) (r : Option ℕ)
    → Finds is_unused t.procs r
    → CreateMeans t (allocated kstack) (alloc_at kstack t r)
unfolding alloc_at allocated
alloc_at_lem kstack t none f = Refused-refl t
alloc_at_lem kstack t (some i) (old, e, u) = elim (Bool-cases (kstack == 0)) [
  | inl no_stack ↦ rw no_stack (rw modify-modify (Refused-modify t _ i old _ e u refl))
  | inr stack ↦
      rw stack (rw modify-modify (Created-modify t i old (allocated kstack t.nextpid) _ e u refl))
]

fork_into_lem :
    (kstack pgdir c : ℕ) (cur : Proc) (t : Ptable) (r : Option ℕ × Ptable)
    → CreateMeans t (allocated kstack) r
    → CreateMeans t (forked kstack pgdir c cur) (fork_into pgdir c cur r)
unfolding fork_into allocated
fork_into_lem kstack pgdir c cur t (none, t') m = m
fork_into_lem kstack pgdir c cur t (some i, t') m = elim (Bool-cases (pgdir == 0)) [
  | inl no_memory ↦ rw no_memory (Refused-after t t' i (allocated kstack t.nextpid) _ m refl)
  | inr memory ↦ rw memory (Created-after t t' i (allocated kstack t.nextpid) _ m)
]

find_slot-free :
    (test : Proc → Bool) (ps : List Proc) (i : ℕ) {p : Proc}
    → get_elem? ps i ≡ some p
    → test p ≡ true
    → (j : ℕ) × (find_slot test ps ≡ some j) × (j ≤ i)
find_slot-free test [] i e h = absurd (cc)
find_slot-free test (q ∷ ps) zero {p} e h =
    let qp : q ≡ p = ground (arith, e) in (0, rw (qp, h) refl, omega arith)
find_slot-free test (q ∷ ps) (suc i) e h =
    let (j, found, le) = find_slot-free test ps i e h in
    elim (Bool-cases (test q)) [
      | inl here ↦ (0, rw here refl, omega arith)
      | inr there ↦ (suc j, rw (there, found) refl, omega (arith, le))
    ]

-- With memory left, `fork` takes the first free slot.
pub fork_takes :
    (kstack pgdir c : ℕ) (cur : Proc) (t : Ptable) {i : ℕ}
    → find_slot is_unused t.procs ≡ some i
    → kstack ≢ 0
    → pgdir ≢ 0
    → (fork kstack pgdir c cur t).0 ≡ some i
unfolding fork allocproc alloc_at fork_into
fork_takes kstack pgdir c cur t found stack memory = ground (arith, found)

pub fork-CreateMeans :
    (kstack pgdir c : ℕ) (cur : Proc) (t : Ptable)
    → CreateMeans t (forked kstack pgdir c cur) (fork kstack pgdir c cur t)
unfolding fork allocproc
fork-CreateMeans kstack pgdir c cur t =
    fork_into_lem kstack pgdir c cur t (alloc_at kstack t (find_slot is_unused t.procs))
      (alloc_at_lem kstack t (find_slot is_unused t.procs) (find_slot-Finds is_unused t.procs))

-- If `fork` returns a slot, then it was free and holds the child now: a new pid, the memory size of the
-- parent, the parent's slot, and the given page table and kernel stack; the `chan`, `killed` and
-- `isthread` of the slot stay, and no other slot is changed. If it fails, no process in use is changed
-- and none appears. If there is a free slot, and both the kernel stack and the page table could be
-- allocated, then it does not fail, and takes that slot or one before it.
pub fork_lem :
    (kstack pgdir c : ℕ) (cur : Proc) (t : Ptable)
    → CreateMeans t (forked kstack pgdir c cur) (fork kstack pgdir c cur t)
      × ((i : ℕ) (p : Proc)
          → get_elem? t.procs i ≡ some p
          → p.state ≡ unused
          → kstack ≢ 0
          → pgdir ≢ 0
          → (j : ℕ) × ((fork kstack pgdir c cur t).0 ≡ some j) × (j ≤ i))
fork_lem kstack pgdir c cur t = (
  fork-CreateMeans kstack pgdir c cur t,
  λ i p e free stack memory.
      let (j, found, le) =
        find_slot-free is_unused t.procs i e (ap (λ st. same_state st unused) free) in
      (j, fork_takes kstack pgdir c cur t found stack memory, le),
)

thread_into_lem :
    (kstack c : ℕ) (cur : Proc) (t : Ptable) (r : Option ℕ × Ptable)
    → CreateMeans t (allocated kstack) r
    → CreateMeans t (threaded kstack c cur) (thread_into c cur r)
unfolding thread_into allocated
thread_into_lem kstack c cur t (none, t') m = m
thread_into_lem kstack c cur t (some i, t') m =
    Created-after t t' i (allocated kstack t.nextpid) _ m

-- `thread_create` puts a thread that shares the page table of its creator into a free slot, in the
-- same way.
pub thread_create_lem :
    (kstack c : ℕ) (cur : Proc) (t : Ptable)
    → CreateMeans t (threaded kstack c cur) (thread_create kstack c cur t)
unfolding thread_create allocproc
thread_create_lem kstack c cur t =
    thread_into_lem kstack c cur t (alloc_at kstack t (find_slot is_unused t.procs))
      (alloc_at_lem kstack t (find_slot is_unused t.procs) (find_slot-Finds is_unused t.procs))

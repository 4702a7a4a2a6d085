-- ===== src/Proc/Threads.antt =====
-- Threads and processes in the slots of proc.c: what `thread_join` leaves in a slot shows in the next
-- child that `fork` puts there, and growing a process reaches the threads of its parent.
use basic_os.Prelude.{
  ℕ, ◌≡◌, ◌≢◌, inl, inr, refl, sym, ap, ◌∙◌, arith, true, false, ◌==◌, Option, none, some,
  Bool-cases, Option-cases, get_elem?,
}
use mathlib.Core.Path.{subst}
use basic_os.Proc.{
  Proc, Ptable, runnable, zombie, find_slot, WaitEnd, reaped, no_children, sleeps, waits_for, fork,
  thread_join, wait_scan,
}
use basic_os.Proc.Table.{Finds, find_slot-Finds}
use basic_os.Proc.Fork.{is_unused, forked, CreateMeans, fork-CreateMeans, fork_takes}
use basic_os.Proc.Wait.{left, Reaped, WaitMeans, wait_scan_lem}

-- The child of `fork` is a thread exactly if the slot that it takes last held one.
pub fork-isthread :
    (kstack pgdir c : ℕ) (cur : Proc) (t : Ptable) {i : ℕ} (old : Proc)
    → find_slot is_unused t.procs ≡ some i
    → get_elem? t.procs i ≡ some old
    → kstack ≢ 0
    → pgdir ≢ 0
    → (p : Proc) × (get_elem? (fork kstack pgdir c cur t).1.procs i ≡ some p)
      × (p.state ≡ runnable)
      × (p.parent ≡ some c)
      × (p.isthread ≡ old.isthread)
fork-isthread kstack pgdir c cur t {i} old found e stack memory =
    from (fork kstack pgdir c cur t) (fork-CreateMeans kstack pgdir c cur t)
      (fork_takes kstack pgdir c cur t found stack memory)
  where
    from :
        (r : Option ℕ × Ptable)
        → CreateMeans t (forked kstack pgdir c cur) r
        → r.0 ≡ some i
        → (p : Proc) × (get_elem? r.1.procs i ≡ some p)
          × (p.state ≡ runnable)
          × (p.parent ≡ some c)
          × (p.isthread ≡ old.isthread)
    from (none, t') m h = absurd (cc)
    from (some j, t') m h =
        let ji : j ≡ i = cc in
        let there : get_elem? t.procs i ≡ some m.old =
          subst (λ k. get_elem? t.procs k ≡ some m.old) ji m.was_there in
        let same : m.old ≡ old = cc in
        (
          forked kstack pgdir c cur t.nextpid m.old,
          subst (λ k. get_elem? t'.procs k ≡ some (forked kstack pgdir c cur t.nextpid m.old)) ji
              m.now,
          refl,
          refl,
          ap (λ q. q.isthread) same,
        )

true-false : true ≡ false → ⊥
true-false e = absurd (cc)

-- With no other free slot, a slot that `thread_join` has cleared is the one that the next search finds.
freed_slot :
    (c pid : ℕ) (cur : Proc) (t t' : Ptable)
    → (m : Reaped true c cur t pid t') → find_slot is_unused t.procs ≡ none
    → find_slot is_unused t'.procs ≡ some m.slot
freed_slot c pid cur t t' m full = elim (Option-cases (find_slot is_unused t'.procs)) [
  | inl missing ↦
      let f = subst (Finds is_unused t'.procs) missing (find_slot-Finds is_unused t'.procs) in
      absurd (true-false (f m.slot (left m.child) m.now))
  | inr (k, found) ↦
      let (q, e, h) = subst (Finds is_unused t'.procs) found (find_slot-Finds is_unused t'.procs) in
      let g = subst (Finds is_unused t.procs) full (find_slot-Finds is_unused t.procs) in
      elim (Bool-cases (m.slot == k)) [
        | inl same ↦ found ∙ ground arith
        | inr other ↦ absurd (true-false (sym h ∙ g k q (sym (m.others k (ground arith)) ∙ e)))
      ]
]

-- Thread `pid` was in a slot of `t`, and `r`, what `fork` by the process in slot `d` returns, is that same
-- slot with a runnable child of `d` in it that is marked as a thread, which `wait` by `d` passes over.
abbrev pub Unwaited : ℕ → Ptable → ℕ → Option ℕ × Ptable → Type 0
Unwaited pid t d r =
    (slot : ℕ) × (old : Proc) × (get_elem? t.procs slot ≡ some old)
    × (old.pid ≡ pid)
    × (old.isthread ≡ true)
    × (old.state ≡ zombie)
    × (r.0 ≡ some slot)
    × (p : Proc) × (get_elem? r.1.procs slot ≡ some p)
    × (p.state ≡ runnable)
    × (p.parent ≡ some d)
    × (p.isthread ≡ true)
    × (waits_for false d p ≡ false)

-- `thread_join` that reaps a thread leaves its slot marked as a thread's: if there was no other free
-- slot, the next `fork`, with memory left, returns the slot of that thread, with a runnable child in it
-- that is marked as a thread, and the `wait` of the process that forked it passes over it.
pub thread_join-fork :
    (c : ℕ) (cur : Proc) (t : Ptable) (kstack pgdir d : ℕ) (parent : Proc) {pid : ℕ}
    → (thread_join c cur t).0 ≡ reaped pid
    → find_slot is_unused t.procs ≡ none
    → kstack ≢ 0
    → pgdir ≢ 0
    → Unwaited pid t d (fork kstack pgdir d parent (thread_join c cur t).1)
unfolding thread_join
thread_join-fork c cur t kstack pgdir d parent {pid} joined full stack memory =
    from (wait_scan true c cur t) (wait_scan_lem true c cur t) joined
  where
    from :
        (r : WaitEnd × Ptable)
        → WaitMeans true c cur t r
        → r.0 ≡ reaped pid
        → Unwaited pid t d (fork kstack pgdir d parent r.1)
    from (reaped n, t') m h =
        let found = freed_slot c n cur t t' m full in
        let (p, e, run, pa, th) =
          fork-isthread kstack pgdir d parent t' (left m.child) found m.now stack memory in
        let thread : p.isthread ≡ true = th ∙ m.was_child.0 in
        (
          m.slot,
          m.child,
          m.was_there,
          ground (arith, m.pid_eq, h),
          m.was_child.0,
          m.was_zombie,
          fork_takes kstack pgdir d parent t' found stack memory,
          p,
          e,
          run,
          pa,
          thread,
          ground (arith, thread),
        )
    from (no_children, t') m h = absurd (cc)
    from (sleeps, t') m h = absurd (cc)

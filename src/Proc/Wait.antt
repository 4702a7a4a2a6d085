-- ===== src/Proc/Wait.antt =====
-- `wait` and `thread_join` of proc.c: they reap one zombie child, and tell apart having no child from
-- having to sleep.
use basic_os.Prelude.{
  ℕ, suc, ap, List, [], ◌∷◌, ◌≡◌, ◌≢◌, ◌⊎◌, inl, inr, refl, arith, Bool, true, false, not, ◌&&◌,
  ◌||◌, Option, none, some, Bool-cases, get_elem?,
}
use basic_os.Proc.{
  Proc, Ptable, ProcState, unused, embryo, runnable, running, same_slot, sleeping, zombie,
  same_state, proc_chan, find_slot, modify, any_proc, WaitEnd, reaped, no_children, sleeps,
  waits_for, cleared, wait_at, wait_scan,
}
use basic_os.Proc.Table.{Finds, find_slot-Finds, modify_self, modify_ne, any_proc-none}

-- A child that the process in slot `c` may wait for: no thread, or, for `thread_join`, a thread.
abbrev pub IsChild : Bool → ℕ → Proc → Type 0
IsChild threads c p = (p.isthread ≡ threads) × (p.parent ≡ some c)

-- A slot after its process or thread has been reaped.
abbrev pub left : Proc → Proc
left p = record {
  sz = p.sz;
  pgdir = p.pgdir;
  kstack = 0;
  state = unused;
  pid = 0;
  parent = none;
  chan = p.chan;
  killed = false;
  isthread = p.isthread;
}

same_slot-some : (o : Option ℕ) (c : ℕ) → same_slot o (some c) ≡ true → o ≡ some c
same_slot-some none c h = absurd (cc)
same_slot-some (some i) c h = ap some (ground (arith, h))

same_state-zombie : (st : ProcState) → same_state st zombie ≡ true → st ≡ zombie
same_state-zombie unused h = absurd (cc)
same_state-zombie embryo h = absurd (cc)
same_state-zombie sleeping h = absurd (cc)
same_state-zombie runnable h = absurd (cc)
same_state-zombie running h = absurd (cc)
same_state-zombie zombie h = refl

waits_for-IsChild :
    (threads : Bool) (c : ℕ) (p : Proc) → waits_for threads c p ≡ true → IsChild threads c p
waits_for-IsChild true c p h = (ground (arith, h), same_slot-some p.parent c (ground (arith, h)))
waits_for-IsChild false c p h = (ground (arith, h), same_slot-some p.parent c (ground (arith, h)))

IsChild-waits_for :
    (threads : Bool) (c : ℕ) (p : Proc) → IsChild threads c p → waits_for threads c p ≡ true
IsChild-waits_for true c p (th, pa) = rw (th, pa) (ground arith)
IsChild-waits_for false c p (th, pa) = rw (th, pa) (ground arith)

abbrev is_ready : Bool → ℕ → Proc → Bool
is_ready threads c p = waits_for threads c p && same_state p.state zombie

any_proc-some :
    (test : Proc → Bool) (ps : List Proc)
    → any_proc test ps ≡ true
    → (i : ℕ) × (p : Proc) × (get_elem? ps i ≡ some p) × (test p ≡ true)
any_proc-some test [] h = absurd (cc)
any_proc-some test (p ∷ ps) h = elim (Bool-cases (test p)) [
  | inl here ↦ (0, p, refl, here)
  | inr there ↦
      let (i, q, e, k) = any_proc-some test ps (ground (arith, h, there)) in (suc i, q, e, k)
]

module _ (threads : Bool) (c : ℕ) (cur : Proc) (t : Ptable) where
  -- No child has exited.
  abbrev pub NoneReady : Type 0
  NoneReady =
      (i : ℕ) (p : Proc) → get_elem? t.procs i ≡ some p → IsChild threads c p → p.state ≢ zombie

  pub record Reaped (pid : ℕ) (t' : Ptable) : Type 0 where
    pub slot : ℕ
    pub child : Proc
    pub was_there : get_elem? t.procs slot ≡ some child
    pub was_child : IsChild threads c child
    pub was_zombie : child.state ≡ zombie
    pub pid_eq : pid ≡ child.pid
    pub now : get_elem? t'.procs slot ≡ some (left child)
    pub others : (j : ℕ) → slot ≢ j → get_elem? t'.procs j ≡ get_elem? t.procs j

  -- What each end of a scan means.
  abbrev pub WaitMeans : WaitEnd × Ptable → Type 0
  WaitMeans (reaped pid, t') = Reaped pid t'
  WaitMeans (no_children, t') =
      (t' ≡ t)
      × NoneReady
      × (((i : ℕ) (p : Proc) → get_elem? t.procs i ≡ some p → IsChild threads c p → ⊥)
          ⊎ (cur.killed ≡ true))
  WaitMeans (sleeps, t') =
      NoneReady
      × ((i : ℕ) × (p : Proc) × (get_elem? t.procs i ≡ some p) × IsChild threads c p)
      × (cur.killed ≡ false)
      × (t'.procs ≡ modify c (λ p. record p { chan = proc_chan c; state = sleeping }) t.procs)

  none_ready :
      ((i : ℕ) (p : Proc) → get_elem? t.procs i ≡ some p → is_ready threads c p ≡ false) → NoneReady
  none_ready f i p e child dead =
      clash (is_ready threads c p) (f i p e) (rw (IsChild-waits_for threads c p child, dead) refl)
    where
      clash : (b : Bool) → b ≡ false → b ≡ true → ⊥
      clash b n y = absurd (cc)

  wait_at_lem :
      (r : Option ℕ) → Finds (is_ready threads c) t.procs r → WaitMeans (wait_at threads c cur t r)
  unfolding wait_at
  wait_at_lem (some i) (p, e, h) = record {
    slot = i;
    child = p;
    was_there = e;
    was_child = waits_for-IsChild threads c p (ground (arith, h));
    was_zombie = same_state-zombie p.state (ground (arith, h));
    pid_eq = ground (arith, e);
    now = modify_self i cleared t.procs e;
    others = λ j ne. modify_ne i j cleared t.procs ne;
  }
  wait_at_lem none f =
      elim (Bool-cases (not (any_proc (waits_for threads c) t.procs) || cur.killed)) [
        | inl stop ↦ rw stop (refl, none_ready f, why stop)
        | inr go ↦ rw go (none_ready f, some_child (ground (arith, go)), ground arith, refl)
      ]
    where
      some_child :
          any_proc (waits_for threads c) t.procs ≡ true
          → (i : ℕ) × (p : Proc) × (get_elem? t.procs i ≡ some p) × IsChild threads c p
      some_child h =
          let (i, p, e, k) = any_proc-some (waits_for threads c) t.procs h in
          (i, p, e, waits_for-IsChild threads c p k)

      clash : (b : Bool) → b ≡ false → b ≡ true → ⊥
      clash b n y = absurd (cc)

      why :
          (not (any_proc (waits_for threads c) t.procs) || cur.killed) ≡ true
          → ((i : ℕ) (p : Proc) → get_elem? t.procs i ≡ some p → IsChild threads c p → ⊥)
            ⊎ (cur.killed ≡ true)
      why stop = elim (Bool-cases (any_proc (waits_for threads c) t.procs)) [
        | inl children ↦ inr (ground arith)
        | inr childless ↦ inl (λ i p e child.
            clash (waits_for threads c p)
              (any_proc-none (waits_for threads c) t.procs childless i e)
              (IsChild-waits_for threads c p child))
      ]

  pub wait_scan_lem : WaitMeans (wait_scan threads c cur t)
  unfolding wait_scan
  wait_scan_lem =
      wait_at_lem (find_slot (is_ready threads c) t.procs)
        (find_slot-Finds (is_ready threads c) t.procs)

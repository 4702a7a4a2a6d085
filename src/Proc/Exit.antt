-- ===== src/Proc/Exit.antt =====
-- `exit` and `thread_exit` of proc.c: the zombie, its children, and who is woken.
use basic_os.Prelude.{
  ℕ, ◌≡◌, ◌≢◌, ◌⊎◌, inl, inr, refl, ◌∙◌, arith, Bool, true, false, ◌&&◌, ◌||◌, List, [], ◌∷◌, ◌==◌,
  none, some, if◌then◌else◌, Bool-cases, map, get_elem?,
}
use basic_os.Proc.{
  Proc, Ptable, runnable, zombie, same_state, Chan, no_chan, proc_chan, same_slot, any_proc,
  wakeup1, leave, exit, thread_exit,
}
use basic_os.Proc.Table.{modify_self, modify_ne, get_elem?-map}
use basic_os.Proc.Wakeup.{sleeps_on, wakeup1_lem}

abbrev pub is_child_of : ℕ → Proc → Bool
is_child_of c p = same_slot p.parent (some c)

abbrev pub parent_chan : Proc → Chan
parent_chan cur = elim cur.parent [ none ↦ no_chan | some p ↦ proc_chan p ]

-- The process of another slot after the exit of the process in slot `c`; `orphan` says whether a zombie
-- was handed to `init`.
abbrev pub after_exit : ℕ → ℕ → Proc → Bool → Proc → Proc
after_exit init c cur orphan p = record p {
  parent = if is_child_of c p then some init else p.parent;
  state =
      if sleeps_on (parent_chan cur) p || (orphan && sleeps_on (proc_chan init) p)
      then runnable
      else p.state;
}

abbrev pub is_orphan : ℕ → Proc → Bool
is_orphan c p = is_child_of c p && same_state p.state zombie

any_proc-wakeup1 :
    (c : ℕ) (ch : Chan) (ps : List Proc)
    → any_proc (is_orphan c) (wakeup1 ch ps) ≡ any_proc (is_orphan c) ps
unfolding wakeup1
any_proc-wakeup1 c ch [] = refl
any_proc-wakeup1 c ch (p ∷ ps) = ground (arith, any_proc-wakeup1 c ch ps)

-- Whether a zombie child is handed over, as `exit` sees it.
abbrev pub orphaned : ℕ → Ptable → Bool
orphaned c t = any_proc (is_orphan c) t.procs

told_lem :
    (init c : ℕ) (cur : Proc) (orphan : Bool) (ps : List Proc) (i : ℕ) {p : Proc}
    → get_elem? ps i ≡ some p
    → get_elem?
        (if orphan
          then wakeup1 (proc_chan init) (
              map
                (λ q. if is_child_of c q then record q { parent = some init } else q)
                (wakeup1 (parent_chan cur) ps))
          else map
              (λ q. if is_child_of c q then record q { parent = some init } else q)
              (wakeup1 (parent_chan cur) ps))
        i
      ≡ some (after_exit init c cur orphan p)
told_lem init c cur true ps i e =
    wakeup1_lem (proc_chan init) _ i (get_elem?-map _ _ i (wakeup1_lem (parent_chan cur) ps i e))
    ∙ ground arith
told_lem init c cur false ps i e =
    get_elem?-map _ _ i (wakeup1_lem (parent_chan cur) ps i e) ∙ ground arith

-- What the exit of the process in slot `c` means for the table.
pub record Exited (init c : ℕ) (cur : Proc) (t t' : Ptable) : Type 0 where
  pub others :
      (i : ℕ) {p : Proc}
      → c ≢ i
      → get_elem? t.procs i ≡ some p
      → get_elem? t'.procs i ≡ some (after_exit init c cur (orphaned c t) p)
  pub itself :
      {p : Proc}
      → get_elem? t.procs c ≡ some p
      → get_elem? t'.procs c
        ≡ some (record (after_exit init c cur (orphaned c t) p) { state = zombie })
  pub next : t'.nextpid ≡ t.nextpid

leave_lem : (init c : ℕ) (cur : Proc) (t : Ptable) → Exited init c cur t (leave init c cur t)
unfolding leave
leave_lem init c cur t = rw (any_proc-wakeup1 c (parent_chan cur) t.procs) (record {
  others = λ i ne e. modify_ne c i _ _ ne ∙ told_lem init c cur (orphaned c t) t.procs i e;
  itself = λ e. modify_self c _ _ (told_lem init c cur (orphaned c t) t.procs c e);
  next = refl;
})

-- The part of `exit` and of `thread_exit` under `ptable.lock`, for a process other than `init`, makes
-- it a zombie, hands its children to `init`, wakes its parent, wakes `init` exactly if one of the
-- children is a zombie, and changes nothing else in the fields of the table that are modelled; for
-- `init` both panic. The closing of the open files and the dropping of the directory, which come
-- before that part and may wake sleeping processes, are not part of it.
pub exit_lem :
    (init c : ℕ) (cur : Proc) (t : Ptable)
    → (thread_exit init c cur t ≡ exit init c cur t)
      × (((c ≡ init) × (exit init c cur t ≡ none))
          ⊎ ((c ≢ init) × (t' : Ptable) × (exit init c cur t ≡ some t') × Exited init c cur t t'))
unfolding exit thread_exit
exit_lem init c cur t = (
  refl,
  elim (Bool-cases (c == init)) [
    | inl same ↦ inl (ground arith, rw same refl)
    | inr other ↦ inr (ground arith, leave init c cur t, rw other refl, leave_lem init c cur t)
  ],
)

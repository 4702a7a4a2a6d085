-- ===== src/Proc/Wakeup.antt =====
-- `wakeup1`, `kill` and the end of `growproc` of proc.c: exactly which processes they change, and how.
use basic_os.Prelude.{
  ℕ, ◌≡◌, ◌≢◌, ◌⊎◌, inl, inr, refl, ◌∙◌, arith, Bool, true, false, ◌&&◌, ◌||◌, List, ◌==◌, Option,
  none, some, if◌then◌else◌, Bool-cases, Option-cases, get_elem?,
}
use mathlib.Core.Path.{subst}
use basic_os.Proc.{
  Proc, sleeping, runnable, same_state, Chan, same_chan, same_slot, find_slot, modify, wakeup1,
  kill, set_size,
}
use basic_os.Proc.Table.{Finds, find_slot-Finds, modify_self, modify_ne, get_elem?-map}

abbrev pub sleeps_on : Chan → Proc → Bool
sleeps_on c p = same_state p.state sleeping && same_chan p.chan c

-- `wakeup1` makes every process that sleeps on the channel runnable, and changes no other process.
pub wakeup1_lem :
    (c : Chan) (ps : List Proc) (i : ℕ) {p : Proc}
    → get_elem? ps i ≡ some p
    → get_elem? (wakeup1 c ps) i ≡ some (if sleeps_on c p then record p { state = runnable } else p)
unfolding wakeup1
wakeup1_lem c ps i e = get_elem?-map _ ps i e

-- `kill` of a pid that is in the table marks a process with that pid as killed, wakes it if it sleeps, and
-- changes no other process; it fails exactly when there is no process with the pid, and changes nothing
-- then.
pub kill_lem :
    (pid : ℕ) (ps : List Proc)
    → (((kill pid ps).0 ≡ true)
        × ((i : ℕ) × (p : Proc) × (get_elem? ps i ≡ some p)
            × (p.pid ≡ pid)
            × (get_elem? (kill pid ps).1 i
                ≡ some (record p {
                  killed = true;
                  state = if same_state p.state sleeping then runnable else p.state;
                }))
            × ((j : ℕ) → i ≢ j → get_elem? (kill pid ps).1 j ≡ get_elem? ps j)))
      ⊎ ((kill pid ps ≡ (false, ps)) × ((i : ℕ) (p : Proc) → get_elem? ps i ≡ some p → p.pid ≢ pid))
unfolding kill
kill_lem pid ps = elim (Option-cases (find_slot (λ p. p.pid == pid) ps)) [
  | inl missing ↦
      let f =
        subst (Finds (λ p. p.pid == pid) ps) missing (find_slot-Finds (λ p. p.pid == pid) ps) in
      inr (rw (missing, kill) refl, λ i p e. ground (arith, f i p))
  | inr (i, found) ↦
      let (p, e, h) =
        subst (Finds (λ p. p.pid == pid) ps) found (find_slot-Finds (λ p. p.pid == pid) ps) in
      inl (
        rw (found, kill)
          (refl, (i, p, e, ground arith, modify_self i _ ps e, λ j ne. modify_ne i j _ ps ne)))
]

abbrev pub sized : Proc → ℕ → Proc
sized p sz = record p { sz = sz }

modify-sized :
    (q sz : ℕ) (ps : List Proc) (i : ℕ) {p : Proc}
    → get_elem? ps i ≡ some p
    → get_elem? (modify q (λ r. sized r sz) ps) i ≡ some (if q == i then sized p sz else p)
modify-sized q sz ps i {p} e = elim (Bool-cases (q == i)) [
  | inl here ↦
      let qi : q ≡ i = ground arith in
      rw here (
        subst
          (λ j.
            get_elem? ps j ≡ some p
            → get_elem? (modify q (λ r. sized r sz) ps) j ≡ some (sized p sz))
          qi (modify_self q (λ r. sized r sz) ps) e)
  | inr there ↦ rw there (modify_ne q i _ ps (ground arith) ∙ e)
]

-- The process `p` in slot `i` gets the new size of `cur`, which is in slot `c`: it is `cur`, or the
-- parent of the thread `cur`, or a thread that has the parent of `cur` or has `cur` as its parent.
abbrev pub resized : ℕ → Proc → ℕ → Proc → Bool
resized c cur i p =
    (c == i)
    || ((cur.isthread && same_slot cur.parent (some i))
        || (p.isthread && (same_slot p.parent cur.parent || same_slot p.parent (some c))))

parent_grown_lem :
    (thread : Bool) (parent : Option ℕ) (sz : ℕ) (ps : List Proc) (i : ℕ) {p : Proc}
    → get_elem? ps i ≡ some p
    → get_elem?
        (if thread
          then elim parent [ none ↦ ps | some q ↦ modify q (λ r. record r { sz = sz }) ps ]
          else ps)
        i
      ≡ some (if thread && same_slot parent (some i) then sized p sz else p)
parent_grown_lem false parent sz ps i e = e
parent_grown_lem true none sz ps i e = e
parent_grown_lem true (some q) sz ps i e = modify-sized q sz ps i e

-- The end of `growproc` sets the size of the process itself, of its parent if it is a thread, of the
-- threads that it made, and of the threads with the same parent as it, and changes nothing else in
-- the table.
pub set_size_lem :
    (c : ℕ) (cur : Proc) (sz : ℕ) (ps : List Proc) (i : ℕ) {p : Proc}
    → get_elem? ps i ≡ some p
    → get_elem? (set_size c cur sz ps) i ≡ some (if resized c cur i p then sized p sz else p)
unfolding set_size
set_size_lem c cur sz ps i {p} e =
    get_elem?-map _ _ i (parent_grown_lem cur.isthread cur.parent sz _ i (modify-sized c sz ps i e))
    ∙ ground arith

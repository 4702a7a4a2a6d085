-- ===== src/Proc/Sched.antt =====
-- The scheduler of proc.c and the ways into it, on one processor: `scheduler`, `sched`, `yield`, `sleep`
-- and `thread_sleep`, which is the same but for the kind of its lock.
-- What the process in a slot does from the `swtch` to it until it switches back is a parameter.
use basic_os.Prelude.{
  ℕ, zero, suc, ◌+◌, ◌≤◌, ◌<◌, ◌≡◌, ◌≢◌, ◌⊎◌, inl, inr, refl, ap, ◌∙◌, arith, Bool, true, false,
  not, ◌&&◌, Option, none, some, List, [], ◌∷◌, ◌==◌, if◌then◌else◌, length, get_elem?, has,
  Bool-cases,
}
use mathlib.Core.Path.{subst}
use basic_os.Proc.{
  ProcState, sleeping, runnable, running, same_state, Chan, no_chan, proc_chan, other_chan,
  same_chan, Proc, modify, wakeup1,
}
use basic_os.Proc.Table.{modify_self, modify_ne, length-modify}
use basic_os.Proc.Wakeup.{wakeup1_lem, sleeps_on}

-- `sched` past its tests: whether it switches to the scheduler, or panics
pub may_switch : Bool → ℕ → ProcState → Bool → Bool
may_switch holds_lock ncli state interrupts =
    holds_lock && (ncli == 1) && not (same_state state running) && not interrupts

-- `yield`, and `sleep` and `thread_sleep` before and after their switch, by the process in slot `c`
unfoldable pub yield : ℕ → List Proc → List Proc
yield c ps = modify c (λ p. record p { state = runnable }) ps

unfoldable pub sleep : Chan → ℕ → List Proc → List Proc
sleep ch c ps = modify c (λ p. record p { chan = ch; state = sleeping }) ps

unfoldable pub wake : ℕ → List Proc → List Proc
wake c ps = modify c (λ p. record p { chan = no_chan }) ps

-- One pass of the loop of `scheduler` over `n` slots from slot `i` on: the slots whose processes ran
abbrev pub is_runnable : Option Proc → Bool
is_runnable none = false
is_runnable (some p) = same_state p.state runnable

pub pass : (ℕ → List Proc → List Proc) → ℕ → ℕ → List Proc → List ℕ × List Proc
pass run zero i ps = ([], ps)
pass run (suc n) i ps =
    let ready = is_runnable (get_elem? ps i) in
    let rest =
      pass run n (i + 1)
        (if ready then run i (modify i (λ p. record p { state = running }) ps) else ps) in
    (if ready then i ∷ rest.0 else rest.0, rest.1)

-- Running one process leaves the others runnable.
abbrev pub IsFair : (ℕ → List Proc → List Proc) → Type 0
IsFair run =
    (i j : ℕ) (ps : List Proc)
    → i ≢ j
    → is_runnable (get_elem? ps j) ≡ true
    → is_runnable (get_elem? (run i ps) j) ≡ true

kept_ready :
    (run : ℕ → List Proc → List Proc)
    → IsFair run
    → (i j : ℕ) (ps : List Proc) → i ≢ j
    → is_runnable (get_elem? ps j) ≡ true
    → is_runnable (
        get_elem?
          (if is_runnable (get_elem? ps i)
            then run i (modify i (λ p. record p { state = running }) ps)
            else ps)
          j)
      ≡ true
kept_ready run fair i j ps ne h = elim (Bool-cases (is_runnable (get_elem? ps i))) [
  | inl r ↦
      rw r (
        fair i j _ ne
          (ap is_runnable (modify_ne i j (λ p. record p { state = running }) ps ne) ∙ h))
  | inr r ↦ rw r h
]

has_if :
    (b : Bool) (i j : ℕ) (xs : List ℕ) → has j xs ≡ true → has j (if b then i ∷ xs else xs) ≡ true
has_if b i j xs h = ground (arith, h)

pass_from :
    (run : ℕ → List Proc → List Proc)
    → IsFair run
    → (n i j : ℕ) (ps : List Proc) → i ≤ j
    → j < i + n
    → is_runnable (get_elem? ps j) ≡ true
    → has j (pass run n i ps).0 ≡ true
unfolding pass
pass_from run fair zero i j ps le lt h = absurd (omega arith)
pass_from run fair (suc n) i j ps le lt h = elim (Bool-cases (i == j)) [
  | inl e ↦ let q : i ≡ j = ground (arith, e) in rw q (rw h (ground arith))
  | inr e ↦
      let ne : i ≢ j = ground (arith, e) in
      has_if _ i j _ (
        pass_from run fair n (i + 1) j _ (omega (arith, ne)) (omega arith)
          (kept_ready run fair i j ps ne h))
]

woken :
    (ch : Chan) (p : Proc)
    → (same_state p.state runnable ≡ true)
      ⊎ ((same_state p.state sleeping ≡ true) × (same_chan p.chan ch ≡ true))
    → is_runnable (some (if sleeps_on ch p then record p { state = runnable } else p)) ≡ true
woken ch p h = elim (Bool-cases (sleeps_on ch p)) [
  | inl e ↦ rw e refl
  | inr e ↦ rw e (elim h [ inl r ↦ r | inr (a, b) ↦ absurd (ground (arith, a, b, e)) ])
]

-- On one processor, where running a process leaves the others runnable: a process that is runnable, or
-- that sleeps on a channel, runs within the pass of `scheduler` that follows a `wakeup` of the channel.
pub pass-wakeup1 :
    (run : ℕ → List Proc → List Proc)
    → IsFair run
    → (ch : Chan) (ps : List Proc) (j : ℕ) {p : Proc} → get_elem? ps j ≡ some p
    → (same_state p.state runnable ≡ true)
      ⊎ ((same_state p.state sleeping ≡ true) × (same_chan p.chan ch ≡ true))
    → j < length ps
    → has j (pass run (length ps) 0 (wakeup1 ch ps)).0 ≡ true
pass-wakeup1 run fair ch ps j {p} e h l =
    pass_from run fair (length ps) 0 j (wakeup1 ch ps) (omega arith) (omega arith)
      (ap is_runnable (wakeup1_lem ch ps j e) ∙ woken ch p h)

same_chan_refl : (ch : Chan) → same_chan ch ch ≡ true
same_chan_refl no_chan = refl
same_chan_refl (proc_chan i) = ground arith
same_chan_refl (other_chan i) = ground arith

-- On one processor, where running a process leaves the other runnable ones runnable: a process that
-- calls `sleep` on a channel runs again within the pass of `scheduler` that follows a `wakeup` of the
-- channel, and a process that calls `yield` within the next pass.
pub pass-sleep :
    (run : ℕ → List Proc → List Proc)
    → IsFair run
    → (ch : Chan) (ps : List Proc) (c : ℕ) {p : Proc} → get_elem? ps c ≡ some p
    → c < length ps
    → (has c (pass run (length ps) 0 (wakeup1 ch (sleep ch c ps))).0 ≡ true)
      × (has c (pass run (length ps) 0 (wakeup1 ch (yield c ps))).0 ≡ true)
unfolding sleep yield
pass-sleep run fair ch ps c {p} e l = (
  subst (λ n. has c (pass run n 0 (wakeup1 ch (sleep ch c ps))).0 ≡ true) (length-modify c _ ps)
      (pass-wakeup1 run fair ch (sleep ch c ps) c (modify_self c _ ps e)
        (inr (refl, same_chan_refl ch))
        (omega (arith, l, length-modify c (λ p. record p { chan = ch; state = sleeping }) ps))),
  subst (λ n. has c (pass run n 0 (wakeup1 ch (yield c ps))).0 ≡ true) (length-modify c _ ps)
      (pass-wakeup1 run fair ch (yield c ps) c (modify_self c _ ps e) (inl refl)
        (omega (arith, l, length-modify c (λ p. record p { state = runnable }) ps))),
)

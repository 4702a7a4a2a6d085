-- ===== src/Spinlock.antt =====
-- xv6-public/spinlock.c: locks and the interrupt flag of one processor.
-- The trace of the caller, which is kept for debugging, is left out.
pub mod Nesting
use basic_os.Prelude.{
  ℕ, zero, suc, ◌+◌, ◌-◌, Bool, true, false, not, ◌&&◌, Option, none, some, ◌==◌, if◌then◌else◌,
}

-- A processor: its number, the interrupt flag, and the fields that `pushcli` uses.
pub record Cpu : Type 0 where
  pub id : ℕ
  pub interrupts : Bool
  pub ncli : ℕ
  pub intena : Bool

pub record Lock : Type 0 where
  pub locked : Bool
  pub cpu : Option ℕ

pub initlock : Lock
initlock = record { locked = false; cpu = none }

pub pushcli : Cpu → Cpu
pushcli c = record c {
  interrupts = false;
  intena = if c.ncli == 0 then c.interrupts else c.intena;
  ncli = c.ncli + 1;
}

-- `none` is a panic.
pub popcli : Cpu → Option Cpu
popcli c =
    if c.interrupts
    then none
    else if c.ncli == 0
    then none
    else some (record c {
      ncli = c.ncli - 1;
      interrupts = if (c.ncli - 1 == 0) && c.intena then true else c.interrupts;
    })

-- The test of `holding`, between `pushcli` and `popcli`.
abbrev pub held_by : Lock → Cpu → Bool
held_by l c = l.locked && elim l.cpu [ none ↦ false | some i ↦ i == c.id ]

pub holding : Lock → Cpu → Option (Bool × Cpu)
holding l c =
    let in_cli = pushcli c in
    elim (popcli in_cli) [ none ↦ none | some c' ↦ some (held_by l in_cli, c') ]

-- How an attempt at `acquire` ends: in a panic, spinning on, or with the lock.
pub data Attempt : Type 0 where
  panics : Attempt
  spins : Cpu → Attempt
  takes : Lock → Cpu → Attempt

-- `acquire`, whose `xchg` finds the lock as it is given.
pub acquire : Lock → Cpu → Attempt
acquire l c = elim (holding l (pushcli c)) [
  | none ↦ panics
  | some (held, c') ↦
      if held
      then panics
      else if l.locked
      then spins c'
      else takes (record { locked = true; cpu = some c'.id }) c'
]

pub release : Lock → Cpu → Option (Lock × Cpu)
release l c = elim (holding l c) [
  | none ↦ none
  | some (held, c') ↦
      if held
      then elim (popcli c') [
        | none ↦ none
        | some c'' ↦ some (record { locked = false; cpu = none }, c'')
      ]
      else none
]

-- ===== src/Spinlock/Nesting.antt =====
-- Nested critical sections of spinlock.c give the interrupt flag back as it was.
use basic_os.Prelude.{
  ◌≡◌, ◌≢◌, inl, inr, refl, sym, ◌∙◌, arith, true, false, none, some, ◌==◌, if◌then◌else◌,
  Bool-cases,
}
use basic_os.Spinlock.{
  Cpu, Lock, initlock, pushcli, popcli, held_by, holding, panics, spins, takes, acquire, release,
}

-- Within `pushcli` interrupts are off, and outside the flag that it saved is what it will restore.
pub record IsCpu (c : Cpu) : Type 0 where
  pub off : c.ncli ≢ 0 → c.interrupts ≡ false

-- What two states of the processor that no running code can tell apart have in common: `intena` means
-- something only within a `pushcli`.
pub record Same (c d : Cpu) : Type 0 where
  pub same_id : c.id ≡ d.id
  pub same_interrupts : c.interrupts ≡ d.interrupts
  pub same_ncli : c.ncli ≡ d.ncli
  pub same_intena : c.ncli ≢ 0 → c.intena ≡ d.intena

popcli-pushcli_nested : (c : Cpu) → c.ncli ≢ 0 → c.interrupts ≡ false → popcli (pushcli c) ≡ some c
unfolding popcli pushcli
popcli-pushcli_nested c ne off = ground (arith, ne, off)

holding_nested :
    (l : Lock) (c : Cpu) → c.ncli ≢ 0 → c.interrupts ≡ false → holding l c ≡ some (held_by l c, c)
unfolding holding pushcli
holding_nested l c ne off = rw (popcli-pushcli_nested c ne off, holding) refl

-- `popcli` after `pushcli`, outside or inside of others, never panics and gives the interrupt flag and
-- the depth back as they were.
pub popcli-pushcli :
    (c : Cpu) → IsCpu c → (d : Cpu) × (popcli (pushcli c) ≡ some d) × Same c d × IsCpu d
unfolding popcli pushcli
popcli-pushcli c i = elim (Bool-cases (c.ncli == 0)) [
  | inl outside ↦ (
    record c { intena = c.interrupts },
    ground (arith, outside),
    record {
      same_id = refl;
      same_interrupts = refl;
      same_ncli = refl;
      same_intena = λ ne. absurd (ground (arith, outside, ne));
    },
    record { off = i.off },
  )
  | inr inside ↦ (
    c,
    popcli-pushcli_nested c (ground (arith, inside)) (i.off (ground (arith, inside))),
    record { same_id = refl; same_interrupts = refl; same_ncli = refl; same_intena = λ ne. refl },
    i,
  )
]

-- `acquire` panics exactly if the processor holds the lock already; otherwise it spins, with interrupts
-- off and the lock unchanged, while the lock is taken, and takes it for its processor once it is free.
pub acquire_lem :
    (l : Lock) (c : Cpu)
    → acquire l c ≡ (
        if held_by l c
        then panics
        else if l.locked
        then spins (pushcli c)
        else takes (record { locked = true; cpu = some c.id }) (pushcli c))
unfolding acquire pushcli
acquire_lem l c = rw (holding_nested l (pushcli c) (ground arith) refl, acquire) refl

taken :
    (l l' : Lock) (c c' : Cpu)
    → (if held_by l c
        then panics
        else if l.locked
        then spins (pushcli c)
        else takes (record { locked = true; cpu = some c.id }) (pushcli c))
      ≡ takes l' c'
    → (l' ≡ record { locked = true; cpu = some c.id }) × (c' ≡ pushcli c)
taken l l' c c' h = elim (Bool-cases (held_by l c)) [
  | inl held ↦ absurd (ground (arith, held, h))
  | inr other ↦ elim (Bool-cases l.locked) [
    | inl busy ↦ absurd (ground (arith, other, busy, h))
    | inr free ↦ ground (arith, other, free, h)
  ]
]

released :
    (c d : Cpu)
    → popcli (pushcli c) ≡ some d
    → release (record { locked = true; cpu = some c.id }) (pushcli c)
      ≡ some (record { locked = false; cpu = none }, d)
unfolding release pushcli
released c d popped =
    let own : (c.id == c.id) ≡ true = ground arith in
    rw
      (
        holding_nested (record { locked = true; cpu = some c.id }) (pushcli c) (ground arith) refl,
        own,
        popped,
        release,
      )
      refl

-- A `release` by the processor that took a free lock never panics, frees the lock, and gives the
-- interrupt flag and the depth back as they were before the `acquire`.
pub release-acquire :
    (l l' : Lock) (c c' : Cpu)
    → IsCpu c
    → acquire l c ≡ takes l' c'
    → (d : Cpu) × (release l' c' ≡ some (initlock, d)) × Same c d × IsCpu d
unfolding release initlock
release-acquire l l' c c' i h =
    let (d, popped, same, ok) = popcli-pushcli c i in
    let (el, ec) = taken l l' c c' (sym (acquire_lem l c) ∙ h) in
    (d, rw (el, ec) (released c d popped), same, ok)

-- ===== src/Log/Overflow.antt =====
-- A log of LOGSIZE blocks, as xv6-public/mkfs.c makes it, holds one block less than the calls that
-- log.c admits may log.
use basic_os.Prelude.{
  ℕ, zero, suc, ◌+◌, ◌≤◌, ◌<◌, ◌≡◌, refl, ap, ◌∙◌, arith, true, false, some, List, [], ◌∷◌, ◌++◌,
  length, length-append, has,
}
use native.Mathlib.Nat.{add-zero}
use mathlib.Core.Path.{subst}
use basic_os.Block.{Machine, panic, hold, view}
use basic_os.Log.{Log, log_write, begin_op, log_size, max_op_blocks}
use basic_os.Log.Write.{log_write_ok, logged_in, has-absorb}
use basic_os.Log.Admission.{Sys, sys, begins, logs, Reach, here, next}

-- A transaction of `n` blocks numbered below `n`, with calls in progress.
record IsFilled (n : ℕ) (l : Log) : Type 0 where
  filled : length l.lh ≡ n
  fresh : (b : ℕ) → n ≤ b → has b l.lh ≡ false
  sized : l.size ≡ log_size
  running : (0 < l.outstanding) × (l.outstanding ≤ 3)

IsFilled-suc : (n : ℕ) (l : Log) → IsFilled n l → IsFilled (suc n) (logged_in l n)
IsFilled-suc n l f = record {
  filled = ground (arith, f.filled, f.fresh n, length-append l.lh (n ∷ []));
  fresh = λ b h. ground (arith, has-absorb l.lh n b, f.fresh b);
  sized = f.sized;
  running = f.running;
}

-- One call logs `k` blocks more.
log_many :
    {s : Sys} (k n : ℕ) (t : Sys) (us : List ℕ) (u : ℕ) (vs : List ℕ)
    → u + k ≤ max_op_blocks
    → n + k < log_size
    → t.used ≡ us ++ (u ∷ vs)
    → IsFilled n t.log
    → Reach s t
    → (t' : Sys) × Reach s t' × (t'.used ≡ us ++ ((u + k) ∷ vs)) × IsFilled (n + k) t'.log
log_many zero n t us u vs le lt eu f r =
    (t, r, rw eu (ap (λ v. us ++ (v ∷ vs)) (omega arith)), rw add-zero f)
log_many (suc k) n t us u vs le lt eu f r =
    let written = log_write_ok t.log n t.machine (record {
      below_max = omega (arith, f.filled);
      below_size = omega (arith, f.filled, f.sized);
      in_op = (f.running.0, omega (arith, f.running.1));
    }) in
    let t1 =
      sys (logged_in t.log n) (hold t.machine n (view t.machine n) true) (us ++ (suc u ∷ vs)) in
    let (t', r', e', f') =
      log_many k (suc n) t1 us (suc u) vs (omega arith) (omega arith) refl (IsFilled-suc n t.log f)
        (next r (logs us u vs n (omega arith) eu written refl)) in
    (
      t',
      r',
      e' ∙ ap (λ v. us ++ (v ∷ vs)) (omega arith),
      subst (λ j. IsFilled j t'.log) (omega arith) f',
    )

module _ (l : Log) (m : Machine) (size : l.size ≡ log_size) (empty : l.lh ≡ [])
    (free : l.outstanding ≡ 0) (idle : l.committing ≡ false) where
  abbrev opened : ℕ → Log
  opened k = record l { outstanding = k }

  begin_from : (k : ℕ) → k < 3 → begin_op (opened k) ≡ some (opened (suc k))
  unfolding begin_op
  begin_from k h = rw (idle, empty) (ground arith)

  three_running : Reach (sys l m []) (sys (opened 3) m (0 ∷ 0 ∷ 0 ∷ []))
  three_running =
      next {t = sys (opened 2) m (0 ∷ 0 ∷ [])}
        (next {t = sys (opened 1) m (0 ∷ [])}
          (next here (begins (ap begin_op same ∙ begin_from 0 (omega arith)) refl))
          (begins (begin_from 1 (omega arith)) refl))
        (begins (begin_from 2 (omega arith)) refl)
    where
      same : l ≡ opened 0
      same = ap (λ k. record l { outstanding = k }) free

  IsFilled-start : IsFilled 0 (opened 3)
  IsFilled-start = record {
    filled = rw empty refl;
    fresh = λ b h. rw empty refl;
    sized = size;
    running = omega arith;
  }

  overflow-panics : (t : Log) (b : ℕ) (m' : Machine) → IsFilled 29 t → log_write t b m' ≡ panic
  unfolding log_write
  overflow-panics t b m' f = ground (arith, f.filled, f.sized)

  -- With a log of LOGSIZE blocks that is empty and idle, the system calls can come to a state in which
  -- three of them are in progress, one has logged nine blocks of its MAXOPBLOCKS, and `log_write`
  -- panics for every block, one that the log holds already included.
  pub log_write_overflow :
      (t : Sys) × Reach (sys l m []) t
      × (t.used ≡ 10 ∷ 10 ∷ 9 ∷ [])
      × ((b : ℕ) → log_write t.log b t.machine ≡ panic)
  log_write_overflow =
      let (t1, r1, e1, f1) =
        log_many 10 0 (sys (opened 3) m (0 ∷ 0 ∷ 0 ∷ [])) [] 0 (0 ∷ 0 ∷ []) (omega arith)
          (omega arith) refl IsFilled-start three_running in
      let (t2, r2, e2, f2) =
        log_many 10 10 t1 (10 ∷ []) 0 (0 ∷ []) (omega arith) (omega arith) e1 f1 r1 in
      let (t3, r3, e3, f3) =
        log_many 9 20 t2 (10 ∷ 10 ∷ []) 0 [] (omega arith) (omega arith) e2 f2 r2 in
      (t3, r3, e3, λ b. overflow-panics t3.log b t3.machine f3)

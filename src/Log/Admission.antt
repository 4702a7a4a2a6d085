-- ===== src/Log/Admission.antt =====
-- `begin_op` and `end_op` of log.c: system calls as steps, and the space that is reserved for them.
use basic_os.Prelude.{
  ℕ, suc, ◌+◌, ◌-◌, ◌*◌, ◌%◌, ◌≤◌, ◌<◌, ◌^◌, ◌≡◌, refl, ◌⊎◌, arith, true, false, some, List, [],
  ◌∷◌, ◌++◌, ◌==◌, length, ltb, length-append, Bool-cases, inl, inr,
}
use basic_os.Block.{hold, view, pin, Machine, Run, ok, panic, and_then, Cmd}
use basic_os.Log.{
  Log, log_write, begin_op, end_op, commit, log_size, max_op_blocks, write_head, write_log,
  install_trans,
}
use basic_os.Log.Write.{log_write_ok, logged_in, length-absorb}

pub and_then-eq-ok :
    {A B : Type 0} (r : Run A) (k : A → Cmd B) {b : B} {m' : Machine}
    → and_then r k ≡ ok b m'
    → (a : A) × (m : Machine) × (r ≡ ok a m) × (k a m ≡ ok b m')
and_then-eq-ok (ok a m) k e = (a, m, refl, e)
and_then-eq-ok (Run.crash d) k e = absurd (cc)
and_then-eq-ok panic k e = absurd (cc)

-- A commit that ends leaves the log empty, or as it was, and changes no other field.
commit_result :
    (l : Log) (m : Machine) {l' : Log} {m' : Machine}
    → commit l m ≡ ok l' m'
    → (l' ≡ record l { lh = [] }) ⊎ (l' ≡ l)
unfolding commit
commit_result l m e = elim (Bool-cases (ltb 0 (length l.lh))) [
  | inl some_blocks ↦ inl (
      let (_, m1, _, e1) = and_then-eq-ok (write_log l m) _ (rw some_blocks at e) in
      let (_, m2, _, e2) = and_then-eq-ok (write_head l m1) _ e1 in
      let (_, m3, _, e3) = and_then-eq-ok (install_trans l m2) _ e2 in
      let (_, m4, _, e4) = and_then-eq-ok (write_head (record l { lh = [] }) m3) _ e3 in cc)
  | inr none_left ↦ inr (let h = rw none_left at e in cc)
]

-- The log, the machine, and for each system call between `begin_op` and `end_op` the number of blocks
-- that it has logged.
pub record Sys : Type 0 where
  pub log : Log
  pub machine : Machine
  pub used : List ℕ

abbrev pub sys : Log → Machine → List ℕ → Sys
sys l m us = record { log = l; machine = m; used = us }

-- What the system calls and the kernel can do. A call that sleeps in `begin_op` makes no step, and
-- a call logs at most MAXOPBLOCKS blocks. The commit in `end_op` runs while no call is in progress and
-- `committing` keeps others out, so it is one step. Calls change buffers and disk in between.
pub data Step (s t : Sys) : Type 0 where
  begins : begin_op s.log ≡ some t.log → t.used ≡ 0 ∷ s.used → Step s t
  logs :
      (us : List ℕ) (u : ℕ) (vs : List ℕ) (b : ℕ)
      → u < max_op_blocks
      → s.used ≡ us ++ (u ∷ vs)
      → log_write s.log b s.machine ≡ ok t.log t.machine
      → t.used ≡ us ++ (suc u ∷ vs)
      → Step s t
  ends :
      (us : List ℕ) (u : ℕ) (vs : List ℕ)
      → s.used ≡ us ++ (u ∷ vs)
      → end_op s.log s.machine ≡ ok t.log t.machine
      → t.used ≡ us ++ vs
      → Step s t
  works : t.log ≡ s.log → t.used ≡ s.used → Step s t

pub data Reach (s : Sys) : Sys → Type 0 where
  here : Reach s s
  next : {t u : Sys} → Reach s t → Step t u → Reach s u

-- What the calls in progress may still log.
abbrev pub reserved : List ℕ → ℕ
reserved [] = 0
reserved (u ∷ us) = (max_op_blocks - u) + reserved us

-- The blocks in the header and those that the calls in progress, of which there are three at most, may
-- still log are at most LOGSIZE in sum. `size`, the size of the log, is any.
pub record IsReserved (size : ℕ) (l : Log) (used : List ℕ) : Type 0 where
  pub counted : l.outstanding ≡ length used
  pub idle : l.committing ≡ false
  pub room : length l.lh + reserved used ≤ log_size
  pub few : length used ≤ 3
  pub sized : l.size ≡ size

reserved-append : (us vs : List ℕ) → reserved (us ++ vs) ≡ reserved us + reserved vs
reserved-append [] vs = omega arith
reserved-append (u ∷ us) vs = omega (arith, reserved-append us vs)

reserved-le : (us : List ℕ) → reserved us ≤ 10 * length us
reserved-le [] = omega arith
reserved-le (u ∷ us) = omega (arith, reserved-le us)

log_write-eq-ok :
    (l : Log) (b : ℕ) (m : Machine) {l' : Log} {m' : Machine}
    → log_write l b m ≡ ok l' m'
    → l' ≡ logged_in l b
unfolding log_write pin
log_write-eq-ok l b m e = ground arith

-- What a finished `end_op` keeps.
record Ended (l l' : Log) : Type 0 where
  outstanding_eq : l'.outstanding ≡ (l.outstanding + 2 ^ 32 - 1) % 2 ^ 32
  idle : l'.committing ≡ false
  size_eq : l'.size ≡ l.size
  shorter : length l'.lh ≤ length l.lh

end_op-eq-ok :
    (l : Log) (m : Machine) {l' : Log} {m' : Machine}
    → l.committing ≡ false
    → end_op l m ≡ ok l' m'
    → Ended l l'
unfolding end_op
end_op-eq-ok l m idle e = elim (Bool-cases ((l.outstanding + 2 ^ 32 - 1) % 2 ^ 32 == 0)) [
  | inl last ↦
      let (l1, m1, e1, e2) =
        and_then-eq-ok
          (commit
            (record l { outstanding = (l.outstanding + 2 ^ 32 - 1) % 2 ^ 32; committing = true }) m)
          _ (rw (idle, last) at e) in
      elim (commit_result _ m e1) [ inl p ↦ ground (arith, p) | inr p ↦ ground (arith, p) ]
  | inr more ↦ let h = rw (idle, more) at e in ground (arith, h)
]

module _ (size : ℕ) (l l' : Log) (m m' : Machine) where
  begin_op-IsReserved :
      (us : List ℕ) → IsReserved size l us → begin_op l ≡ some l' → IsReserved size l' (0 ∷ us)
  unfolding begin_op
  begin_op-IsReserved us r e = ground (arith, reserved-le us)

  log_write-IsReserved :
      (us : List ℕ) (u : ℕ) (vs : List ℕ) (b : ℕ)
      → u < max_op_blocks
      → IsReserved size l (us ++ (u ∷ vs))
      → log_write l b m ≡ ok l' m'
      → IsReserved size l' (us ++ (suc u ∷ vs))
  log_write-IsReserved us u vs b lt r e = ground (
    arith,
    log_write-eq-ok l b m e,
    length-absorb l.lh b,
    reserved-append us (u ∷ vs),
    reserved-append us (suc u ∷ vs),
    length-append us (u ∷ vs),
    length-append us (suc u ∷ vs),
  )

  end_op-IsReserved :
      (us : List ℕ) (u : ℕ) (vs : List ℕ)
      → IsReserved size l (us ++ (u ∷ vs))
      → end_op l m ≡ ok l' m'
      → IsReserved size l' (us ++ vs)
  end_op-IsReserved us u vs r e =
      let n = end_op-eq-ok l m r.idle e in
      ground (
        arith,
        n,
        reserved-append us (u ∷ vs),
        reserved-append us vs,
        length-append us (u ∷ vs),
        length-append us vs,
      )

abbrev pub IsReservedSys : ℕ → Sys → Type 0
IsReservedSys size s = IsReserved size s.log s.used

-- Every step keeps the reservation.
Step-IsReserved : (size : ℕ) {s t : Sys} → Step s t → IsReservedSys size s → IsReservedSys size t
Step-IsReserved size {s} {t} (begins e eu) r =
    rw eu (begin_op-IsReserved size s.log t.log s.machine t.machine s.used r e)
Step-IsReserved size {s} {t} (logs us u vs b lt es e et) r =
    rw et (log_write-IsReserved size s.log t.log s.machine t.machine us u vs b lt (rw es at r) e)
Step-IsReserved size {s} {t} (ends us u vs es e et) r =
    rw et (end_op-IsReserved size s.log t.log s.machine t.machine us u vs (rw es at r) e)
Step-IsReserved size {s} {t} (works el eu) r = rw (el, eu) r

-- Take a state where the following holds. It holds in every state reached from there too, however the
-- system calls interleave: the blocks in the header and those that the calls in progress may still log
-- are at most LOGSIZE in sum, at most three calls are in progress, and no commit is under way between
-- the steps. This is so for every size of the log; LOGSIZE blocks have room in the log only if its
-- size is more than LOGSIZE.
pub Reach-IsReserved :
    (size : ℕ) {s t : Sys} → IsReservedSys size s → Reach s t → IsReservedSys size t
Reach-IsReserved size r here = r
Reach-IsReserved size r (next p st) = Step-IsReserved size st (Reach-IsReserved size r p)

-- In a log of more than LOGSIZE blocks, a system call that has logged fewer
-- than MAXOPBLOCKS blocks can log another: `log_write` does not panic, however the calls interleave.
pub log_write_admitted :
    (size : ℕ) {s t : Sys} (us : List ℕ) (u : ℕ) (vs : List ℕ) (b : ℕ)
    → log_size < size
    → IsReservedSys size s
    → Reach s t
    → t.used ≡ us ++ (u ∷ vs)
    → u < max_op_blocks
    → log_write t.log b t.machine
      ≡ ok (logged_in t.log b) (hold t.machine b (view t.machine b) true)
log_write_admitted size {s} {t} us u vs b big r p eu lt =
    let q : IsReserved size t.log (us ++ (u ∷ vs)) = rw eu at (Reach-IsReserved size r p) in
    let l1 = reserved-append us (u ∷ vs) in
    let l2 = length-append us (u ∷ vs) in
    log_write_ok t.log b t.machine (record {
      below_max = omega (arith, q.room, l1);
      below_size = omega (arith, q.room, q.sized, l1);
      in_op = (omega (arith, q.counted, l2), omega (arith, q.counted, q.few));
    })

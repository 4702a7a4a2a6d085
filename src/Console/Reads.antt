-- ===== src/Console/Reads.antt =====
-- What `consoleread` of console.c gives to a process.
use basic_os.Prelude.{
  ℕ, zero, suc, ◌+◌, ◌%◌, ◌^◌, ◌≤◌, ◌<◌, ◌≡◌, ◌≢◌, inl, inr, refl, ap, arith, Bool, true, false,
  List, [], ◌∷◌, ◌==◌, if◌then◌else◌, length, Bool-cases,
}
use basic_os.Console.{input_buf, newline, ctrl_d, Input, sub_uint, read_loop, consoleread}
use basic_os.Console.Lines.{IsInput}

-- The `n` characters from counter value `r` on.
abbrev pub window : (ℕ → ℕ) → ℕ → ℕ → List ℕ
window buf r zero = []
window buf r (suc n) = buf (r % input_buf) ∷ window buf ((r + 1) % 2 ^ 32) n

pub record ReadMeans (n : ℕ) (s : Input) (out : List ℕ × Bool × Input) : Type 0 where
  pub bytes : out.0 ≡ window s.buf s.r (length out.0)
  pub few : length out.0 ≤ n
  pub whole : length out.0 + sub_uint s.w out.2.r ≤ sub_uint s.w s.r
  pub is_input : IsInput out.2
  pub same : (out.2.buf ≡ s.buf) × (out.2.w ≡ s.w) × (out.2.e ≡ s.e)
  pub waits : out.1 ≡ false → (out.2.r ≡ s.w) × (length out.0 < n)

IsInput-read : (s : Input) → IsInput s → s.r ≢ s.w → IsInput (record s { r = (s.r + 1) % 2 ^ 32 })
IsInput-read s i ne = record {
  r_small = omega arith;
  w_small = i.w_small;
  e_small = i.e_small;
  ordered = omega (arith, i.r_small, i.w_small, i.e_small, i.ordered, i.fits, ne);
  fits = omega (arith, i.r_small, i.w_small, i.e_small, i.ordered, i.fits, ne);
}

ReadMeans-cons :
    (n : ℕ) (s : Input) (out : List ℕ × Bool × Input)
    → IsInput s
    → s.r ≢ s.w
    → ReadMeans n (record s { r = (s.r + 1) % 2 ^ 32 }) out
    → ReadMeans (suc n) s (s.buf (s.r % input_buf) ∷ out.0, out.1, out.2)
ReadMeans-cons n s out i ne m = record {
  bytes = ap (λ bs. s.buf (s.r % input_buf) ∷ bs) m.bytes;
  few = omega (arith, m.few);
  whole = omega (arith, m.whole, i.r_small, i.w_small, ne);
  is_input = m.is_input;
  same = m.same;
  waits = λ h. ((m.waits h).0, omega (arith, (m.waits h).1));
}

ReadMeans-nil :
    (n : ℕ) (s s' : Input) (done : Bool)
    → IsInput s'
    → sub_uint s.w s'.r ≤ sub_uint s.w s.r
    → (s'.buf ≡ s.buf) × (s'.w ≡ s.w) × (s'.e ≡ s.e)
    → (done ≡ false → (s'.r ≡ s.w) × (0 < n))
    → ReadMeans n s ([], done, s')
ReadMeans-nil n s s' done i le same waits = record {
  bytes = refl;
  few = omega arith;
  whole = omega (arith, le);
  is_input = i;
  same = same;
  waits = waits;
}

read_loop_lem : (n : ℕ) (fresh : Bool) (s : Input) → IsInput s → ReadMeans n s (read_loop n fresh s)
unfolding read_loop
read_loop_lem zero fresh s i =
    ReadMeans-nil 0 s s true i (omega arith) (refl, refl, refl) (λ h. absurd (cc))
read_loop_lem (suc n) fresh s i = elim (Bool-cases (s.r == s.w)) [
  | inl empty ↦
      let e : s.r ≡ s.w = ground (arith, empty) in
      rw empty
        (ReadMeans-nil (suc n) s s false i (omega arith) (refl, refl, refl) (λ h. (e, omega arith)))
  | inr some_left ↦
      let ne : s.r ≢ s.w = ground (arith, some_left) in
      let s' = record s { r = (s.r + 1) % 2 ^ 32 } in
      let less : sub_uint s.w s'.r ≤ sub_uint s.w s.r = omega (arith, i.r_small, i.w_small, ne) in
      rw some_left (elim (Bool-cases (s.buf (s.r % input_buf) == ctrl_d)) [
        | inl end ↦ rw end (at_end fresh ne less)
        | inr char ↦ rw char (elim (Bool-cases (s.buf (s.r % input_buf) == newline)) [
          | inl line ↦ rw line (
              ReadMeans-cons n s ([], true, s') i ne
                (ReadMeans-nil n s' s' true (IsInput-read s i ne) (omega arith) (refl, refl, refl)
                  (λ h. absurd (cc))))
          | inr inner ↦ rw inner (
              ReadMeans-cons n s (read_loop n false s') i ne
                (read_loop_lem n false s' (IsInput-read s i ne)))
        ])
      ])
]
  where
    at_end :
        (fresh : Bool)
        → s.r ≢ s.w
        → sub_uint s.w ((s.r + 1) % 2 ^ 32) ≤ sub_uint s.w s.r
        → ReadMeans (suc n) s ([], true, if fresh then record s { r = (s.r + 1) % 2 ^ 32 } else s)
    at_end true ne less =
        ReadMeans-nil (suc n) s _ true (IsInput-read s i ne) less (refl, refl, refl)
          (λ h. absurd (cc))
    at_end false ne less =
        ReadMeans-nil (suc n) s s true i (omega arith) (refl, refl, refl) (λ h. absurd (cc))

-- `consoleread` of `n` bytes stores at most `n` characters, the next ones of the whole lines and no
-- others, and takes them out of the buffer, which stays in order; it sleeps only when it has taken all of
-- the whole lines and has room for more.
pub consoleread-ReadMeans : (n : ℕ) (s : Input) → IsInput s → ReadMeans n s (consoleread n s)
unfolding consoleread
consoleread-ReadMeans n s i = read_loop_lem n true s i

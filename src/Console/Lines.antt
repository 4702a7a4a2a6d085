-- ===== src/Console/Lines.antt =====
-- The input buffer of console.c: typing and editing never reach what the reader may already take.
use basic_os.Prelude.{
  ℕ, zero, suc, ◌+◌, ◌%◌, ◌^◌, ◌≤◌, ◌<◌, ◌≡◌, ◌≢◌, ◌⊎◌, inl, inr, refl, ◌∙◌, arith, not, ◌&&◌, ◌||◌,
  List, [], ◌∷◌, ◌==◌, ltb, if◌then◌else◌, Bool-cases,
}
use mathlib.Core.Path.{subst}
use basic_os.Console.{
  input_buf, newline, ctrl_d, Input, sub_uint, kill_line, put_char, type_char, consoleintr,
}

-- The reader is behind the end of the last whole line, that behind the cursor, and all that is unread
-- fits into the buffer.
pub record IsInput (s : Input) : Type 0 where
  pub r_small : s.r < 2 ^ 32
  pub w_small : s.w < 2 ^ 32
  pub e_small : s.e < 2 ^ 32
  pub ordered : sub_uint s.w s.r ≤ sub_uint s.e s.r
  pub fits : sub_uint s.e s.r ≤ input_buf

-- A change of the buffer that keeps the reader's place and every character that it may already take.
pub record Keeps (s s' : Input) : Type 0 where
  pub is_input : IsInput s'
  pub reader : s'.r ≡ s.r
  pub grows : sub_uint s.w s.r ≤ sub_uint s'.w s.r
  pub same :
      (k : ℕ)
      → k < sub_uint s.w s.r
      → s'.buf ((s.r + k) % input_buf) ≡ s.buf ((s.r + k) % input_buf)

Keeps-refl : (s : Input) → IsInput s → Keeps s s
Keeps-refl s i = record { is_input = i; reader = refl; grows = omega arith; same = λ k h. refl }

Keeps-trans : (s t u : Input) → Keeps s t → Keeps t u → Keeps s u
Keeps-trans s t u a b = record {
  is_input = b.is_input;
  reader = b.reader ∙ a.reader;
  grows = omega (arith, a.grows, b.grows, a.reader);
  same = λ k h. from_reader k h ∙ a.same k h;
}
  where
    from_reader :
        (k : ℕ)
        → k < sub_uint s.w s.r
        → u.buf ((s.r + k) % input_buf) ≡ t.buf ((s.r + k) % input_buf)
    from_reader k h =
        subst (λ r. k < sub_uint t.w r → u.buf ((r + k) % input_buf) ≡ t.buf ((r + k) % input_buf))
          a.reader (b.same k) (omega (arith, a.grows, h))

IsInput-back : (s : Input) → IsInput s → s.e ≢ s.w → IsInput (record s { e = sub_uint s.e 1 })
IsInput-back s i ne = record {
  r_small = i.r_small;
  w_small = i.w_small;
  e_small = omega arith;
  ordered = omega (arith, i.r_small, i.w_small, i.e_small, i.ordered, i.fits, ne);
  fits = omega (arith, i.r_small, i.w_small, i.e_small, i.ordered, i.fits, ne);
}

Keeps-back : (s : Input) → IsInput s → s.e ≢ s.w → Keeps s (record s { e = sub_uint s.e 1 })
Keeps-back s i ne = record {
  is_input = IsInput-back s i ne;
  reader = refl;
  grows = omega arith;
  same = λ k h. refl;
}

-- A new character goes into a place that holds nothing that is unread.
new_place :
    (s : Input) (k : ℕ)
    → IsInput s
    → sub_uint s.e s.r < input_buf
    → k < sub_uint s.w s.r
    → s.e % input_buf ≢ (s.r + k) % input_buf
new_place s k i room h = omega (arith, i.r_small, i.e_small, i.ordered)

Keeps-put_char : (c : ℕ) (s : Input) → IsInput s → Keeps s (put_char c s).1
unfolding put_char
Keeps-put_char c s i = elim (Bool-cases (not (c == 0) && ltb (sub_uint s.e s.r) input_buf)) [
  | inl stored ↦
      let room : sub_uint s.e s.r < input_buf = ground (arith, stored) in
      rw stored
        (elim (Bool-cases (
          (((if c == 13 then newline else c) == newline)
            || ((if c == 13 then newline else c) == ctrl_d))
          || ((s.e + 1) % 2 ^ 32 == (s.r + input_buf) % 2 ^ 32))) [
            | inl whole ↦ rw whole (record {
              is_input = record {
                r_small = i.r_small;
                w_small = omega arith;
                e_small = omega arith;
                ordered = omega arith;
                fits = omega (arith, i.r_small, i.e_small, room);
              };
              reader = refl;
              grows = omega (arith, i.r_small, i.e_small, i.ordered, room);
              same = λ k h. ground (arith, new_place s k i room h);
            })
            | inr part ↦ rw part (record {
              is_input = record {
                r_small = i.r_small;
                w_small = i.w_small;
                e_small = omega arith;
                ordered = omega (arith, i.r_small, i.e_small, i.ordered, room);
                fits = omega (arith, i.r_small, i.e_small, room);
              };
              reader = refl;
              grows = omega arith;
              same = λ k h. ground (arith, new_place s k i room h);
            })
          ])
  | inr refused ↦ rw refused (Keeps-refl s i)
]

Keeps-kill_line : (n : ℕ) (s : Input) → IsInput s → Keeps s (kill_line n s)
unfolding kill_line
Keeps-kill_line zero s i = Keeps-refl s i
Keeps-kill_line (suc n) s i =
    elim (Bool-cases (not (s.e == s.w) && not (s.buf (sub_uint s.e 1 % input_buf) == newline))) [
      | inl go ↦
          let ne : s.e ≢ s.w = ground (arith, go) in
          rw go (
            Keeps-trans s (record s { e = sub_uint s.e 1 })
              (kill_line n (record s { e = sub_uint s.e 1 })) (Keeps-back s i ne)
              (Keeps-kill_line n (record s { e = sub_uint s.e 1 }) (IsInput-back s i ne)))
      | inr stop ↦ rw stop (Keeps-refl s i)
    ]

Keeps-type_char : (c : ℕ) (s : Input) → IsInput s → Keeps s (type_char c s).1
unfolding type_char
Keeps-type_char c s i = elim (Bool-cases (c == 16)) [
  | inl list ↦ rw list (Keeps-refl s i)
  | inr x ↦ rw x (elim (Bool-cases (c == 21)) [
    | inl kill ↦ rw kill (Keeps-kill_line input_buf s i)
    | inr y ↦ rw y (elim (Bool-cases ((c == 8) || (c == 127))) [
      | inl back ↦ rw back (elim (Bool-cases (s.e == s.w)) [
        | inl start ↦ rw start (Keeps-refl s i)
        | inr within ↦ rw within (Keeps-back s i (ground (arith, within)))
      ])
      | inr z ↦ rw z (Keeps-put_char c s i)
    ])
  ])
]

-- `consoleintr`, for any characters, keeps the order of the three counters and the bound on what is
-- unread, moves the end of the last whole line only forward, and changes none of the characters that
-- the reader may already take.
pub consoleintr-Keeps : (cs : List ℕ) (s : Input) → IsInput s → Keeps s (consoleintr cs s)
unfolding consoleintr
consoleintr-Keeps [] s i = Keeps-refl s i
consoleintr-Keeps (c ∷ cs) s i =
    let step = Keeps-type_char c s i in
    Keeps-trans s (type_char c s).1 (consoleintr cs (type_char c s).1) step
      (consoleintr-Keeps cs (type_char c s).1 step.is_input)

-- The loop of control-U stops on its own: at the start of the line that is being typed, or after the
-- newline before it.
pub kill_line_stops :
    (n : ℕ) (s : Input)
    → IsInput s
    → sub_uint s.e s.w ≤ n
    → ((kill_line n s).e ≡ s.w) ⊎ (s.buf (sub_uint (kill_line n s).e 1 % input_buf) ≡ newline)
unfolding kill_line
kill_line_stops zero s i h = inl (omega (arith, i.e_small, i.w_small, h))
kill_line_stops (suc n) s i h =
    elim (Bool-cases (not (s.e == s.w) && not (s.buf (sub_uint s.e 1 % input_buf) == newline))) [
      | inl go ↦
          let ne : s.e ≢ s.w = ground (arith, go) in
          rw go (
            kill_line_stops n (record s { e = sub_uint s.e 1 }) (IsInput-back s i ne)
              (omega (arith, i.e_small, i.w_small, h, ne)))
      | inr stop ↦ rw stop (ground (arith, stop))
    ]

-- ===== src/Console.antt =====
-- xv6-public/console.c: the input buffer, `consoleintr` and `consoleread`, under `cons.lock`.
-- `r`, `w` and `e` are 32-bit counters. What is echoed and the list of processes are left out.
pub mod Lines
pub mod Reads
use basic_os.Prelude.{
  ℕ, zero, suc, ◌+◌, ◌-◌, ◌%◌, ◌^◌, Bool, true, false, not, ◌&&◌, ◌||◌, Option, none, some, List,
  [], ◌∷◌, ◌==◌, ltb, if◌then◌else◌, update,
}

abbrev pub input_buf : ℕ
input_buf = 128

abbrev pub newline : ℕ
newline = 10

abbrev pub ctrl_d : ℕ
ctrl_d = 4

pub record Input : Type 0 where
  pub buf : ℕ → ℕ
  pub r : ℕ
  pub w : ℕ
  pub e : ℕ

-- The difference of two counters.
abbrev pub sub_uint : ℕ → ℕ → ℕ
sub_uint a b = (a + (2 ^ 32 - b)) % 2 ^ 32

-- The loop of control-U, with enough steps for every character of the line.
pub kill_line : ℕ → Input → Input
kill_line zero s = s
kill_line (suc n) s =
    let rest = kill_line n (record s { e = sub_uint s.e 1 }) in
    if not (s.e == s.w) && not (s.buf (sub_uint s.e 1 % input_buf) == newline) then rest else s

-- The last case of the switch. Whether the reader is woken, and the buffer.
pub put_char : ℕ → Input → Bool × Input
put_char c s =
    if not (c == 0) && ltb (sub_uint s.e s.r) input_buf
    then (let c = if c == 13 then newline else c in
        let s' = record s { buf = update s.buf (s.e % input_buf) c; e = (s.e + 1) % 2 ^ 32 } in
        if ((c == newline) || (c == ctrl_d)) || (s'.e == (s.r + input_buf) % 2 ^ 32)
        then (true, record s' { w = s'.e })
        else (false, s'))
    else (false, s)

-- One turn of the loop of `consoleintr`: control-P, control-U, control-H or delete, and the rest.
pub type_char : ℕ → Input → Bool × Input
type_char c s =
    if c == 16
    then (false, s)
    else if c == 21
    then (false, kill_line input_buf s)
    else if (c == 8) || (c == 127)
    then (false, if s.e == s.w then s else record s { e = sub_uint s.e 1 })
    else put_char c s

-- `consoleintr`, for the characters that `getc` returns before a negative number.
pub consoleintr : List ℕ → Input → Input
consoleintr [] s = s
consoleintr (c ∷ cs) s = consoleintr cs (type_char c s).1

-- The loop of `consoleread` for `n` more bytes: those it stores before it returns or would sleep, and
-- whether it returns. A killed process returns -1 where it would sleep. `fresh` says that it has
-- stored none so far.
pub read_loop : ℕ → Bool → Input → List ℕ × Bool × Input
read_loop zero fresh s = ([], true, s)
read_loop (suc n) fresh s =
    let c = s.buf (s.r % input_buf) in
    let s' = record s { r = (s.r + 1) % 2 ^ 32 } in
    let rest = read_loop n false s' in
    if s.r == s.w
    then ([], false, s)
    else if c == ctrl_d
    then ([], true, if fresh then s' else s)
    else if c == newline
    then (c ∷ [], true, s')
    else (c ∷ rest.0, rest.1, rest.2)

pub consoleread : ℕ → Input → List ℕ × Bool × Input
consoleread n s = read_loop n true s

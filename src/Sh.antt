-- ===== src/Sh.antt =====
-- xv6-public/sh.c: the parser of the shell.
-- The pointer `*ps` into the line is the text that is left, up to the end `es`. A word is its text, from
-- `q` to `eq`. The commands that `parseredirs` wraps around a simple command while `parseexec` still
-- adds arguments to it are kept as a list, the innermost first.
pub mod Shorter
pub mod Ends
pub mod Print
pub mod Tokens
pub mod Words
pub mod Pieces
pub mod Roundtrip
use basic_os.Prelude.{
  ℕ, zero, suc, ◌+◌, ◌≤◌, Bool, true, false, not, ◌&&◌, ◌||◌, List, [], ◌∷◌, ◌++◌, ◌==◌, leb,
  if◌then◌else◌, length,
}

-- A redirection: its word and the arguments `mode` and `fd` of `redircmd`
pub record Redir : Type 0 where
  pub file : List ℕ
  pub mode : ℕ
  pub fd : ℕ

-- `struct cmd` and the types that extend it
pub data Cmd : Type 0 where
  exec : List (List ℕ) → Cmd
  redir : Cmd → Redir → Cmd
  pipe list : Cmd → Cmd → Cmd
  back : Cmd → Cmd

-- The panics of the parser
pub data Fault : Type 0 where
  missing_file no_block no_paren bad_token too_many leftovers : Fault

pub data Result {ℓ} (A : Type ℓ) : Type ℓ where
  ok : A → Result A
  failed : Fault → Result A
  out_of_fuel : Result A

abbrev pub bind {ℓ κ} : {A : Type ℓ} {B : Type κ} → Result A → (A → Result B) → Result B
bind (ok a) f = f a
bind (failed e) f = failed e
bind out_of_fuel f = out_of_fuel

-- MAXARGS, O_RDONLY, and O_WRONLY|O_CREATE
abbrev pub max_args : ℕ
max_args = 10

abbrev pub o_rdonly : ℕ
o_rdonly = 0

abbrev pub o_wronly_create : ℕ
o_wronly_create = 0x201

-- `strchr(s, c)` as a test
abbrev pub is_in : List ℕ → ℕ → Bool
is_in [] c = false
is_in (d ∷ ds) c = (d == c) || is_in ds c

abbrev pub whitespace : List ℕ
whitespace = b' ' ∷ 9 ∷ 13 ∷ 10 ∷ 11 ∷ []

abbrev pub symbols : List ℕ
symbols = b'<' ∷ b'|' ∷ b'>' ∷ b'&' ∷ b';' ∷ b'(' ∷ b')' ∷ []

-- The loops over white space, and over a word
unfoldable pub skip : List ℕ → List ℕ
skip [] = []
skip (c ∷ s) = if is_in whitespace c then skip s else c ∷ s

unfoldable pub word : List ℕ → List ℕ
word [] = []
word (c ∷ s) = if not (is_in whitespace c) && not (is_in symbols c) then c ∷ word s else []

unfoldable pub after_word : List ℕ → List ℕ
after_word [] = []
after_word (c ∷ s) =
    if not (is_in whitespace c) && not (is_in symbols c) then after_word s else c ∷ s

-- What `gettoken` returns, the text between `q` and `eq`, and the new `*ps`
pub record Token : Type 0 where
  pub ret : ℕ
  pub text : List ℕ
  pub left : List ℕ

abbrev pub right_angle : List ℕ → Token
right_angle [] = record { ret = b'>'; text = b'>' ∷ []; left = [] }
right_angle (c ∷ s) =
    if c == b'>'
    then record { ret = b'+'; text = b'>' ∷ b'>' ∷ []; left = skip s }
    else record { ret = b'>'; text = b'>' ∷ []; left = skip (c ∷ s) }

abbrev pub token_at : List ℕ → Token
token_at [] = record { ret = 0; text = []; left = [] }
token_at (c ∷ s) =
    if is_in (b'|' ∷ b'(' ∷ b')' ∷ b';' ∷ b'&' ∷ b'<' ∷ []) c
    then record { ret = c; text = c ∷ []; left = skip s }
    else if c == b'>'
    then right_angle s
    else record { ret = b'a'; text = word (c ∷ s); left = skip (after_word (c ∷ s)) }

unfoldable pub gettoken : List ℕ → Token
gettoken s = token_at (skip s)

-- `peek`, once `*ps` has moved over white space
abbrev pub starts : List ℕ → List ℕ → Bool
starts toks [] = false
starts toks (c ∷ s) = is_in toks c

-- The switch of `parseredirs`
abbrev pub redir_of : ℕ → List ℕ → Redir
redir_of tok w =
    if tok == b'<'
    then record { file = w; mode = o_rdonly; fd = 0 }
    else record { file = w; mode = o_wronly_create; fd = 1 }

unfoldable pub parse_redirs : ℕ → List Redir → List ℕ → Result (List Redir × List ℕ)
parse_redirs zero rs s = out_of_fuel
parse_redirs (suc n) rs s =
    let s0 = skip s in
    let tok = gettoken s0 in
    let w = gettoken tok.left in
    let more = parse_redirs n (rs ++ (redir_of tok.ret w.text ∷ [])) w.left in
    if not (starts (b'<' ∷ b'>' ∷ []) s0)
    then ok (rs, s0)
    else if not (w.ret == b'a')
    then failed missing_file
    else more

abbrev pub wrap : Cmd → List Redir → Cmd
wrap c [] = c
wrap c (r ∷ rs) = wrap (redir c r) rs

-- The loop of `parseexec`
unfoldable pub parse_args :
    ℕ → List (List ℕ) → List Redir → List ℕ → Result ((List (List ℕ) × List Redir) × List ℕ)
parse_args zero argv rs s = out_of_fuel
parse_args (suc n) argv rs s =
    let s0 = skip s in
    let t = gettoken s0 in
    let more =
      bind (parse_redirs (suc (length t.left)) rs t.left)
        (λ (rs', s'). parse_args n (argv ++ (t.text ∷ [])) rs' s') in
    if starts (b'|' ∷ b')' ∷ b'&' ∷ b';' ∷ []) s0
    then ok ((argv, rs), s0)
    else if t.ret == 0
    then ok ((argv, rs), t.left)
    else if not (t.ret == b'a')
    then failed bad_token
    else if leb max_args (length argv + 1)
    then failed too_many
    else more

-- `parseblock`, for the `parseline` that it calls
unfoldable pub parse_block : (List ℕ → Result (Cmd × List ℕ)) → List ℕ → Result (Cmd × List ℕ)
parse_block line s =
    let s0 = skip s in
    if not (starts (b'(' ∷ []) s0)
    then failed no_block
    else bind (line (gettoken s0).left) (λ (c, s').
      let s1 = skip s' in
      let rest = (gettoken s1).left in
      if not (starts (b')' ∷ []) s1)
      then failed no_paren
      else bind (parse_redirs (suc (length rest)) [] rest) (λ (rs, s''). ok (wrap c rs, s'')))

-- `parseexec`
unfoldable pub parse_exec : (List ℕ → Result (Cmd × List ℕ)) → List ℕ → Result (Cmd × List ℕ)
parse_exec line s =
    let s0 = skip s in
    if starts (b'(' ∷ []) s0
    then parse_block line s0
    else bind (parse_redirs (suc (length s0)) [] s0) (λ (rs, s1).
      bind (parse_args (suc (length s1)) [] rs s1)
        (λ ((argv, rs'), s2). ok (wrap (exec argv) rs', s2)))

-- `parsepipe`
unfoldable pub parse_pipe : (List ℕ → Result (Cmd × List ℕ)) → ℕ → List ℕ → Result (Cmd × List ℕ)
parse_pipe line zero s = out_of_fuel
parse_pipe line (suc n) s = bind (parse_exec line s) (λ (c, s').
    let s1 = skip s' in
    let more = bind (parse_pipe line n (gettoken s1).left) (λ (d, s2). ok (pipe c d, s2)) in
    if starts (b'|' ∷ []) s1 then more else ok (c, s1))

-- The loop of `parseline`
unfoldable pub parse_backs : ℕ → Cmd → List ℕ → Result (Cmd × List ℕ)
parse_backs zero c s = out_of_fuel
parse_backs (suc n) c s =
    let s0 = skip s in
    let more = parse_backs n (back c) (gettoken s0).left in
    if starts (b'&' ∷ []) s0 then more else ok (c, s0)

-- `parseline`
unfoldable pub parse_line : ℕ → List ℕ → Result (Cmd × List ℕ)
parse_line zero s = out_of_fuel
parse_line (suc n) s = bind (parse_pipe (parse_line n) (suc (length s)) s) (λ (c, s1).
    bind (parse_backs (suc (length s1)) c s1) (λ (c', s2).
      let s3 = skip s2 in
      let more = bind (parse_line n (gettoken s3).left) (λ (d, s4). ok (list c' d, s4)) in
      if starts (b';' ∷ []) s3 then more else ok (c', s3)))

-- `parsecmd`
abbrev pub all_read : Cmd × List ℕ → Result Cmd
all_read (c, []) = ok c
all_read (c, x ∷ s) = failed leftovers

unfoldable pub parsecmd : List ℕ → Result Cmd
parsecmd s = bind (parse_line (suc (length s)) s) (λ (c, s'). all_read (c, skip s'))

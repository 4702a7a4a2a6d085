-- ===== src/Sh/Print.antt =====
-- The language of sh.c: commands as a user means them, their text, and the `struct cmd` they stand for.
use basic_os.Prelude.{
  ℕ, zero, suc, ◌<◌, ◌≡◌, Bool, true, not, ◌&&◌, List, [], ◌∷◌, ◌++◌, length, All,
}
use basic_os.Sh.{
  Cmd, list, back, pipe, exec, Redir, redir_of, is_in, whitespace, symbols, wrap, max_args,
}

pub data Angle : Type 0 where
  reads writes appends : Angle

-- A redirection, a word with the redirections behind it, and commands
pub record Angled : Type 0 where
  pub angle : Angle
  pub file : List ℕ

pub record Arg : Type 0 where
  pub text : List ℕ
  pub behind : List Angled

mutual
  pub data Line : Type 0 where
    last : Pipes → ℕ → Line
    seq : Pipes → ℕ → Line → Line

  pub data Pipes : Type 0 where
    one : Simple → Pipes
    more : Simple → Pipes → Pipes

  pub data Simple : Type 0 where
    command : List Angled → List Arg → Simple
    block : Line → List Angled → Simple

-- The text: words end in a space, and `&` stands as often as told.
abbrev pub angle_text : Angle → List ℕ → List ℕ
angle_text reads t = b'<' ∷ t
angle_text writes t = b'>' ∷ t
angle_text appends t = b'>' ∷ b'>' ∷ t

unfoldable pub angled_text : List Angled → List ℕ → List ℕ
angled_text [] t = t
angled_text (a ∷ xs) t = angle_text a.angle (a.file ++ (b' ' ∷ angled_text xs t))

unfoldable pub args_text : List Arg → List ℕ → List ℕ
args_text [] t = t
args_text (a ∷ xs) t = a.text ++ (b' ' ∷ angled_text a.behind (args_text xs t))

unfoldable pub amps_text : ℕ → List ℕ → List ℕ
amps_text zero t = t
amps_text (suc n) t = b'&' ∷ amps_text n t

unfoldable mutual
  pub line_text : Line → List ℕ → List ℕ
  line_text (last p n) t = pipes_text p (amps_text n t)
  line_text (seq p n l) t = pipes_text p (amps_text n (b';' ∷ line_text l t))

  pub pipes_text : Pipes → List ℕ → List ℕ
  pipes_text (one x) t = simple_text x t
  pipes_text (more x p) t = simple_text x (b'|' ∷ pipes_text p t)

  pub simple_text : Simple → List ℕ → List ℕ
  simple_text (command rs xs) t = angled_text rs (args_text xs t)
  simple_text (block l rs) t = b'(' ∷ line_text l (b')' ∷ angled_text rs t)

-- What it stands for
abbrev pub angle_token : Angle → ℕ
angle_token reads = b'<'
angle_token writes = b'>'
angle_token appends = b'+'

unfoldable pub angled_redirs : List Angled → List Redir
angled_redirs [] = []
angled_redirs (a ∷ xs) = redir_of (angle_token a.angle) a.file ∷ angled_redirs xs

unfoldable pub args_words : List Arg → List (List ℕ)
args_words [] = []
args_words (a ∷ xs) = a.text ∷ args_words xs

unfoldable pub args_redirs : List Arg → List Redir
args_redirs [] = []
args_redirs (a ∷ xs) = angled_redirs a.behind ++ args_redirs xs

unfoldable pub amps_cmd : ℕ → Cmd → Cmd
amps_cmd zero c = c
amps_cmd (suc n) c = amps_cmd n (back c)

unfoldable mutual
  pub line_cmd : Line → Cmd
  line_cmd (last p n) = amps_cmd n (pipes_cmd p)
  line_cmd (seq p n l) = list (amps_cmd n (pipes_cmd p)) (line_cmd l)

  pub pipes_cmd : Pipes → Cmd
  pipes_cmd (one x) = simple_cmd x
  pipes_cmd (more x p) = pipe (simple_cmd x) (pipes_cmd p)

  pub simple_cmd : Simple → Cmd
  simple_cmd (command rs xs) = wrap (exec (args_words xs)) (angled_redirs rs ++ args_redirs xs)
  simple_cmd (block l rs) = wrap (line_cmd l) (angled_redirs rs)

-- Words have a character, and none that ends a word; a command has fewer than `max_args` of them.
abbrev pub plain : ℕ → Bool
plain c = not (is_in whitespace c) && not (is_in symbols c)

abbrev pub IsWord : List ℕ → Type 0
IsWord [] = ⊥
IsWord (c ∷ w) = (plain c ≡ true) × All (λ d. plain d ≡ true) w

abbrev pub IsAngled : Angled → Type 0
IsAngled a = IsWord a.file

abbrev pub IsArg : Arg → Type 0
IsArg a = IsWord a.text × All IsAngled a.behind

abbrev mutual
  pub IsLine : Line → Type 0
  IsLine (last p n) = IsPipes p
  IsLine (seq p n l) = IsPipes p × IsLine l

  pub IsPipes : Pipes → Type 0
  IsPipes (one x) = IsSimple x
  IsPipes (more x p) = IsSimple x × IsPipes p

  pub IsSimple : Simple → Type 0
  IsSimple (command rs xs) = All IsAngled rs × All IsArg xs × (length xs < max_args)
  IsSimple (block l rs) = IsLine l × All IsAngled rs

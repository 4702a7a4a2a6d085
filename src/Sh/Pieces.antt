-- ===== src/Sh/Pieces.antt =====
-- The functions of the parser of sh.c on the pieces of a printed command.
use basic_os.Prelude.{
  ℕ, zero, suc, ◌<◌, ◌≡◌, refl, ap, ◌∙◌, arith, true, false, List, [], ◌∷◌, ◌++◌, length, All,
}
use basic_os.Sh.{Cmd, back, skip, Result, ok, gettoken, starts, parse_exec, parse_backs}
use basic_os.Sh.Print.{
  command, Angle, reads, writes, appends, angle_text, Angled, Arg, angled_text, args_text,
  amps_text, simple_text, angled_redirs, amps_cmd, simple_cmd, IsAngled, IsArg, IsSimple,
}
use basic_os.Sh.Tokens.{skip_word, symbol_left}
use basic_os.Sh.Shorter.{skip-skip, gettoken_peeked}
use basic_os.Sh.Words.{
  stops, ends_exec, angles, redirs_lem, args_lem, args_start, starts_word, skip_angle,
}

-- What a command of each kind may be followed by
abbrev pub ends_pipe : List ℕ
ends_pipe = b')' ∷ b'&' ∷ b';' ∷ []

abbrev pub ends_line : List ℕ
ends_line = b')' ∷ []

pub stops_pipe :
    (t : List ℕ)
    → stops ends_pipe t ≡ true
    → (stops ends_exec t ≡ true) × (starts (b'|' ∷ []) t ≡ false)
stops_pipe [] h = (refl, refl)
stops_pipe (c ∷ t) h = (ground (arith, h), ground (arith, h))

pub stops_line :
    (t : List ℕ)
    → stops ends_line t ≡ true
    → (stops ends_pipe t ≡ true) × (starts (b'&' ∷ []) t ≡ false) × (starts (b';' ∷ []) t ≡ false)
stops_line [] h = (refl, refl, refl)
stops_line (c ∷ t) h = (ground (arith, h), ground (arith, h), ground (arith, h))

pub stops_exec :
    (t : List ℕ)
    → stops ends_exec t ≡ true
    → (starts (b'(' ∷ []) t ≡ false) × (starts angles t ≡ false)
stops_exec [] h = (refl, refl)
stops_exec (c ∷ t) h = (ground (arith, h), ground (arith, h))

pub stops_amps :
    (n : ℕ) (t : List ℕ)
    → stops ends_pipe (skip t) ≡ true
    → stops ends_pipe (skip (amps_text n t)) ≡ true
unfolding amps_text skip
stops_amps zero t h = h
stops_amps (suc n) t h = refl

backs_step :
    (k : ℕ) (c : Cmd) (s u : List ℕ)
    → starts (b'&' ∷ []) (skip s) ≡ true
    → (gettoken (skip s)).left ≡ u
    → parse_backs (suc k) c s ≡ parse_backs k (back c) u
unfolding parse_backs
backs_step k c s u h g = rw (h, g) refl

pub backs_lem :
    (n k : ℕ) (c : Cmd) (s t : List ℕ)
    → skip s ≡ skip (amps_text n t)
    → starts (b'&' ∷ []) (skip t) ≡ false
    → length s < k
    → parse_backs k c s ≡ ok (amps_cmd n c, skip t)
unfolding amps_text amps_cmd parse_backs skip
backs_lem n zero c s t e h l = absurd (omega arith)
backs_lem zero (suc k) c s t e h l = rw (e, h) refl
backs_lem (suc n) (suc k) c s t e h l =
    let g = symbol_left (skip s) b'&' (amps_text n t) refl (skip-skip s ∙ e) in
    let lt = gettoken_peeked s (b'&' ∷ []) (ap (starts (b'&' ∷ [])) e) in
    backs_step k c s (skip (amps_text n t)) (ap (starts (b'&' ∷ [])) e) g
    ∙ backs_lem n k (back c) (skip (amps_text n t)) t (skip-skip (amps_text n t)) h
        (omega (arith, lt, l, ap length g))

no_paren_angle : (a : Angle) (t : List ℕ) → starts (b'(' ∷ []) (angle_text a t) ≡ false
no_paren_angle reads t = refl
no_paren_angle writes t = refl
no_paren_angle appends t = refl

-- A command of words and redirections does not begin with a parenthesis.
command_start :
    (rs : List Angled) (xs : List Arg) (t : List ℕ)
    → All IsAngled rs
    → All IsArg xs
    → stops ends_exec (skip t) ≡ true
    → starts (b'(' ∷ []) (skip (angled_text rs (args_text xs t))) ≡ false
unfolding angled_text args_text
command_start [] [] t a b h = (stops_exec (skip t) h).0
command_start [] (x ∷ xs) t a b h =
    rw (skip_word x.text (b' ' ∷ angled_text x.behind (args_text xs t)) b.0.0)
      (starts_word x.text _ (b'(' ∷ []) b.0.0 (λ c k. ground (arith, k)))
command_start (r ∷ rs) xs t a b h =
    rw (skip_angle r.angle (r.file ++ (b' ' ∷ angled_text rs (args_text xs t))))
      (no_paren_angle r.angle _)

pub command_lem :
    (line : List ℕ → Result (Cmd × List ℕ)) (rs : List Angled) (xs : List Arg) (s t : List ℕ)
    → IsSimple (command rs xs)
    → skip s ≡ skip (simple_text (command rs xs) t)
    → stops ends_exec (skip t) ≡ true
    → parse_exec line s ≡ ok (simple_cmd (command rs xs), skip t)
unfolding simple_text parse_exec simple_cmd
command_lem line rs xs s t h e st =
    let p = ap (starts (b'(' ∷ [])) e ∙ command_start rs xs t h.0 h.1 st in
    let r =
      redirs_lem rs (suc (length (skip s))) [] (skip s) (args_text xs t) h.0 (skip-skip s ∙ e)
        (args_start xs t h.1 st) (omega arith) in
    let a =
      args_lem xs (suc (length (skip (args_text xs t)))) [] (angled_redirs rs)
        (skip (args_text xs t)) t h.1 (skip-skip (args_text xs t)) st (omega (arith, h.2))
        (omega arith) in
    rw (p, r, a) refl

-- ===== src/Sh/Words.antt =====
-- Redirections and arguments: what the loops of sh.c make of their text.
use basic_os.Prelude.{
  ℕ, zero, suc, ◌+◌, ◌<◌, ◌≡◌, ◌≢◌, refl, sym, ap, ap₂, ◌∙◌, arith, Bool, true, false, List, [],
  ◌∷◌, ◌++◌, leb, length, length-append, All,
}
use mathlib.Core.List.{append-nil, append_assoc}
use basic_os.Sh.{
  is_in, symbols, skip, Redir, redir_of, max_args, ok, Token, gettoken, starts, parse_redirs,
  parse_args,
}
use basic_os.Sh.Print.{
  IsWord, Angle, reads, writes, appends, angle_text, angle_token, Angled, Arg, angled_text,
  args_text, angled_redirs, args_words, args_redirs, IsAngled, IsArg,
}
use basic_os.Sh.Tokens.{skip_word, word_token, angle_tok}
use basic_os.Sh.Ends.{parse_redirs-Fits}
use basic_os.Sh.Shorter.{
  skip-skip, gettoken_peeked, length-gettoken, length-skip, gettoken_ret, Fits-ok,
}

-- The text ends, or goes on with one of `toks`.
abbrev pub stops : List ℕ → List ℕ → Bool
stops toks [] = true
stops toks (c ∷ s) = is_in toks c

-- The token lists that the parser peeks for
abbrev pub angles : List ℕ
angles = b'<' ∷ b'>' ∷ []

abbrev pub ends_exec : List ℕ
ends_exec = b'|' ∷ b')' ∷ b'&' ∷ b';' ∷ []

redirs_step :
    (n : ℕ) (rs : List Redir) (s : List ℕ) (r : ℕ) (w l : List ℕ)
    → starts angles (skip s) ≡ true
    → (gettoken (skip s)).ret ≡ r
    → gettoken (gettoken (skip s)).left ≡ record { ret = b'a'; text = w; left = l }
    → parse_redirs (suc n) rs s ≡ parse_redirs n (rs ++ (redir_of r w ∷ [])) l
unfolding parse_redirs
redirs_step n rs s r w l h e f = rw (h, e, f) refl

pub skip_angle : (a : Angle) (t : List ℕ) → skip (angle_text a t) ≡ angle_text a t
unfolding skip
skip_angle reads t = refl
skip_angle writes t = refl
skip_angle appends t = refl

starts_angle : (a : Angle) (t : List ℕ) → starts angles (angle_text a t) ≡ true
starts_angle reads t = refl
starts_angle writes t = refl
starts_angle appends t = refl

pub redirs_lem :
    (xs : List Angled) (n : ℕ) (rs : List Redir) (s t : List ℕ)
    → All IsAngled xs
    → skip s ≡ skip (angled_text xs t)
    → starts angles (skip t) ≡ false
    → length s < n
    → parse_redirs n rs s ≡ ok (rs ++ angled_redirs xs, skip t)
unfolding angled_text angled_redirs parse_redirs
redirs_lem xs zero rs s t a e h l = absurd (omega arith)
redirs_lem [] (suc n) rs s t a e h l = rw (e, h, append-nil rs) refl
redirs_lem (x ∷ xs) (suc n) rs s t a e h l =
    let u = b' ' ∷ angled_text xs t in
    let p : skip s ≡ angle_text x.angle (x.file ++ u) = e ∙ skip_angle x.angle (x.file ++ u) in
    let k = angle_tok (skip s) x.angle x.file u a.0 (skip-skip s ∙ p) in
    let w =
      word_token (gettoken (skip s)).left x.file (angled_text xs t) a.0
        (ap skip k.1 ∙ skip_word x.file u a.0) in
    let y = ap (starts angles) p ∙ starts_angle x.angle (x.file ++ u) in
    let lt : length (skip (angled_text xs t)) < length s = omega (
      arith,
      gettoken_peeked s angles y,
      length-gettoken (gettoken (skip s)).left,
      ap (λ (z : Token). length z.left) w,
    ) in
    redirs_step n rs s (angle_token x.angle) x.file (skip (angled_text xs t)) y k.0 w
    ∙ redirs_lem xs n (rs ++ (redir_of (angle_token x.angle) x.file ∷ [])) (skip (angled_text xs t))
        t a.1 (skip-skip (angled_text xs t)) h (omega (arith, lt, l))
    ∙ ap (λ z. ok (z, skip t))
        (append_assoc rs (redir_of (angle_token x.angle) x.file ∷ []) (angled_redirs xs))

args_step :
    (n : ℕ) (argv : List (List ℕ)) (rs rs' : List Redir) (s w l l' : List ℕ)
    → starts ends_exec (skip s) ≡ false
    → gettoken (skip s) ≡ record { ret = b'a'; text = w; left = l }
    → length argv + 1 < max_args
    → parse_redirs (suc (length l)) rs l ≡ ok (rs', l')
    → parse_args (suc n) argv rs s ≡ parse_args n (argv ++ (w ∷ [])) rs' l'
unfolding parse_args
args_step n argv rs rs' s w l l' h e c f =
    let k : leb max_args (length argv + 1) ≡ false = ground (arith, c) in rw (h, e, k, f) refl

-- A word is no symbol.
pub starts_word :
    (w u toks : List ℕ)
    → IsWord w
    → ((c : ℕ) → is_in toks c ≡ true → is_in symbols c ≡ true)
    → starts toks (w ++ u) ≡ false
starts_word [] u toks h k = absurd h
starts_word (c ∷ w) u toks h k = ground (arith, h.0, k c)

stops-angles : (t : List ℕ) → stops ends_exec t ≡ true → starts angles t ≡ false
stops-angles [] h = refl
stops-angles (c ∷ t) h = ground (arith, h)

angle_symbol : (c : ℕ) → is_in angles c ≡ true → is_in symbols c ≡ true
angle_symbol c h = ground (arith, h)

pub end_symbol : (c : ℕ) → is_in ends_exec c ≡ true → is_in symbols c ≡ true
end_symbol c h = ground (arith, h)

-- Where the arguments begin there is no redirection.
pub args_start :
    (xs : List Arg) (t : List ℕ)
    → All IsArg xs
    → stops ends_exec (skip t) ≡ true
    → starts angles (skip (args_text xs t)) ≡ false
unfolding args_text
args_start [] t a h = stops-angles (skip t) h
args_start (x ∷ xs) t a h =
    rw (skip_word x.text (b' ' ∷ angled_text x.behind (args_text xs t)) a.0.0)
      (starts_word x.text _ angles a.0.0 (λ c. angle_symbol c))

number_differs : (n : ℕ) → n ≡ b'a' → n ≢ 0
number_differs n e z = omega (arith, e, z)

args_end :
    (n : ℕ) (argv : List (List ℕ)) (rs : List Redir) (s t : List ℕ)
    → skip s ≡ t
    → stops ends_exec t ≡ true
    → parse_args (suc n) argv rs s ≡ ok ((argv, rs), t)
unfolding parse_args gettoken
args_end n argv rs s [] e h = rw (skip-skip s, e) refl
args_end n argv rs s (c ∷ t) e h = rw (e, h) refl

pub args_lem :
    (xs : List Arg) (n : ℕ) (argv : List (List ℕ)) (rs : List Redir) (s t : List ℕ)
    → All IsArg xs
    → skip s ≡ skip (args_text xs t)
    → stops ends_exec (skip t) ≡ true
    → length argv + length xs < max_args
    → length s < n
    → parse_args n argv rs s ≡ ok ((argv ++ args_words xs, rs ++ args_redirs xs), skip t)
unfolding args_text args_words args_redirs
args_lem xs zero argv rs s t a e h c l = absurd (omega arith)
args_lem [] (suc n) argv rs s t a e h c l =
    args_end n argv rs s (skip t) e h
    ∙ ap₂ (λ y z. ok ((y, z), skip t)) (sym (append-nil argv)) (sym (append-nil rs))
args_lem (x ∷ xs) (suc n) argv rs s t a e h c l =
    let v = angled_text x.behind (args_text xs t) in
    let p : skip s ≡ x.text ++ (b' ' ∷ v) = e ∙ skip_word x.text (b' ' ∷ v) a.0.0 in
    let w = word_token (skip s) x.text v a.0.0 (skip-skip s ∙ p) in
    let q =
      ap (starts ends_exec) p ∙ starts_word x.text (b' ' ∷ v) ends_exec a.0.0 (λ d. end_symbol d) in
    let r =
      redirs_lem x.behind (suc (length (skip v))) rs (skip v) (args_text xs t) a.0.1 (skip-skip v)
        (args_start xs t a.1 h) (omega arith) in
    let lt : length (skip (args_text xs t)) < length s = omega (
      arith,
      gettoken_ret (skip s) (number_differs _ (ap (λ (y : Token). y.ret) w)),
      length-skip s,
      ap (λ (y : Token). length y.left) w,
      Fits-ok _ _ (parse_redirs-Fits (suc (length (skip v))) rs (skip v) (omega arith)) r,
    ) in
    args_step n argv rs (rs ++ angled_redirs x.behind) s x.text (skip v) (skip (args_text xs t)) q w
      (omega (arith, c)) r
    ∙ args_lem xs n (argv ++ (x.text ∷ [])) (rs ++ angled_redirs x.behind) (skip (args_text xs t)) t
        a.1 (skip-skip (args_text xs t)) h (omega (arith, c, length-append argv (x.text ∷ [])))
        (omega (arith, lt, l))
    ∙ ap₂ (λ y z. ok ((y, z), skip t)) (append_assoc argv (x.text ∷ []) (args_words xs))
        (append_assoc rs (angled_redirs x.behind) (args_redirs xs))

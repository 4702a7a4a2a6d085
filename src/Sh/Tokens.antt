-- ===== src/Sh/Tokens.antt =====
-- What `gettoken` of sh.c makes of printed tokens.
use basic_os.Prelude.{ℕ, ◌≡◌, refl, ap, ◌∙◌, arith, true, false, List, [], ◌∷◌, ◌++◌, ◌==◌, All}
use basic_os.Sh.{is_in, whitespace, skip, word, after_word, token_at, gettoken}
use basic_os.Sh.Print.{plain, IsWord, Angle, reads, writes, appends, angle_text, angle_token}

word-append : (w u : List ℕ) → All (λ d. plain d ≡ true) w → word (w ++ (b' ' ∷ u)) ≡ w
unfolding word
word-append [] u h = refl
word-append (c ∷ w) u h = rw h.0 (ap (λ t. c ∷ t) (word-append w u h.1))

after_word-append :
    (w u : List ℕ) → All (λ d. plain d ≡ true) w → after_word (w ++ (b' ' ∷ u)) ≡ b' ' ∷ u
unfolding after_word
after_word-append [] u h = refl
after_word-append (c ∷ w) u h = rw h.0 (after_word-append w u h.1)

-- A word is no white space, so that `skip` stands still.
pub skip_word : (w u : List ℕ) → IsWord w → skip (w ++ u) ≡ w ++ u
unfolding skip
skip_word [] u h = absurd h
skip_word (c ∷ w) u h = let e : is_in whitespace c ≡ false = ground (arith, h.0) in rw e refl

pub word_token :
    (s w u : List ℕ)
    → IsWord w
    → skip s ≡ w ++ (b' ' ∷ u)
    → gettoken s ≡ record { ret = b'a'; text = w; left = skip u }
unfolding gettoken word after_word skip
word_token s [] u h e = absurd h
word_token s (c ∷ w) u h e =
    let p : is_in (b'|' ∷ b'(' ∷ b')' ∷ b';' ∷ b'&' ∷ b'<' ∷ []) c ≡ false = ground (arith, h.0) in
    let q : (c == b'>') ≡ false = ground (arith, h.0) in
    ap token_at e ∙ rw (p, q) (rw (h.0, word-append w u h.1, after_word-append w u h.1) refl)

pub angle_tok :
    (s : List ℕ) (a : Angle) (w u : List ℕ)
    → IsWord w
    → skip s ≡ angle_text a (w ++ u)
    → ((gettoken s).ret ≡ angle_token a) × ((gettoken s).left ≡ w ++ u)
unfolding gettoken
angle_tok s reads w u h e = rw e (refl, skip_word w u h)
angle_tok s writes [] u h e = absurd h
angle_tok s writes (c ∷ w) u h e =
    let q : (c == b'>') ≡ false = ground (arith, h.0) in rw e (rw q (refl, skip_word (c ∷ w) u h))
angle_tok s appends w u h e = rw e (refl, skip_word w u h)

-- A symbol of one character.
pub symbol_left :
    (s : List ℕ) (c : ℕ) (u : List ℕ)
    → is_in (b'|' ∷ b'(' ∷ b')' ∷ b';' ∷ b'&' ∷ b'<' ∷ []) c ≡ true
    → skip s ≡ c ∷ u
    → (gettoken s).left ≡ skip u
unfolding gettoken
symbol_left s c u h e = rw e (rw h refl)

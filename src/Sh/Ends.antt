-- ===== src/Sh/Ends.antt =====
-- The parser of sh.c keeps within its fuel.
use basic_os.Prelude.{ℕ, zero, suc, ◌+◌, ◌<◌, ◌≢◌, arith, not, List, [], ◌∷◌, ◌==◌, leb, length}
use basic_os.Sh.{
  Cmd, back, Redir, Result, out_of_fuel, bind, skip, gettoken, starts, parse_redirs, parse_args,
  parse_block, parse_exec, parse_pipe, parse_backs, parse_line, all_read, parsecmd, max_args,
}
use basic_os.Sh.Shorter.{
  length-skip, length-gettoken, gettoken_peeked, gettoken_ret, Fits, Fits-bind, Fits-le, Fits-if,
  not-false, fits, fails,
}

pub parse_redirs-Fits :
    (n : ℕ) (rs : List Redir) (s : List ℕ) → length s < n → Fits (length s) (parse_redirs n rs s)
unfolding parse_redirs
parse_redirs-Fits zero rs s l = absurd (omega arith)
parse_redirs-Fits (suc n) rs s l =
    let t = gettoken (skip s) in
    let w = gettoken t.left in
    Fits-if (not (starts (b'<' ∷ b'>' ∷ []) (skip s))) (λ h. fits (length-skip s))
      (λ h.
        Fits-if (not (w.ret == b'a')) (λ k. fails)
          (λ k.
            let le : length w.left < length s = omega (
              arith,
              length-gettoken t.left,
              gettoken_peeked s (b'<' ∷ b'>' ∷ []) (not-false _ h),
            ) in
            Fits-le (parse_redirs-Fits n _ w.left (omega (arith, l, le))) (omega (arith, le))))

pub parse_args-Fits :
    (n : ℕ) (argv : List (List ℕ)) (rs : List Redir) (s : List ℕ)
    → length s < n
    → Fits (length s) (parse_args n argv rs s)
unfolding parse_args
parse_args-Fits zero argv rs s l = absurd (omega arith)
parse_args-Fits (suc n) argv rs s l =
    let t = gettoken (skip s) in
    Fits-if (starts (b'|' ∷ b')' ∷ b'&' ∷ b';' ∷ []) (skip s)) (λ h. fits (length-skip s))
      (λ h.
        Fits-if (t.ret == 0) (λ z. fits (omega (arith, length-gettoken (skip s), length-skip s)))
          (λ z.
            Fits-if (not (t.ret == b'a')) (λ k. fails)
              (λ k.
                Fits-if (leb max_args (length argv + 1)) (λ c. fails)
                  (λ c.
                    let lt : length t.left < length s =
                      omega (arith, gettoken_ret (skip s) (ground (arith, z)), length-skip s) in
                    Fits-bind _ (parse_redirs-Fits (suc (length t.left)) rs t.left (omega arith))
                      (λ rs' s' le.
                        Fits-le (parse_args-Fits n _ rs' s' (omega (arith, le, lt, l)))
                          (omega (arith, le, lt)))))))

-- What is asked of the `parseline` that the others call, on texts of fewer than `n` characters.
abbrev pub Lines : ℕ → (List ℕ → Result (Cmd × List ℕ)) → Type 0
Lines n line = (s : List ℕ) → length s < n → Fits (length s) (line s)

pub parse_block-Fits :
    (line : List ℕ → Result (Cmd × List ℕ)) (s : List ℕ)
    → Lines (length s) line
    → Fits (length s) (parse_block line s)
unfolding parse_block
parse_block-Fits line s hl =
    Fits-if (not (starts (b'(' ∷ []) (skip s))) (λ h. fails)
      (λ h.
        let lt : length (gettoken (skip s)).left < length s =
          gettoken_peeked s (b'(' ∷ []) (not-false _ h) in
        Fits-bind _ (hl (gettoken (skip s)).left lt) (λ c s' le.
          Fits-if (not (starts (b')' ∷ []) (skip s'))) (λ k. fails)
            (λ k.
              let rest = (gettoken (skip s')).left in
              Fits-bind _ (parse_redirs-Fits (suc (length rest)) [] rest (omega arith)) (λ rs s2 l2.
                fits (omega (arith, l2, le, lt, length-gettoken (skip s'), length-skip s'))))))

pub parse_exec-Fits :
    (line : List ℕ → Result (Cmd × List ℕ)) (s : List ℕ)
    → Lines (length s) line
    → Fits (length s) (parse_exec line s)
unfolding parse_exec
parse_exec-Fits line s hl =
    Fits-if (starts (b'(' ∷ []) (skip s))
      (λ h.
        Fits-le (parse_block-Fits line (skip s) (λ t l. hl t (omega (arith, l, length-skip s))))
          (length-skip s))
      (λ h.
        Fits-bind _ (parse_redirs-Fits (suc (length (skip s))) [] (skip s) (omega arith))
          (λ rs s1 l1.
            Fits-bind _ (parse_args-Fits (suc (length s1)) [] rs s1 (omega arith))
              (λ a s2 l2. fits (omega (arith, l1, l2, length-skip s)))))

pub parse_pipe-Fits :
    (line : List ℕ → Result (Cmd × List ℕ)) (n : ℕ) (s : List ℕ)
    → Lines (length s) line
    → length s < n
    → Fits (length s) (parse_pipe line n s)
unfolding parse_pipe
parse_pipe-Fits line zero s hl l = absurd (omega arith)
parse_pipe-Fits line (suc n) s hl l = Fits-bind _ (parse_exec-Fits line s hl) (λ c s' le.
    Fits-if (starts (b'|' ∷ []) (skip s'))
      (λ h.
        let lt : length (gettoken (skip s')).left < length s =
          omega (arith, le, gettoken_peeked s' (b'|' ∷ []) h) in
        Fits-bind _
          (parse_pipe-Fits line n (gettoken (skip s')).left (λ t k. hl t (omega (arith, k, lt)))
            (omega (arith, lt, l)))
          (λ d s2 l2. fits (omega (arith, l2, lt))))
      (λ h. fits (omega (arith, le, length-skip s'))))

pub parse_backs-Fits :
    (n : ℕ) (c : Cmd) (s : List ℕ) → length s < n → Fits (length s) (parse_backs n c s)
unfolding parse_backs
parse_backs-Fits zero c s l = absurd (omega arith)
parse_backs-Fits (suc n) c s l =
    Fits-if (starts (b'&' ∷ []) (skip s))
      (λ h.
        let lt = gettoken_peeked s (b'&' ∷ []) h in
        Fits-le (parse_backs-Fits n (back c) (gettoken (skip s)).left (omega (arith, lt, l)))
          (omega (arith, lt)))
      (λ h. fits (length-skip s))

pub parse_line-Fits : (n : ℕ) → Lines n (parse_line n)
unfolding parse_line
parse_line-Fits zero s l = absurd (omega arith)
parse_line-Fits (suc n) s l =
    Fits-bind _
      (parse_pipe-Fits (parse_line n) (suc (length s)) s
        (λ t k. parse_line-Fits n t (omega (arith, k, l))) (omega arith))
      (λ c s1 l1. Fits-bind _ (parse_backs-Fits (suc (length s1)) c s1 (omega arith)) (λ c' s2 l2.
        Fits-if (starts (b';' ∷ []) (skip s2))
          (λ h.
            let lt = gettoken_peeked s2 (b';' ∷ []) h in
            Fits-bind _ (parse_line-Fits n (gettoken (skip s2)).left (omega (arith, lt, l2, l1, l)))
              (λ d s4 l4. fits (omega (arith, l4, lt, l2, l1))))
          (λ h. fits (omega (arith, l1, l2, length-skip s2)))))

all_read_lem : (r : Cmd × List ℕ) → all_read r ≢ out_of_fuel
all_read_lem (c, []) e = cc
all_read_lem (c, x ∷ s) e = cc

ends :
    (n : ℕ) (r : Result (Cmd × List ℕ))
    → Fits n r
    → bind r (λ (c, s'). all_read (c, skip s')) ≢ out_of_fuel
ends n r (fits {a} {s} h) = all_read_lem (a, skip s)
ends n r fails = λ e. cc

-- `parsecmd` comes to an end on every line: within its fuel it returns a command or ends in one of its
-- panics.
pub parsecmd_lem : (s : List ℕ) → parsecmd s ≢ out_of_fuel
unfolding parsecmd
parsecmd_lem s = ends (length s) _ (parse_line-Fits (suc (length s)) s (omega arith))

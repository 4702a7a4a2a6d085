-- ===== src/Sh/Roundtrip.antt =====
-- The parser of sh.c gives back the command whose text it reads.
use basic_os.Prelude.{
  ℕ, zero, suc, ◌≤◌, ◌<◌, ◌≡◌, refl, ap, ◌∙◌, arith, true, false, List, [], ◌∷◌, length,
}
use basic_os.Sh.{
  Cmd, list, pipe, skip, Redir, wrap, Result, ok, bind, gettoken, starts, parse_redirs, parse_block,
  parse_exec, parse_pipe, parse_backs, parse_line, all_read, parsecmd,
}
use basic_os.Sh.Print.{
  Line, last, seq, Pipes, one, more, Simple, command, block, angled_text, amps_text, line_text,
  pipes_text, simple_text, angled_redirs, amps_cmd, line_cmd, pipes_cmd, simple_cmd, IsLine,
  IsPipes, IsSimple,
}
use basic_os.Sh.Tokens.{symbol_left}
use basic_os.Sh.Ends.{parse_exec-Fits, parse_pipe-Fits, parse_backs-Fits, parse_line-Fits}
use basic_os.Sh.Shorter.{skip-skip, gettoken_peeked, length-skip, Fits-ok}
use basic_os.Sh.Words.{stops, ends_exec, redirs_lem}
use basic_os.Sh.Pieces.{
  ends_pipe, ends_line, stops_pipe, stops_line, stops_exec, stops_amps, backs_lem, command_lem,
}

block_step :
    (line : List ℕ → Result (Cmd × List ℕ)) (s s' u t : List ℕ) (c : Cmd) (rs : List Redir)
    → starts (b'(' ∷ []) (skip s) ≡ true
    → line (gettoken (skip s)).left ≡ ok (c, s')
    → starts (b')' ∷ []) (skip s') ≡ true
    → (gettoken (skip s')).left ≡ u
    → parse_redirs (suc (length u)) [] u ≡ ok (rs, t)
    → parse_block line s ≡ ok (wrap c rs, t)
unfolding parse_block
block_step line s s' u t c rs h e k g r = rw (h, e, k, g, r) refl

exec_block :
    (line : List ℕ → Result (Cmd × List ℕ)) (s : List ℕ)
    → starts (b'(' ∷ []) (skip s) ≡ true
    → parse_exec line s ≡ parse_block line (skip s)
unfolding parse_exec
exec_block line s h = rw h refl

pipe_end :
    (line : List ℕ → Result (Cmd × List ℕ)) (k : ℕ) (s t : List ℕ) (c : Cmd)
    → parse_exec line s ≡ ok (c, skip t)
    → starts (b'|' ∷ []) (skip t) ≡ false
    → parse_pipe line (suc k) s ≡ ok (c, skip t)
unfolding parse_pipe
pipe_end line k s t c e h = rw (e, skip-skip t, h) refl

pipe_step :
    (line : List ℕ → Result (Cmd × List ℕ)) (k : ℕ) (s s' u t : List ℕ) (c d : Cmd)
    → parse_exec line s ≡ ok (c, s')
    → starts (b'|' ∷ []) (skip s') ≡ true
    → (gettoken (skip s')).left ≡ u
    → parse_pipe line k u ≡ ok (d, t)
    → parse_pipe line (suc k) s ≡ ok (pipe c d, t)
unfolding parse_pipe
pipe_step line k s s' u t c d e h g r = rw (e, h, g, r) refl

line_end :
    (n : ℕ) (s s1 t : List ℕ) (c d : Cmd)
    → parse_pipe (parse_line n) (suc (length s)) s ≡ ok (c, s1)
    → parse_backs (suc (length s1)) c s1 ≡ ok (d, skip t)
    → starts (b';' ∷ []) (skip t) ≡ false
    → parse_line (suc n) s ≡ ok (d, skip t)
unfolding parse_line
line_end n s s1 t c d e f h = rw (e, f, skip-skip t, h) refl

line_step :
    (n : ℕ) (s s1 s2 u t : List ℕ) (c d b : Cmd)
    → parse_pipe (parse_line n) (suc (length s)) s ≡ ok (c, s1)
    → parse_backs (suc (length s1)) c s1 ≡ ok (d, s2)
    → starts (b';' ∷ []) (skip s2) ≡ true
    → (gettoken (skip s2)).left ≡ u
    → parse_line n u ≡ ok (b, t)
    → parse_line (suc n) s ≡ ok (list d b, t)
unfolding parse_line
line_step n s s1 s2 u t c d b e f h g r = rw (e, f, h, g, r) refl

mutual
  unfolding line_text pipes_text simple_text line_cmd pipes_cmd simple_cmd skip

  line_lem :
      (x : Line) (n : ℕ) (s t : List ℕ)
      → IsLine x
      → skip s ≡ skip (line_text x t)
      → stops ends_line (skip t) ≡ true
      → length s < n
      → parse_line n s ≡ ok (line_cmd x, skip t)
  line_lem x zero s t v e h l = absurd (omega arith)
  line_lem (last p a) (suc n) s t v e h l =
      let q = stops_line (skip t) h in
      let r =
        pipes_lem p n (suc (length s)) s (amps_text a t) v e (stops_amps a t q.0) (omega (arith, l))
          (omega arith) in
      line_end n s (skip (amps_text a t)) t (pipes_cmd p) (amps_cmd a (pipes_cmd p)) r
        (backs_lem a _ (pipes_cmd p) (skip (amps_text a t)) t (skip-skip (amps_text a t)) q.1
          (omega arith))
        q.2
  line_lem (seq p a y) (suc n) s t v e h l =
      let u = b';' ∷ line_text y t in
      let r =
        pipes_lem p n (suc (length s)) s (amps_text a u) v.0 e (stops_amps a u refl)
          (omega (arith, l)) (omega arith) in
      let g = symbol_left (skip u) b';' (line_text y t) refl refl in
      let l1 : length (skip (amps_text a u)) ≤ length s =
        Fits-ok _ _
          (parse_pipe-Fits (parse_line n) (suc (length s)) s
            (λ z k. parse_line-Fits n z (omega (arith, k, l))) (omega arith))
          r in
      let k =
        backs_lem a (suc (length (skip (amps_text a u)))) (pipes_cmd p) (skip (amps_text a u)) u
          (skip-skip (amps_text a u)) refl (omega arith) in
      let l2 : length u ≤ length (skip (amps_text a u)) =
        Fits-ok _ _
          (parse_backs-Fits (suc (length (skip (amps_text a u)))) (pipes_cmd p)
            (skip (amps_text a u)) (omega arith))
          k in
      line_step n s (skip (amps_text a u)) u (skip (line_text y t)) (skip t) (pipes_cmd p)
        (amps_cmd a (pipes_cmd p)) (line_cmd y) r k refl g
        (line_lem y n (skip (line_text y t)) t v.1 (skip-skip (line_text y t)) h
          (omega (arith, l, l1, l2, length-skip (line_text y t))))

  pipes_lem :
      (x : Pipes) (n k : ℕ) (s t : List ℕ)
      → IsPipes x
      → skip s ≡ skip (pipes_text x t)
      → stops ends_pipe (skip t) ≡ true
      → length s ≤ n
      → length s < k
      → parse_pipe (parse_line n) k s ≡ ok (pipes_cmd x, skip t)
  pipes_lem x n zero s t v e h l m = absurd (omega arith)
  pipes_lem (one x) n (suc k) s t v e h l m =
      let q = stops_pipe (skip t) h in
      pipe_end (parse_line n) k s t (simple_cmd x) (simple_lem x n s t v e q.0 l) q.1
  pipes_lem (more x p) n (suc k) s t v e h l m =
      let u = b'|' ∷ pipes_text p t in
      let r = simple_lem x n s u v.0 e refl l in
      let l1 : length u ≤ length s =
        Fits-ok _ _
          (parse_exec-Fits (parse_line n) s (λ z k. parse_line-Fits n z (omega (arith, k, l)))) r in
      let g = symbol_left (skip u) b'|' (pipes_text p t) refl refl in
      pipe_step (parse_line n) k s u (skip (pipes_text p t)) (skip t) (simple_cmd x) (pipes_cmd p) r
        refl g
        (pipes_lem p n k (skip (pipes_text p t)) t v.1 (skip-skip (pipes_text p t)) h
          (omega (arith, l, l1, length-skip (pipes_text p t)))
          (omega (arith, m, l1, length-skip (pipes_text p t))))

  simple_lem :
      (x : Simple) (n : ℕ) (s t : List ℕ)
      → IsSimple x
      → skip s ≡ skip (simple_text x t)
      → stops ends_exec (skip t) ≡ true
      → length s ≤ n
      → parse_exec (parse_line n) s ≡ ok (simple_cmd x, skip t)
  simple_lem (command rs xs) n s t v e h l = command_lem (parse_line n) rs xs s t v e h
  simple_lem (block y rs) n s t v e h l =
      let u = b')' ∷ angled_text rs t in
      let p = ap (starts (b'(' ∷ [])) (skip-skip s ∙ e) in
      let g =
        symbol_left (skip (skip s)) b'(' (line_text y u) refl
          (skip-skip (skip s) ∙ skip-skip s ∙ e) in
      let lt = gettoken_peeked (skip s) (b'(' ∷ []) p in
      let r =
        line_lem y n (skip (line_text y u)) u v.0 (skip-skip (line_text y u)) refl
          (omega (arith, lt, l, length-skip s, ap length g)) in
      let w = symbol_left (skip u) b')' (angled_text rs t) refl refl in
      let z =
        redirs_lem rs (suc (length (skip (angled_text rs t)))) [] (skip (angled_text rs t)) t v.1
          (skip-skip (angled_text rs t)) (stops_exec (skip t) h).1 (omega arith) in
      exec_block (parse_line n) s (ap (starts (b'(' ∷ [])) e)
      ∙ block_step (parse_line n) (skip s) u (skip (angled_text rs t)) (skip t) (line_cmd y)
          (angled_redirs rs) p (ap (parse_line n) g ∙ r) refl w z

-- `parsecmd` reads back every command from its text, built from commands of fewer than MAXARGS words
-- with redirections anywhere among them, blocks in parentheses, pipes, `;` and any number of `&`,
-- provided that each word has a character and none of white space or of the symbols: the tree is the
-- one that the command stands for.
pub parsecmd-line_text : (x : Line) → IsLine x → parsecmd (line_text x []) ≡ ok (line_cmd x)
unfolding parsecmd skip
parsecmd-line_text x v =
    let r =
      line_lem x (suc (length (line_text x []))) (line_text x []) [] v refl refl (omega arith) in
    ap (λ z. bind z (λ (c, s'). all_read (c, skip s'))) r

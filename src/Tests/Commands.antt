-- ===== src/Tests/Commands.antt =====
-- The theorems on the shell at small commands.
use basic_os.Prelude.{◌≡◌, ◌≢◌, refl, [], ◌∷◌, arith}
use basic_os.Sh.{parsecmd, ok, out_of_fuel}
use basic_os.Sh.Print.{Line, seq, last, one, more, command, block, reads, line_text, line_cmd}
use basic_os.Sh.Ends.{parsecmd_lem}
use basic_os.Sh.Roundtrip.{parsecmd-line_text}

parsecmd_lem_example : parsecmd (b'l' ∷ b's' ∷ b'(' ∷ []) ≢ out_of_fuel
parsecmd_lem_example = parsecmd_lem (b'l' ∷ b's' ∷ b'(' ∷ [])

-- (a <f |b )& ;c
abbrev small : Line
small =
    seq
      (one (
        block
          (last
            (more
              (command [] (
                record {
                  text = b'a' ∷ [];
                  behind = record { angle = reads; file = b'f' ∷ [] } ∷ [];
                }
                ∷ []))
              (one (command [] (record { text = b'b' ∷ []; behind = [] } ∷ []))))
            0)
          []))
      1 (last (one (command [] (record { text = b'c' ∷ []; behind = [] } ∷ []))) 0)

parsecmd-line_text_example : parsecmd (line_text small []) ≡ ok (line_cmd small)
parsecmd-line_text_example = parsecmd-line_text small (
  (
    (
      (tt, (((refl, tt), ((refl, tt), tt)), tt), omega arith),
      (tt, (((refl, tt), tt), tt), omega arith),
    ),
    tt,
  ),
  (tt, (((refl, tt), tt), tt), omega arith),
)

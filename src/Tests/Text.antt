-- ===== src/Tests/Text.antt =====
-- The theorems on strings, expressions, numbers and paths at small texts.
use basic_os.Prelude.{
  ℕ, zero, suc, ◌<◌, ◌≡◌, ◌↔◌, ◌⊎◌, arith, true, false, none, some, Option, List, [], ◌∷◌, update,
}
use basic_os.CString.{Memory}
use basic_os.Grep.{match_line}
use basic_os.Grep.Meaning.{Matches, match_line_iff}
use basic_os.Printf.{minus, is_negative, printint, atoi}
use basic_os.Printf.Roundtrip.{atoi-printint}
use basic_os.Path.{Dirent, namex}
use basic_os.Path.Walk.{inode_of, namex-walk}
use basic_os.Path.Elements.{elements, walk}

-- "ab" at address 100 in a memory of zeros.
abbrev text : Memory
text = update (update (λ a. 0) 100 97) 101 98

text-bytes : (a : ℕ) → text a < 256
text-bytes a = ground arith

-- "^a*b" and "aab"
match_line_iff_example :
    (match_line (94 ∷ 97 ∷ 42 ∷ 98 ∷ []) (97 ∷ 97 ∷ 98 ∷ []) ≡ true)
    ↔ Matches (94 ∷ 97 ∷ 42 ∷ 98 ∷ []) (97 ∷ 97 ∷ 98 ∷ [])
match_line_iff_example = match_line_iff (94 ∷ 97 ∷ 42 ∷ 98 ∷ []) (97 ∷ 97 ∷ 98 ∷ [])

atoi-printint_example :
    ((is_negative 4294967254 true ≡ false) × (atoi (printint 4294967254 10 true) ≡ 4294967254))
    ⊎ ((is_negative 4294967254 true ≡ true)
        × (s : List ℕ) × (printint 4294967254 10 true ≡ minus ∷ s)
        × (atoi s ≡ 42))
atoi-printint_example = atoi-printint 4294967254 true (omega arith)

-- The root, inode 1, holds "a", inode 2, which holds "b", inode 3.
abbrev tree : ℕ → Option (List Dirent)
tree (suc zero) = some (record { inum = 0; name = [] } ∷ record { inum = 2; name = 97 ∷ [] } ∷ [])
tree (suc (suc zero)) = some (record { inum = 3; name = 98 ∷ [] } ∷ [])
tree _ = none

-- "/a//b"
namex-walk_example :
    inode_of tree (namex tree 1 2 (47 ∷ 97 ∷ 47 ∷ 47 ∷ 98 ∷ []) false)
    ≡ walk tree 1 (elements (47 ∷ 97 ∷ 47 ∷ 47 ∷ 98 ∷ []))
namex-walk_example = namex-walk tree 1 2 (47 ∷ 97 ∷ 47 ∷ 47 ∷ 98 ∷ [])

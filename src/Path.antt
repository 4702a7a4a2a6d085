-- ===== src/Path.antt =====
-- xv6-public/fs.c: path names, `skipelem`, `dirlookup` and `namex`.
-- A string is the list of its bytes before its NUL; a name is cut after `dirsiz` of them. What a
-- directory holds is a parameter: `entries`, none for an inode that is no directory. The reference
-- counts and locks of the inodes on the way are left out, and with them the panics of `iget` on a full
-- cache and of `ilock` on an inode without a type.
pub mod Elements
pub mod Walk
use basic_os.Prelude.{
  ℕ, zero, suc, ◌+◌, Bool, true, false, ◌&&◌, Option, none, some, List, [], ◌∷◌, ◌==◌,
  if◌then◌else◌, take, length,
}

abbrev pub slash : ℕ
slash = 47

abbrev pub dirsiz : ℕ
dirsiz = 14

-- The two loops of `skipelem` over slashes, and the one over an element: what it passes, and what is
-- left.
abbrev pub skip_slashes : List ℕ → List ℕ
skip_slashes [] = []
skip_slashes (c ∷ path) = if c == slash then skip_slashes path else c ∷ path

abbrev pub first_elem : List ℕ → List ℕ
first_elem [] = []
first_elem (c ∷ path) = if c == slash then [] else c ∷ first_elem path

abbrev pub after_elem : List ℕ → List ℕ
after_elem [] = []
after_elem (c ∷ path) = if c == slash then c ∷ path else after_elem path

abbrev elem_at : List ℕ → Option (List ℕ × List ℕ)
elem_at [] = none
elem_at (c ∷ path) =
    some (take dirsiz (first_elem (c ∷ path)), skip_slashes (after_elem (c ∷ path)))

-- `skipelem`: the name and the path after it.
unfoldable pub skipelem : List ℕ → Option (List ℕ × List ℕ)
skipelem path = elem_at (skip_slashes path)

pub record Dirent : Type 0 where
  pub inum : ℕ
  pub name : List ℕ

-- Whether `namecmp` of two names is 0, for names without NUL: `strncmp` with `n` characters left.
abbrev pub same_name : ℕ → List ℕ → List ℕ → Bool
same_name zero s t = true
same_name (suc n) [] [] = true
same_name (suc n) [] (d ∷ t) = false
same_name (suc n) (c ∷ s) [] = false
same_name (suc n) (c ∷ s) (d ∷ t) = (c == d) && same_name n s t

-- `dirlookup`: the number of the inode.
unfoldable pub dirlookup : List Dirent → List ℕ → Option ℕ
dirlookup [] name = none
dirlookup (de ∷ des) name =
    let rest = dirlookup des name in
    if de.inum == 0 then rest else if same_name dirsiz name de.name then some de.inum else rest

abbrev pub is_empty : List ℕ → Bool
is_empty [] = true
is_empty (c ∷ path) = false

-- How a turn of the loop of `namex` goes on from the next directory.
abbrev Next : Type 0
Next = ℕ → List ℕ → List ℕ → Option (ℕ × List ℕ)

abbrev pub follow : Next → List ℕ → List ℕ → Option ℕ → Option (ℕ × List ℕ)
follow go name rest none = none
follow go name rest (some next) = go next name rest

-- The body of the loop past the test of the type of the inode, for its entries.
abbrev pub enter : Next → Bool → ℕ → List ℕ → List ℕ → Option (List Dirent) → Option (ℕ × List ℕ)
enter go parent ip name rest none = none
enter go parent ip name rest (some des) =
    if parent && is_empty rest then some (ip, name) else follow go name rest (dirlookup des name)

module _ (entries : ℕ → Option (List Dirent)) where
  abbrev pub turn : Next → Bool → ℕ → List ℕ → Option (List ℕ × List ℕ) → Option (ℕ × List ℕ)
  turn go parent ip name none = if parent then none else some (ip, name)
  turn go parent ip name (some (next, rest)) = enter go parent ip next rest (entries ip)

  -- The loop of `namex`, with a bound on its turns: the inode, and the last name that was copied.
  unfoldable pub namex_loop : ℕ → Bool → ℕ → List ℕ → List ℕ → Option (ℕ × List ℕ)
  namex_loop zero parent ip name path = none
  namex_loop (suc n) parent ip name path =
      turn (λ next found rest. namex_loop n parent next found rest) parent ip name (skipelem path)

  -- `namex`, with the inodes of the root and of the current directory.
  unfoldable pub namex : ℕ → ℕ → List ℕ → Bool → Option (ℕ × List ℕ)
  namex root cwd path parent =
      namex_loop (length path + 1) parent (if same_name 1 path (slash ∷ []) then root else cwd) []
        path

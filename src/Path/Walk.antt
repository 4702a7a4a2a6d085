-- ===== src/Path/Walk.antt =====
-- Path lookup of fs.c against the list of the elements of a path.
use basic_os.Prelude.{
  ℕ, zero, suc, ◌+◌, ◌<◌, ◌≡◌, inl, inr, refl, ap, ◌∙◌, arith, true, false, Option, none, some,
  List, [], ◌∷◌, if◌then◌else◌, length,
}
use basic_os.Path.{slash, Dirent, dirlookup, same_name, is_empty, follow, enter, namex_loop, namex}
use basic_os.Path.Elements.{elements, looked_up, walk, walk_parent, skipelem_lem}

module _ (entries : ℕ → Option (List Dirent)) where
  -- The inode, without the name that `namex` copied last.
  abbrev pub inode_of : Option (ℕ × List ℕ) → Option ℕ
  inode_of none = none
  inode_of (some found) = some found.0

  abbrev pub parent_of : ℕ → List (List ℕ) → Option (ℕ × List ℕ)
  parent_of ip [] = none
  parent_of ip (x ∷ xs) = walk_parent entries ip x xs

  -- One turn, given what the rest of the loop does.
  enter-walk :
      (go : ℕ → List ℕ → List ℕ → Option (ℕ × List ℕ)) (ip : ℕ) (x rest : List ℕ)
      (xs : List (List ℕ))
      → ((next : ℕ) → inode_of (go next x rest) ≡ walk entries next xs)
      → (held : Option (List Dirent))
      → inode_of (enter go false ip x rest held)
        ≡ elim (looked_up held x) [ none ↦ none | some next ↦ walk entries next xs ]
  enter-walk go ip x rest xs h none = refl
  enter-walk go ip x rest xs h (some des) = on (dirlookup des x)
    where
      on :
          (r : Option ℕ)
          → inode_of (follow go x rest r)
            ≡ elim r [ none ↦ none | some next ↦ walk entries next xs ]
      on none = refl
      on (some next) = h next

  enter-parent :
      (go : ℕ → List ℕ → List ℕ → Option (ℕ × List ℕ)) (ip : ℕ) (x rest y : List ℕ)
      (ys : List (List ℕ))
      → is_empty rest ≡ false
      → ((next : ℕ) → go next x rest ≡ walk_parent entries next y ys)
      → (held : Option (List Dirent))
      → enter go true ip x rest held
        ≡ elim (looked_up held x) [ none ↦ none | some next ↦ walk_parent entries next y ys ]
  enter-parent go ip x rest y ys inner h none = refl
  enter-parent go ip x rest y ys inner h (some des) = rw inner (on (dirlookup des x))
    where
      on :
          (r : Option ℕ)
          → follow go x rest r ≡ elim r [ none ↦ none | some next ↦ walk_parent entries next y ys ]
      on none = refl
      on (some next) = h next

  enter_last :
      (go : ℕ → List ℕ → List ℕ → Option (ℕ × List ℕ)) (ip : ℕ) (x rest : List ℕ)
      → is_empty rest ≡ true
      → (held : Option (List Dirent))
      → enter go true ip x rest held ≡ elim held [ none ↦ none | some des ↦ some (ip, x) ]
  enter_last go ip x rest last none = refl
  enter_last go ip x rest last (some des) = rw last refl

  namex_loop-walk :
      (n ip : ℕ) (name path : List ℕ)
      → length path < n
      → inode_of (namex_loop entries n false ip name path) ≡ walk entries ip (elements path)
  unfolding namex_loop
  namex_loop-walk zero ip name path h = absurd (omega arith)
  namex_loop-walk (suc n) ip name path h = elim (skipelem_lem path) [
    | inl (e, nothing) ↦ rw (e, nothing) refl
    | inr (x, rest, e, parts, shorter, left) ↦
        rw (e, parts)
          (enter-walk (namex_loop entries n false) ip x rest (elements rest)
            (λ next. namex_loop-walk n next x rest (omega arith)) (entries ip))
  ]

  namex_loop-parent :
      (n ip : ℕ) (name path : List ℕ)
      → length path < n
      → namex_loop entries n true ip name path ≡ parent_of ip (elements path)
  unfolding namex_loop
  namex_loop-parent zero ip name path h = absurd (omega arith)
  namex_loop-parent (suc n) ip name path h = elim (skipelem_lem path) [
    | inl (e, nothing) ↦ rw (e, nothing) refl
    | inr (x, rest, e, parts, shorter, left) ↦
        rw (e, parts)
          (elim left [
            | inl (last, nothing) ↦
                rw nothing (enter_last (namex_loop entries n true) ip x rest last (entries ip))
            | inr (inner, y, ys, parts') ↦ rw parts' (
                enter-parent (namex_loop entries n true) ip x rest y ys inner
                  (λ next.
                    namex_loop-parent n next x rest (omega arith) ∙ ap (parent_of next) parts')
                  (entries ip))
          ])
  ]

  -- `namex` without `nameiparent` finds the inode that following the elements of the path one by one
  -- from the root, or from the current directory if the path does not begin with a slash, leads to, and
  -- fails exactly if that fails.
  pub namex-walk :
      (root cwd : ℕ) (path : List ℕ)
      → inode_of (namex entries root cwd path false)
        ≡ walk entries (if same_name 1 path (slash ∷ []) then root else cwd) (elements path)
  unfolding namex
  namex-walk root cwd path = namex_loop-walk (length path + 1) _ [] path (omega arith)

  -- With `nameiparent` it finds the directory of the last element and its name, and fails for a path
  -- with no elements.
  pub namex-parent :
      (root cwd : ℕ) (path : List ℕ)
      → namex entries root cwd path true
        ≡ parent_of (if same_name 1 path (slash ∷ []) then root else cwd) (elements path)
  unfolding namex
  namex-parent root cwd path = namex_loop-parent (length path + 1) _ [] path (omega arith)

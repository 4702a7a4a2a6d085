-- ===== src/Tests/Directories.antt =====
-- The theorems on directories at a small file system.
use mathlib.Core.Path.{subst}
use basic_os.Prelude.{
  ℕ, ◌≡◌, refl, sym, ◌∙◌, arith, true, false, Option, none, some, List, [], ◌∷◌, ◌==◌,
  if◌then◌else◌,
}
use basic_os.File.{fd_none, File, Files}
use basic_os.Path.{Dirent, namex, namex_loop, skipelem, dirlookup}
use basic_os.Dirs.{Fs, find_name, entries_of, t_dir, isdirempty, sys_unlink}
use basic_os.Dirs.Links.{links, IsLinked}
use basic_os.Dirs.Unlinking.{UnlinkEnds, sys_unlink-UnlinkEnds, CanUnlink}
use basic_os.Dirs.Removal.{IsLeaf}

abbrev entry : ℕ → List ℕ → Dirent
entry inum name = record { inum = inum; name = name }

-- "/a" is a file and "/d" an empty directory.
abbrev small : Fs
small n =
    if n == 1
    then record {
      dev = 1;
      type = 1;
      major = 0;
      minor = 0;
      nlink = 2;
      entries =
          entry 1 (46 ∷ []) ∷ entry 1 (46 ∷ 46 ∷ []) ∷ entry 2 (97 ∷ []) ∷ entry 3 (100 ∷ []) ∷ [];
    }
    else if n == 2
    then record { dev = 1; type = 2; major = 0; minor = 0; nlink = 1; entries = [] }
    else if n == 3
    then record {
      dev = 1;
      type = 1;
      major = 0;
      minor = 0;
      nlink = 1;
      entries = entry 3 (46 ∷ []) ∷ entry 1 (46 ∷ 46 ∷ []) ∷ [];
    }
    else record { dev = 0; type = 0; major = 0; minor = 0; nlink = 0; entries = [] }

small-linked : (n : ℕ) → (small n).nlink ≡ links 6 small n
unfolding links
small-linked n = ground arith

small-IsLinked : IsLinked 6 small
small-IsLinked = record {
  typed = record {
    outside = λ n h. ground (arith, h);
    unused = λ n h. ground (arith, h);
    bounded = λ n. ground arith;
  };
  linked = small-linked;
}

parent_d : namex (entries_of small) 1 1 (47 ∷ 100 ∷ []) true ≡ some (1, 100 ∷ [])
unfolding namex namex_loop skipelem dirlookup
parent_d = refl

-- What holds of the only value of `nameiparent` and `namei`
abbrev Of : (ℕ → List ℕ → Type 0) → Option (ℕ × List ℕ) → Type 0
Of P none = Unit
Of P (some (n, name)) = P n name

only :
    (P : ℕ → List ℕ → Type 0) (o : Option (ℕ × List ℕ)) (n : ℕ) (name : List ℕ)
    → o ≡ some (n, name)
    → P n name
    → (m : ℕ) (last : List ℕ) → o ≡ some (m, last)
    → P m last
only P o n name e p m last f = subst (Of P) (sym e ∙ f) p

found_d : find_name (small 1).entries (100 ∷ []) 0 ≡ some (3, 3)
unfolding find_name
found_d = refl

small-IsLeaf : IsLeaf small 1 3
small-IsLeaf = (ground arith, ground arith, ground arith, λ n. ground arith)

d-IsLeaf :
    (slot ip : ℕ)
    → find_name (small 1).entries (100 ∷ []) 0 ≡ some (slot, ip)
    → (small ip).type ≡ t_dir
    → isdirempty (small ip) ≡ true
    → IsLeaf small 1 ip
d-IsLeaf slot ip e t m =
    let q : 3 ≡ ip = ground (arith, sym found_d ∙ e) in subst (λ k. IsLeaf small 1 k) q small-IsLeaf

sys_unlink-UnlinkEnds_example :
    UnlinkEnds 6 small
      (namex (entries_of small) 1 1 (47 ∷ 100 ∷ []) true)
      (sys_unlink 1 1 (47 ∷ 100 ∷ []) small)
sys_unlink-UnlinkEnds_example =
    sys_unlink-UnlinkEnds 6 1 1 (47 ∷ 100 ∷ []) small small-IsLinked
      (only (CanUnlink small) _ 1 (100 ∷ []) parent_d (refl, d-IsLeaf))

abbrev unused : File
unused = record {
  type_of = fd_none;
  ref = 0;
  readable = false;
  writable = false;
  pipe = 0;
  ip = 0;
  off = 0;
}

abbrev one_left : Files
one_left = record { files = unused ∷ []; ofile = none ∷ [] }

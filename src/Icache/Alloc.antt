-- ===== src/Icache/Alloc.antt =====
-- `ialloc` of fs.c: a new inode.
use mathlib.Core.Path.{subst}
use basic_os.Prelude.{ℕ, ◌-◌, ◌≤◌, ◌<◌, ◌≡◌, ◌≢◌, arith, true, Option, none, some, ◌==◌}
use basic_os.Icache.{ninode, Icache, is_cached, mark_allocated, ialloc_at, ialloc}
use basic_os.Icache.Unique.{IsCountable, Found, find_from-Found, AfterGet, iget-AfterGet}
use basic_os.Icache.Agrees.{IsCache, on_disk, iget-IsCache}

-- Entries in use are for inodes that are allocated.
abbrev pub IsTyped : Icache → Type 0
IsTyped c = (k : ℕ) → k < ninode → (c.inode k).ref ≢ 0 → (on_disk c k).type ≢ 0

abbrev pub Allocated : ℕ → ℕ → Icache → ℕ → Icache → Type 0
Allocated ninodes dev c i c' =
    IsCache c'
    × (n : ℕ) × (1 ≤ n)
    × (n < ninodes)
    × ((c.disk dev n).type ≡ 0)
    × (is_cached dev n (c'.inode i) ≡ true)

mark_allocated-IsCache :
    (dev type n : ℕ) (c : Icache)
    → IsCache c
    → IsTyped c
    → (c.disk dev n).type ≡ 0
    → IsCache (mark_allocated dev type n c)
mark_allocated-IsCache dev type n c v t z = record {
  unique = v.unique;
  agrees = λ k l r a. ground (arith, v.agrees k l r a, t k l r, z);
}

ialloc_at-Allocated :
    (ninodes dev type : ℕ) (c : Icache) (o : Option ℕ) (i : ℕ) (c' : Icache)
    → IsCache c
    → IsTyped c
    → IsCountable c
    → Found (λ n. (c.disk dev n).type == 0) (ninodes - 1) 1 o
    → ialloc_at dev type c o ≡ some (i, c')
    → Allocated ninodes dev c i c'
ialloc_at-Allocated ninodes dev type c none i c' v t b f e = absurd (ground (arith, e))
ialloc_at-Allocated ninodes dev type c (some n) i c' v t b f e =
    let z : (c.disk dev n).type ≡ 0 = ground (arith, f.0) in
    let d = mark_allocated dev type n c in
    let w = mark_allocated-IsCache dev type n c v t z in
    let g = subst (AfterGet dev n d) e (iget-AfterGet dev n d w.unique b) in
    (iget-IsCache dev n d w b i c' e, n, f.1, omega (arith, f.2), z, g.1)

-- Take a cache where no two entries in use are for one file, valid entries in use are as on the disk,
-- entries in use are for allocated inodes, and one more reference fits into an `int`. When `ialloc` returns an entry, the first two hold of
-- the cache after it, and the entry is in use for an inode that was free, with a number from 1 on and
-- below the number of inodes.
pub ialloc-Allocated :
    (ninodes dev type : ℕ) (c : Icache) (i : ℕ) (c' : Icache)
    → IsCache c
    → IsTyped c
    → IsCountable c
    → ialloc ninodes dev type c ≡ some (i, c')
    → Allocated ninodes dev c i c'
unfolding ialloc
ialloc-Allocated ninodes dev type c i c' v t b e =
    ialloc_at-Allocated ninodes dev type c _ i c' v t b (find_from-Found _ (ninodes - 1) 1) e

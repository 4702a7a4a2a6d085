-- ===== src/Icache/Agrees.antt =====
-- The inode cache of fs.c: an entry in use that is valid is as its inode on the disk.
use basic_os.Prelude.{
  ℕ, ◌+◌, ◌-◌, ◌<◌, ◌≡◌, ◌≢◌, ◌⊎◌, inl, inr, refl, sym, ap, ◌∙◌, arith, Bool, true, ◌&&◌, none,
  some, ◌==◌, if◌then◌else◌, Bool-cases,
}
use mathlib.Core.Path.{subst}
use basic_os.Icache.{
  ninode, Dinode, Entry, Icache, put, iget, iupdate, ilock, free_inode, iput, change,
}
use basic_os.Icache.Unique.{
  IsUnique, IsCountable, Gets, hit, fresh, iget-Gets, AfterGet, iget-AfterGet,
}

-- The entries agree with the disk, and there is one for each file.
pub record IsCache (c : Icache) : Type 0 where
  pub unique : IsUnique c
  pub agrees :
      (i : ℕ)
      → i < ninode
      → (c.inode i).ref ≢ 0
      → (c.inode i).valid ≡ true
      → (c.inode i).node ≡ c.disk (c.inode i).dev (c.inode i).inum

-- Where the inode of entry `i` stands on the disk of `c`
abbrev pub on_disk : Icache → ℕ → Dinode
on_disk c i = c.disk (c.inode i).dev (c.inode i).inum

hit_agrees :
    (i k : ℕ) (c : Icache)
    → (c.inode i).ref ≢ 0
    → ((c.inode k).ref ≢ 0 → (c.inode k).valid ≡ true → (c.inode k).node ≡ on_disk c k)
    → ((put i (record (c.inode i) { ref = (c.inode i).ref + 1 }) c).inode k).valid ≡ true
    → ((put i (record (c.inode i) { ref = (c.inode i).ref + 1 }) c).inode k).ref ≢ 0
    → ((put i (record (c.inode i) { ref = (c.inode i).ref + 1 }) c).inode k).node
      ≡ on_disk (put i (record (c.inode i) { ref = (c.inode i).ref + 1 }) c) k
hit_agrees i k c p h a r = elim (Bool-cases (i == k)) [
  | inl q ↦ let e : i ≡ k = ground (arith, q) in ground (arith, q, e, p, h, a)
  | inr q ↦ ground (arith, q, h, a, r)
]

Gets-IsCache :
    (dev inum : ℕ) (c : Icache)
    → IsCache c
    → (i : ℕ) (c' : Icache) → Gets dev inum c (some (i, c'))
    → IsUnique c'
    → IsCache c'
Gets-IsCache dev inum c v i c' (hit j l p d n) u = record {
  unique = u;
  agrees = λ k lk rk vk. hit_agrees j k c p (v.agrees k lk) vk rk;
}
Gets-IsCache dev inum c v i c' (fresh j l z absent) u = record {
  unique = u;
  agrees = λ k lk rk vk. ground (arith, v.agrees k lk, rk, vk);
}

pub iget-IsCache :
    (dev inum : ℕ) (c : Icache)
    → IsCache c
    → IsCountable c
    → (i : ℕ) (c' : Icache) → iget dev inum c ≡ some (i, c')
    → IsCache c'
iget-IsCache dev inum c v b i c' e =
    Gets-IsCache dev inum c v i c' (subst (Gets dev inum c) e (iget-Gets dev inum c b))
      (subst (AfterGet dev inum c) e (iget-AfterGet dev inum c v.unique b)).0

-- A change of an inode in use, with its `iupdate`
pub change-IsCache :
    (i : ℕ) (node : Dinode) (c : Icache)
    → i < ninode
    → IsCache c
    → (c.inode i).ref ≢ 0
    → IsCache (change i node c) × (on_disk (change i node c) i ≡ node)
unfolding change iupdate
change-IsCache i node c l v r = (
  record {
    unique = λ a b la lb ra rb e f. ground (arith, v.unique a b la lb, ra, rb, e, f);
    agrees = λ k lk rk vk. ground (arith, v.unique i k l lk r, v.agrees k lk, rk, vk);
  },
  ground (arith),
)

-- How `ilock` ends: in a panic, for an entry without references or an inode of type 0 on the disk, or
-- with an entry that is valid and as on the disk
pub ilock-IsCache :
    (i : ℕ) (c : Icache)
    → i < ninode
    → IsCache c
    → ((ilock i c ≡ none) × (((c.inode i).ref ≡ 0) ⊎ ((on_disk c i).type ≡ 0)))
      ⊎ ((c' : Icache) × (ilock i c ≡ some c')
          × IsCache c'
          × ((c'.inode i).valid ≡ true)
          × ((c'.inode i).node ≡ on_disk c i)
          × ((d n : ℕ) → c'.disk d n ≡ c.disk d n))
unfolding ilock
ilock-IsCache i c l v = elim (Bool-cases ((c.inode i).ref == 0)) [
  | inl z ↦ inl (rw z refl, inl (ground (arith, z)))
  | inr z ↦ elim (Bool-cases (c.inode i).valid) [
    | inl a ↦ inr (c, rw (z, a) refl, v, a, v.agrees i l (ground (arith, z)) a, λ d n. refl)
    | inr a ↦ elim (Bool-cases ((on_disk c i).type == 0)) [
      | inl t ↦ inl (rw (z, a, t) refl, inr (ground (arith, t)))
      | inr t ↦ inr (
        put i (record (c.inode i) { node = on_disk c i; valid = true }) c,
        rw (z, a, t) refl,
        record {
          unique = λ x y lx ly rx ry e f. ground (arith, v.unique x y lx ly, rx, ry, e, f);
          agrees = λ k lk rk vk. ground (arith, v.agrees k lk, rk, vk);
        },
        ground arith,
        ground arith,
        λ d n. refl,
      )
    ]
  ]
]

-- Whether `iput` frees the inode on the disk
abbrev pub is_last : Entry → Bool
is_last e = e.valid && ((e.node.nlink == 0) && (e.ref == 1))

-- Dropping a reference, and freeing the inode
abbrev drop : ℕ → Icache → Icache
drop i c = put i (record (c.inode i) { ref = (c.inode i).ref - 1 }) c

drop-IsCache : (i : ℕ) (c : Icache) → IsCache c → (c.inode i).ref ≢ 0 → IsCache (drop i c)
drop-IsCache i c v r = record {
  unique = λ a b la lb ra rb p q. ground (arith, v.unique a b la lb, ra, rb, p, q, r);
  agrees = λ k lk rk vk. ground (arith, v.agrees k lk, rk, vk, r);
}

free_inode-IsCache :
    (itrunc : Dinode → Dinode) (i : ℕ) (c : Icache)
    → i < ninode
    → IsCache c
    → (c.inode i).ref ≢ 0
    → IsCache (free_inode itrunc i c)
unfolding free_inode iupdate
free_inode-IsCache itrunc i c l v r = record {
  unique = λ a b la lb ra rb p q. ground (arith, v.unique a b la lb, ra, rb, p, q);
  agrees = λ k lk rk vk. ground (arith, v.unique i k l lk r, v.agrees k lk, rk, vk);
}

free_inode_ref :
    (itrunc : Dinode → Dinode) (i : ℕ) (c : Icache)
    → ((free_inode itrunc i c).inode i).ref ≡ (c.inode i).ref
unfolding free_inode iupdate
free_inode_ref itrunc i c = ground arith

free_inode_disk :
    (itrunc : Dinode → Dinode) (i : ℕ) (c : Icache) (d n : ℕ)
    → (free_inode itrunc i c).disk d n ≡ (
        if (d == (c.inode i).dev) && (n == (c.inode i).inum)
        then record (itrunc (c.inode i).node) { type = 0 }
        else c.disk d n)
unfolding free_inode iupdate
free_inode_disk itrunc i c d n = ground arith

drop_ref : (i : ℕ) (c : Icache) → ((drop i c).inode i).ref ≡ (c.inode i).ref - 1
drop_ref i c = ground arith

-- Take a cache where no two entries in use are for one file, and where valid entries in use are as on
-- the disk. `iput` of an entry in use keeps both, takes one reference away, and changes the disk only
-- if the entry is valid, without links, and has one reference: then the inode stands on the disk as
-- `itrunc` makes it, with type 0.
pub iput-IsCache :
    (itrunc : Dinode → Dinode) (i : ℕ) (c : Icache)
    → i < ninode
    → IsCache c
    → (c.inode i).ref ≢ 0
    → IsCache (iput itrunc i c)
      × (((iput itrunc i c).inode i).ref ≡ (c.inode i).ref - 1)
      × ((d n : ℕ)
          → (iput itrunc i c).disk d n ≡ (
              if is_last (c.inode i) && ((d == (c.inode i).dev) && (n == (c.inode i).inum))
              then record (itrunc (c.inode i).node) { type = 0 }
              else c.disk d n))
unfolding iput
iput-IsCache itrunc i c l v r = elim (Bool-cases (is_last (c.inode i))) [
  | inl e ↦ rw e (
    drop-IsCache i (free_inode itrunc i c) (free_inode-IsCache itrunc i c l v r)
        (λ z. r (sym (free_inode_ref itrunc i c) ∙ z)),
    drop_ref i (free_inode itrunc i c) ∙ ap (λ k. k - 1) (free_inode_ref itrunc i c),
    free_inode_disk itrunc i c,
  )
  | inr e ↦ rw e (drop-IsCache i c v r, drop_ref i c, λ d n. refl)
]

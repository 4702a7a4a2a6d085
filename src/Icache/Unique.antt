-- ===== src/Icache/Unique.antt =====
-- The inode cache of fs.c: a file has one entry.
use basic_os.Prelude.{
  ℕ, zero, suc, ◌+◌, ◌%◌, ◌^◌, ◌≤◌, ◌<◌, ◌≡◌, ◌≢◌, inl, inr, refl, sym, arith, Bool, true, false,
  Option, none, some, ◌==◌, Bool-cases,
}
use basic_os.Icache.{ninode, Icache, find_from, is_cached, put, iget_at, iget}

-- What a search comes to
abbrev pub Found : (ℕ → Bool) → ℕ → ℕ → Option ℕ → Type 0
Found test n i none = (k : ℕ) → i ≤ k → k < i + n → test k ≡ false
Found test n i (some k) = (test k ≡ true) × (i ≤ k) × (k < i + n)

Found-later :
    (test : ℕ → Bool) (n i : ℕ) (o : Option ℕ)
    → test i ≡ false
    → Found test n (i + 1) o
    → Found test (suc n) i o
Found-later test n i none m h = λ k l u. elim (Bool-cases (i == k)) [
  | inl e ↦ let q : i ≡ k = ground (arith, e) in rw (sym q) m
  | inr e ↦ h k (ground (arith, e, l)) (omega (arith, u))
]
Found-later test n i (some k) m h = (h.0, omega (arith, h.1), omega (arith, h.2))

pub find_from-Found : (test : ℕ → Bool) (n i : ℕ) → Found test n i (find_from test n i)
unfolding find_from
find_from-Found test zero i = λ k l u. absurd (omega arith)
find_from-Found test (suc n) i = elim (Bool-cases (test i)) [
  | inl h ↦ rw h (h, omega arith, omega arith)
  | inr m ↦
      rw m (Found-later test n i (find_from test n (i + 1)) m (find_from-Found test n (i + 1)))
]

-- No two entries in use are for one file.
abbrev pub IsUnique : Icache → Type 0
IsUnique c =
    (i j : ℕ)
    → i < ninode
    → j < ninode
    → (c.inode i).ref ≢ 0
    → (c.inode j).ref ≢ 0
    → (c.inode i).dev ≡ (c.inode j).dev
    → (c.inode i).inum ≡ (c.inode j).inum
    → i ≡ j

-- No entry has so many references that one more does not fit into an `int`.
abbrev pub IsCountable : Icache → Type 0
IsCountable c = (k : ℕ) → k < ninode → (c.inode k).ref + 1 < 2 ^ 31

-- How `iget` ends
pub data Gets (dev inum : ℕ) (c : Icache) : Option (ℕ × Icache) → Type 0 where
  hit :
      (i : ℕ)
      → i < ninode
      → (c.inode i).ref ≢ 0
      → (c.inode i).dev ≡ dev
      → (c.inode i).inum ≡ inum
      → Gets dev inum c (some (i, put i (record (c.inode i) { ref = (c.inode i).ref + 1 }) c))
  fresh :
      (i : ℕ)
      → i < ninode
      → (c.inode i).ref ≡ 0
      → ((k : ℕ) → k < ninode → is_cached dev inum (c.inode k) ≡ false)
      → Gets dev inum c (
          some (i, put i (record (c.inode i) { dev = dev; inum = inum; ref = 1; valid = false }) c))
  all_used :
      ((k : ℕ) → k < ninode → (is_cached dev inum (c.inode k) ≡ false) × ((c.inode k).ref ≢ 0))
      → Gets dev inum c none

iget_at-Gets :
    (dev inum : ℕ) (c : Icache) (o p : Option ℕ)
    → IsCountable c
    → Found (λ i. is_cached dev inum (c.inode i)) ninode 0 o
    → Found (λ i. (c.inode i).ref == 0) ninode 0 p
    → find_from (λ i. (c.inode i).ref == 0) ninode 0 ≡ p
    → Gets dev inum c (iget_at dev inum c o)
iget_at-Gets dev inum c (some i) p b f g e =
    let w : ((c.inode i).ref + 1) % 2 ^ 32 ≡ (c.inode i).ref + 1 =
      omega (arith, b i (omega (arith, f.2))) in
    rw w
      (hit i (omega (arith, f.2)) (ground (arith, f.0)) (ground (arith, f.0)) (ground (arith, f.0)))
iget_at-Gets dev inum c none none b f g e = rw e (
    all_used (λ k l.
      (f k (omega arith) (omega (arith, l)), ground (arith, g k (omega arith) (omega (arith, l))))))
iget_at-Gets dev inum c none (some i) b f g e = rw e (
    fresh i (omega (arith, g.2)) (ground (arith, g.0))
      (λ k l. f k (omega arith) (omega (arith, l))))

pub iget-Gets : (dev inum : ℕ) (c : Icache) → IsCountable c → Gets dev inum c (iget dev inum c)
unfolding iget
iget-Gets dev inum c b =
    iget_at-Gets dev inum c _ _ b (find_from-Found _ ninode 0) (find_from-Found _ ninode 0) refl

-- What holds of the cache that `iget` returns
abbrev pub AfterGet : ℕ → ℕ → Icache → Option (ℕ × Icache) → Type 0
AfterGet dev inum c none =
    (k : ℕ) → k < ninode → (is_cached dev inum (c.inode k) ≡ false) × ((c.inode k).ref ≢ 0)
AfterGet dev inum c (some (i, c')) =
    IsUnique c'
    × (is_cached dev inum (c'.inode i) ≡ true)
    × ((k : ℕ) → k ≢ i → c'.inode k ≡ c.inode k)
    × (((c.inode i).ref ≢ 0) → (c'.inode i ≡ record (c.inode i) { ref = (c.inode i).ref + 1 }))
    × (((c.inode i).ref ≡ 0)
        → (c'.inode i ≡ record (c.inode i) { dev = dev; inum = inum; ref = 1; valid = false }))

Gets-AfterGet :
    (dev inum : ℕ) (c : Icache) (r : Option (ℕ × Icache))
    → IsUnique c
    → IsCountable c
    → Gets dev inum c r
    → AfterGet dev inum c r
Gets-AfterGet dev inum c r u z31 (hit i l p d n) = (
  λ a b la lb ra rb e f. ground (arith, u a b la lb, ra, rb, e, f, p),
  ground (arith, d, n, z31 i l),
  λ k ne. ground (arith, ne),
  λ h. ground arith,
  λ h. absurd (p h),
)
Gets-AfterGet dev inum c r u z31 (fresh i l z absent) = (
  λ a b la lb ra rb e f.
      ground (arith, u a b la lb, ra, rb, e, f, absent a la, absent b lb, z31 a la, z31 b lb),
  ground arith,
  λ k ne. ground (arith, ne),
  λ h. absurd (h z),
  λ h. ground arith,
)
Gets-AfterGet dev inum c r u z31 (all_used h) = h

-- Take a cache where no two entries in use are for one file, and where one more reference to any entry
-- still fits into an `int`. If `iget` panics, then no entry is for the file and all are in use.
-- Otherwise no two entries of the cache after it are for one file, the entry that it returns is for
-- the file and in use, all others are as before, and that entry has one reference more if it was in
-- use, or else one reference and no valid copy.
pub iget-AfterGet :
    (dev inum : ℕ) (c : Icache) → IsUnique c → IsCountable c → AfterGet dev inum c (iget dev inum c)
iget-AfterGet dev inum c u b = Gets-AfterGet dev inum c _ u b (iget-Gets dev inum c b)

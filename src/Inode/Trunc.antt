-- ===== src/Inode/Trunc.antt =====
-- What `itrunc` of fs.c frees of a file that `bmap` has built.
use basic_os.Prelude.{
  ℕ, zero, suc, ◌+◌, ◌-◌, ◌*◌, ◌≤◌, ◌<◌, ◌≡◌, ◌≢◌, inl, inr, refl, sym, ap, ◌∙◌, arith, Bool, false,
  Option, none, some, List, ◌∷◌, ◌==◌, ltb, take, get_or, replicate, Bool-cases,
}
use mathlib.Core.Path.{subst}
use basic_os.Bitmap.{Blocks, block_bit, balloc, bfree}
use basic_os.Bitmap.Flips.{Flipped, bfree_lem}
use basic_os.Inode.{
  ndirect, nindirect, Inode, split_bn, new_head, first_indirect, entry, follow_chain, mapped,
  map_in, map_from, bmap, free_all, free_indirect, itrunc,
}

-- The two numbers name the block of the file: 127 for each indirect block passed, and the entry.
pub split_bn_lem :
    (n passed bn : ℕ)
    → bn ≤ n
    → ((split_bn n passed bn).1 < nindirect - 1)
      × ((split_bn n passed bn).0 * (nindirect - 1) + (split_bn n passed bn).1
          ≡ passed * (nindirect - 1) + bn)
unfolding split_bn
split_bn_lem zero passed bn h = (omega arith, refl)
split_bn_lem (suc n) passed bn h = elim (Bool-cases (ltb bn (nindirect - 1))) [
  | inl last ↦ rw last (ground (arith, last), refl)
  | inr more ↦
      let far : 127 ≤ bn = ground (arith, more) in
      let (small, same) = split_bn_lem n (passed + 1) (bn - 127) (omega arith) in
      rw more (small, same ∙ omega arith)
]

-- A file as `bmap` builds it has at most its first number.
abbrev pub tail_zero : List ℕ
tail_zero = replicate ndirect 0

abbrev pub IsChained : Inode → Type 0
IsChained ip = (h : ℕ) × (ip.addrs ≡ h ∷ tail_zero)

abbrev pub BmapMeans : Option (ℕ × Inode × Blocks) → Type 0
BmapMeans none = Unit
BmapMeans (some (addr, ip, s)) = IsChained ip

mapped-IsChained :
    (ip : Inode) (r : Option (ℕ × Bool × Blocks)) → IsChained ip → BmapMeans (mapped ip r)
mapped-IsChained ip none c = tt
mapped-IsChained ip (some (addr, is_new, s)) c = c

map_in-IsChained :
    (size i : ℕ) (ip : Inode) (r : Option (ℕ × Blocks))
    → IsChained ip
    → BmapMeans (map_in size i ip r)
map_in-IsChained size i ip none c = tt
map_in-IsChained size i ip (some (b, s)) c = mapped-IsChained ip (entry size b i s) c

map_from-IsChained :
    (size passed i : ℕ) (r : Option (ℕ × Inode × Blocks))
    → BmapMeans r
    → BmapMeans (map_from size passed i r)
map_from-IsChained size passed i none m = tt
map_from-IsChained size passed i (some (h, ip, s)) m =
    map_in-IsChained size i ip (follow_chain size passed h s) m

first_indirect-IsChained :
    (size : ℕ) (ip : Inode) (s : Blocks) → IsChained ip → BmapMeans (first_indirect size ip s)
unfolding first_indirect
first_indirect-IsChained size ip s (h, e) = elim (Bool-cases (get_or ip.addrs 0 0 == 0)) [
  | inl absent ↦ rw absent (allocated (balloc size s))
  | inr there ↦ rw there (h, e)
]
  where
    allocated : (r : Option (ℕ × Blocks)) → BmapMeans (new_head ip r)
    allocated none = tt
    allocated (some (addr, s')) = (addr, rw e refl)

-- Whatever block of the file it is asked for, `bmap` uses no number of the inode but the first.
bmap-IsChained :
    (size : ℕ) (ip : Inode) (bn : ℕ) (s : Blocks) → IsChained ip → BmapMeans (bmap size ip bn s)
unfolding bmap
bmap-IsChained size ip bn s c =
    map_from-IsChained size (split_bn bn 0 bn).0 (split_bn bn 0 bn).1 (first_indirect size ip s)
      (first_indirect-IsChained size ip s c)

free_all_head :
    (h : ℕ) (s s' : Blocks)
    → h ≢ 0
    → bfree h s ≡ some s'
    → free_all (take ndirect (h ∷ tail_zero)) s ≡ some s'
unfolding free_all
free_all_head h s s' some_head freed =
    let there : (h == 0) ≡ false = ground arith in rw (there, freed, free_all) refl

-- What `itrunc` does to such a file: one block is freed.
itrunc_chained :
    (h n : ℕ) (s : Blocks)
    → h ≢ 0
    → block_bit s h ≢ 0
    → (s' : Blocks) × (itrunc (record { addrs = h ∷ tail_zero; size = n }) s
        ≡ some (record { addrs = 0 ∷ tail_zero; size = 0 }, s'))
      × Flipped s s' h 0
unfolding itrunc free_indirect
itrunc_chained h n s some_head used = elim (bfree_lem h s) [
  | inl (free, panics) ↦ absurd (used free)
  | inr (busy, s', freed, flipped, same) ↦
      (s', rw (free_all_head h s s' some_head freed, itrunc) refl, flipped)
]

-- `itrunc` of a file that `bmap` has built frees its first indirect block and no other: every other
-- block is marked as it was, those with the contents of the file included.
pub itrunc-bmap :
    (size : ℕ) (ip : Inode) (bn : ℕ) (s : Blocks) {addr : ℕ} {ip' : Inode} {s' : Blocks}
    → IsChained ip
    → bmap size ip bn s ≡ some (addr, ip', s')
    → get_or ip'.addrs 0 0 ≢ 0
    → block_bit s' (get_or ip'.addrs 0 0) ≢ 0
    → (s'' : Blocks) × (itrunc ip' s' ≡ some (record { addrs = 0 ∷ tail_zero; size = 0 }, s''))
      × Flipped s' s'' (get_or ip'.addrs 0 0) 0
itrunc-bmap size ip bn s {addr} {ip'} {s'} c result some_head used =
    let (h, e) = subst BmapMeans result (bmap-IsChained size ip bn s c) in
    let first : h ≡ get_or ip'.addrs 0 0 = sym (ap (λ a. get_or a 0 0) e) in
    let shape : get_or ip'.addrs 0 0 ∷ tail_zero ≡ ip'.addrs =
      sym (e ∙ ap (λ k. k ∷ tail_zero) first) in
    let (s'', freed, flipped) = itrunc_chained (get_or ip'.addrs 0 0) ip'.size s' some_head used in
    (
      s'',
      subst
          (λ a.
            itrunc (record { addrs = a; size = ip'.size }) s'
            ≡ some (record { addrs = 0 ∷ tail_zero; size = 0 }, s''))
          shape freed,
      flipped,
    )

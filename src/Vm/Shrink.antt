-- ===== src/Vm/Shrink.antt =====
-- Freeing user pages of an address space of vm.c.
use basic_os.Prelude.{
  ℕ, ◌+◌, ◌*◌, ◌≤◌, ◌<◌, ◌≡◌, ◌≢◌, sym, ap, ◌∙◌, arith, Bool, true, false, ◌&&◌, ◌∷◌, ◌==◌, ltb,
  leb, if◌then◌else◌, has,
}
use mathlib.Core.Path.{subst}
use basic_os.Vm.{Mem, page_size, kern_base, phys_top, pdx, ptx, frame, present, put, fill}
use basic_os.Vm.Walk.{entry, IsSpace, Elsewhere, entry-put, same_entry, Grows, Grows-put}

-- Pages that `kfree` takes.
abbrev pub IsGood : ℕ → ℕ → Type 0
IsGood first p = (first ≤ p * page_size) × (p * page_size < phys_top)

-- An address space whose user pages are its own: good pages of memory, not free, no tables, each mapped once.
pub record IsUser (first pgdir : ℕ) (m : Mem) : Type 0 where
  pub space : IsSpace pgdir m
  pub owned :
      (v : ℕ)
      → v < kern_base
      → present (entry m pgdir v) ≡ true
      → Elsewhere pgdir m (frame (entry m pgdir v)) × IsGood first (frame (entry m pgdir v))
  pub once :
      (u v : ℕ)
      → u < kern_base
      → v < kern_base
      → frame u ≢ frame v
      → present (entry m pgdir u) ≡ true
      → present (entry m pgdir v) ≡ true
      → frame (entry m pgdir u) ≢ frame (entry m pgdir v)
  pub good : (p : ℕ) → has p m.free ≡ true → IsGood first p

-- The state after `kfree` of a page that is elsewhere.
abbrev pub released : ℕ → Mem → Mem
released q m = fill q 0x01010101 (record m { free = q ∷ m.free })

module _ (pgdir q : ℕ) (m : Mem) (s : IsSpace pgdir m) (o : Elsewhere pgdir m q) where
  pub root_kept : (i : ℕ) → (released q m).words pgdir i ≡ m.words pgdir i
  root_kept i = ground (arith, o.not_root)

  pub entry-released : (v : ℕ) → entry (released q m) pgdir v ≡ entry m pgdir v
  entry-released v = ground (arith, o.not_root, o.not_table (pdx v))

  used : (r : ℕ) → has r m.free ≡ false → r ≢ q → has r (q ∷ m.free) ≡ false
  used r h ne = ground (arith, h, ne)

  table_kept :
      (i : ℕ) → present ((released q m).words pgdir i) ≡ true → present (m.words pgdir i) ≡ true
  table_kept i p = subst (λ w. present w ≡ true) (root_kept i) p

  pub IsSpace-released : IsSpace pgdir (released q m)
  IsSpace-released = record {
    not_root = λ i. rw (root_kept i) (s.not_root i);
    apart = λ i j. rw (root_kept i, root_kept j) (s.apart i j);
    table_used = λ i p.
        subst (λ w. has (frame w) (q ∷ m.free) ≡ false) (sym (root_kept i))
          (used _ (s.table_used i (table_kept i p)) (o.not_table i (table_kept i p)));
    root_used = used _ s.root_used (λ e. o.not_root (sym e));
    distinct = (o.not_free, s.distinct);
  }

  pub Elsewhere-released : (r : ℕ) → Elsewhere pgdir m r → r ≢ q → Elsewhere pgdir (released q m) r
  Elsewhere-released r e ne = record {
    not_free = used r e.not_free ne;
    not_root = e.not_root;
    not_table = λ i. rw (root_kept i) (e.not_table i);
  }

-- The state after the user page of `va` is freed.
abbrev pub without : ℕ → ℕ → Mem → Mem
without pgdir va m =
    put (frame (m.words pgdir (pdx va))) (ptx va) 0 (released (frame (entry m pgdir va)) m)

module _ (first pgdir va : ℕ) (m : Mem) (s : IsUser first pgdir m) (low : va < kern_base)
    (table : present (m.words pgdir (pdx va)) ≡ true)
    (here : present (entry m pgdir va) ≡ true) where
  mid : Mem
  mid = released (frame (entry m pgdir va)) m

  own : Elsewhere pgdir m (frame (entry m pgdir va))
  own = (s.owned va low here).0

  mid-IsSpace : IsSpace pgdir mid
  unfolding mid
  mid-IsSpace = IsSpace-released pgdir _ m s.space own

  mid_root : mid.words pgdir (pdx va) ≡ m.words pgdir (pdx va)
  unfolding mid
  mid_root = root_kept pgdir _ m s.space own (pdx va)

  without_is : without pgdir va m ≡ put (frame (mid.words pgdir (pdx va))) (ptx va) 0 mid
  unfolding mid
  without_is =
      ap (λ w. put (frame w) (ptx va) 0 (released (frame (entry m pgdir va)) m)) (sym mid_root)

  mid_table : present (mid.words pgdir (pdx va)) ≡ true
  mid_table = rw mid_root table

  entry-without :
      (v : ℕ)
      → entry (without pgdir va m) pgdir v ≡ (if frame v == frame va then 0 else entry m pgdir v)
  unfolding mid
  entry-without v =
      ap (λ w. entry w pgdir v) without_is
      ∙ (entry-put pgdir va mid 0 mid-IsSpace mid_table v
          ∙ ap (λ e. if frame v == frame va then 0 else e) (entry-released pgdir _ m s.space own v))

  entry_kept :
      (v : ℕ)
      → present (entry (without pgdir va m) pgdir v) ≡ true
      → (frame v ≢ frame va)
        × (present (entry m pgdir v) ≡ true)
        × (entry (without pgdir va m) pgdir v ≡ entry m pgdir v)
  entry_kept v p = ground (arith, entry-without v, p)

  Grows-mid : Grows pgdir mid (without pgdir va m)
  Grows-mid = rw without_is (Grows-put pgdir va mid 0 mid-IsSpace mid_table)

  Elsewhere-without :
      (q : ℕ)
      → Elsewhere pgdir m q
      → q ≢ frame (entry m pgdir va)
      → Elsewhere pgdir (without pgdir va m) q
  unfolding mid
  Elsewhere-without q e ne =
      let g = Grows-mid in g.still q (Elsewhere-released pgdir _ m s.space own q e ne)

  root_without : (i : ℕ) → (without pgdir va m).words pgdir i ≡ m.words pgdir i
  root_without i =
      let ne = s.space.not_root (pdx va) table in
      let o = own in ground (arith, ne, o.not_root, root_kept pgdir _ m s.space own (pdx va))

  words_without :
      (q : ℕ)
      → Elsewhere pgdir m q
      → q ≢ frame (entry m pgdir va)
      → (j : ℕ) → (without pgdir va m).words q j ≡ m.words q j
  unfolding mid
  words_without q e ne j =
      let g = Grows-mid in
      g.others q (Elsewhere-released pgdir _ m s.space own q e ne) j ∙ ground (arith, ne)

  pub IsUser-without : IsUser first pgdir (without pgdir va m)
  IsUser-without =
      let g = Grows-mid in
      record {
        space = g.space;
        owned = λ v l p.
            let k = entry_kept v p in
            rw k.2 (
              Elsewhere-without _ (s.owned v l k.1).0 (s.once v va l low k.0 k.1 here),
              (s.owned v l k.1).1,
            );
        once = λ u v.
            rw (entry-without u, entry-without v)
              (λ lu lv ne p q. ground (arith, s.once u v lu lv ne, p, q));
        good = λ p h. ground (arith, h, s.good p, (s.owned va low here).1);
      }

-- The user addresses of the pages from number `lo` to before `hi`.
abbrev pub in_range : ℕ → ℕ → ℕ → Bool
in_range lo hi v = leb lo (frame v) && ltb (frame v) hi

-- From `m` to `m'` those pages, where they were mapped, were freed; the rest of the user part is as
-- before, and so are all pages that are elsewhere and were not among those freed.
pub record Shrunk (first pgdir lo hi : ℕ) (m m' : Mem) : Type 0 where
  pub user : IsUser first pgdir m'
  pub entries :
      (v : ℕ)
      → entry m' pgdir v
        ≡ (if in_range lo hi v && present (entry m pgdir v) then 0 else entry m pgdir v)
  pub root : (i : ℕ) → m'.words pgdir i ≡ m.words pgdir i
  pub others :
      (q : ℕ)
      → Elsewhere pgdir m q
      → ((v : ℕ)
          → in_range lo hi v ≡ true
          → present (entry m pgdir v) ≡ true
          → q ≢ frame (entry m pgdir v))
      → Elsewhere pgdir m' q × ((j : ℕ) → m'.words q j ≡ m.words q j)

pub Shrunk-skip :
    (first pgdir lo mid hi : ℕ) (m u : Mem)
    → ((v : ℕ) → in_range lo mid v ≡ true → present (entry m pgdir v) ≡ false)
    → lo ≤ mid
    → Shrunk first pgdir mid hi m u
    → Shrunk first pgdir lo hi m u
Shrunk-skip first pgdir lo mid hi m u h le s = record {
  user = s.user;
  entries = λ v. ground (arith, s.entries v, h v);
  root = s.root;
  others = λ q e o. s.others q e (λ v r p. o v (ground (arith, r)) p);
}

page_of :
    (v n e : ℕ)
    → (if frame v == frame (n * page_size) then 0 else e) ≡ (if frame v == n then 0 else e)
page_of v n e = ground arith

one_entry :
    (f n hi e w u : ℕ)
    → n < hi
    → w ≡ (if f == n then 0 else e)
    → u ≡ (if leb (n + 1) f && ltb f hi && present w then 0 else w)
    → (f ≡ n → present e ≡ true)
    → u ≡ (if leb n f && ltb f hi && present e then 0 else e)
one_entry f n hi e w u l p q r = ground (arith, p, q, r)

pub Shrunk-one :
    (first pgdir n hi : ℕ) (m u : Mem) (s : IsUser first pgdir m) (low : n * page_size < kern_base)
    → present (m.words pgdir (pdx (n * page_size))) ≡ true
    → present (entry m pgdir (n * page_size)) ≡ true
    → n < hi
    → Shrunk first pgdir (n + 1) hi (without pgdir (n * page_size) m) u
    → Shrunk first pgdir n hi m u
Shrunk-one first pgdir n hi m u s low t p l r = record {
  user = r.user;
  entries = λ v.
      one_entry (frame v) n hi _ _ _ l
        (entry-without first pgdir (n * page_size) m s low t p v ∙ page_of v n _) (r.entries v)
        (λ e. rw (same_entry m pgdir v (n * page_size) (omega (arith, e))) p);
  root = λ i. r.root i ∙ root_without first pgdir (n * page_size) m s low t p i;
  others = λ q e o.
      let ne : q ≢ frame (entry m pgdir (n * page_size)) = o (n * page_size) (ground (arith)) p in
      let k =
        r.others q (Elsewhere-without first pgdir (n * page_size) m s low t p q e ne) (λ v i pv.
          let k = entry_kept first pgdir (n * page_size) m s low t p v pv in
          rw k.2 (o v (ground (arith, i)) k.1)) in
      (k.0, λ j. k.1 j ∙ words_without first pgdir (n * page_size) m s low t p q e ne j);
}

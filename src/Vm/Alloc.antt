-- ===== src/Vm/Alloc.antt =====
-- `allocuvm` of vm.c: its rounds and the whole.
use basic_os.Prelude.{
  ℕ, zero, suc, ◌+◌, ◌*◌, ◌/◌, ◌≤◌, ◌<◌, ◌≡◌, ◌≢◌, inl, inr, sym, ap, ◌∙◌, arith, true, false, List,
  [], ◌∷◌, ltb, leb, Bool-cases, has,
}
use mathlib.Core.Path.{subst}
use basic_os.Vm.{
  Mem, page_size, kern_base, frame, present, round_up, pte_of, kalloc, first_free, MapEnd,
}
use basic_os.Vm.Walk.{entry, Elsewhere, Grows, Grows-trans}
use basic_os.Vm.Map.{Maps, all, some_of, twice, Mapped}
use basic_os.Vm.Space.{
  Ran, ran, and_then, run_free, kfree, deallocuvm, alloc_mapped, alloc_at, alloc_from, allocuvm,
}
use basic_os.Vm.Shrink.{
  IsGood, IsUser, in_range, Shrunk, released, entry-released, Elsewhere-released,
}
use basic_os.Vm.Dealloc.{page_end, deallocuvm_lem, kfree_good}
use basic_os.Vm.Taken.{
  taken, entry-taken, Grows-taken, Elsewhere-taken, IsUser-grows, IsUser-add, IsUser-released,
}
use basic_os.Vm.Grow.{Grown, Undone, Undone-Shrunk, Grown-refl, Grown-add, true_not_false}
use basic_os.Vm.OnePage.{map_page, not_taken, page_entry, kept_entry}

-- How `allocuvm` ends: with all pages mapped, or with none.
pub data Allocs (first pgdir lo hi newsz : ℕ) (m : Mem) : Ran → Type 0 where
  grown : (t : Mem) → Grown first pgdir lo hi m t → Allocs first pgdir lo hi newsz m (ran newsz t)
  undone : (t : Mem) → Undone first pgdir lo hi m t → Allocs first pgdir lo hi newsz m (ran 0 t)

Grown-Grows :
    (first pgdir lo n : ℕ) (m t u : Mem)
    → n * page_size < kern_base
    → Grown first pgdir lo n m t
    → Grows pgdir t u
    → ((v : ℕ) → entry u pgdir v ≡ entry t pgdir v)
    → Grown first pgdir lo n m u
Grown-Grows first pgdir lo n m t u low g w e = record {
  user = IsUser-grows first pgdir t u g.user w e;
  kept = λ v r. e v ∙ g.kept v r;
  fresh = λ v r.
      let y = g.user in
      let f = g.fresh v r in
      rw (e v) (
        f.0,
        f.1,
        λ j. w.others _ (y.owned v (ground (arith, r, low)) (ground (arith, f.0))).0 j ∙ f.2 j,
      );
  grows = Grows-trans pgdir m t u g.grows w;
}

-- A page from the free list, cleared and mapped.
page_added :
    (first pgdir lo n p : ℕ) (m : Mem) (ws : ℕ → ℕ → ℕ) (ps : List ℕ) (u : Mem)
    → lo ≤ n
    → n * page_size < kern_base
    → Grown first pgdir lo n m (record { words = ws; free = p ∷ ps })
    → Mapped pgdir n 1 p 6 (taken p (λ j. 0) ws ps) u
    → Grown first pgdir lo (n + 1) m u
page_added first pgdir lo n p m ws ps u ge low g a =
    let y = g.user in
    let w = a.grows in
    let t : Mem = record { words = ws; free = p ∷ ps } in
    let gr =
      Grows-trans pgdir t (taken p (λ j. 0) ws ps) u (Grows-taken first pgdir p (λ j. 0) ws ps y)
        w in
    let o = Elsewhere-taken first pgdir p (λ j. 0) ws ps y in
    let e = λ (v : ℕ).
      page_entry pgdir n p 6 (λ j. 0) ws ps u (entry-taken first pgdir p (λ j. 0) ws ps y) a v in
    Grown-add first pgdir lo n p m t u ge g
      (IsUser-add first pgdir n p (pte_of p 6) t u y gr (w.still p o) (y.good p (ground arith))
        (omega arith) (not_taken first pgdir p ws ps y) e)
      gr e (ground arith) (λ j. w.others p o j ∙ ground arith) low

module _ (first pgdir oldsz newsz : ℕ) (m : Mem) (pos : 0 < first) (le : oldsz ≤ newsz)
    (low : newsz < kern_base)
    (absent : (v : ℕ)
      → in_range (page_end oldsz) (page_end newsz) v ≡ true
      → present (entry m pgdir v) ≡ false) where
  undo_lem :
      (n : ℕ) (t : Mem)
      → page_end oldsz ≤ n
      → n * page_size < newsz
      → Grown first pgdir (page_end oldsz) n m t
      → (u : Mem) × (deallocuvm first pgdir newsz oldsz t ≡ ran oldsz u)
        × Undone first pgdir (page_end oldsz) (page_end newsz) m u
        × Shrunk first pgdir (page_end oldsz) (page_end newsz) t u
  undo_lem n t ge lt g =
      let d = deallocuvm_lem first pgdir newsz oldsz t pos g.user (omega arith) (omega arith) in
      (
        d.0,
        d.1,
        Undone-Shrunk first pgdir (page_end oldsz) n (page_end newsz) m t d.0 absent g (omega arith)
            d.2,
        d.2,
      )

  entry_before :
      (lo hi : ℕ) (t u : Mem)
      → Shrunk first pgdir lo hi t u
      → (v : ℕ) → present (entry u pgdir v) ≡ true
      → (present (entry t pgdir v) ≡ true) × (entry u pgdir v ≡ entry t pgdir v)
  entry_before lo hi t u s v h = ground (arith, s.entries v, h)

  released_lem :
      (p : ℕ) (t u : Mem)
      → IsGood first p
      → Undone first pgdir (page_end oldsz) (page_end newsz) m u
      → Elsewhere pgdir u p
      → ((v : ℕ) → v < kern_base → present (entry u pgdir v) ≡ true → frame (entry u pgdir v) ≢ p)
      → has p m.free ≡ true
      → deallocuvm first pgdir newsz oldsz t ≡ ran oldsz u
      → Allocs first pgdir (page_end oldsz) (page_end newsz) newsz m (
          and_then
            (deallocuvm first pgdir newsz oldsz t)
            (λ n m'. run_free (kfree first p m') (λ m''. ran 0 m'')))
  released_lem p t u b d o ne h e =
      let y = d.user in
      rw (e, kfree_good first p u b)
        (undone (released p u) (record {
          user = IsUser-released first pgdir p u d.user o b ne;
          kept = λ v r. entry-released pgdir p u y.space o v ∙ d.kept v r;
          gone = λ v r. rw (entry-released pgdir p u y.space o v) (d.gone v r);
          others = λ q f.
              let k = d.others q f in
              let nq : q ≢ p =
                λ g. true_not_false (sym h ∙ ap (λ a. has a m.free) (sym g) ∙ f.not_free) in
              (Elsewhere-released pgdir p u y.space o q k.0 nq, λ j. ground (arith, nq) ∙ k.1 j);
        }))

  alloc_mapped_lem :
      (n p : ℕ) (ws : ℕ → ℕ → ℕ) (ps : List ℕ) (rest : Mem → Ran) (r : MapEnd × Mem)
      → page_end oldsz ≤ n
      → n * page_size < newsz
      → Grown first pgdir (page_end oldsz) n m (record { words = ws; free = p ∷ ps })
      → ((u : Mem)
          → Grown first pgdir (page_end oldsz) (n + 1) m u
          → Allocs first pgdir (page_end oldsz) (page_end newsz) newsz m (rest u))
      → Maps pgdir n 1 p 6 (taken p (λ j. 0) ws ps) r
      → Allocs first pgdir
          (page_end oldsz)
          (page_end newsz)
          newsz
          m
          (alloc_mapped first pgdir oldsz newsz rest p r)
  alloc_mapped_lem n p ws ps rest r ge lt g k (all u a) =
      k u (page_added first pgdir (page_end oldsz) n p m ws ps u ge (omega arith) g a)
  alloc_mapped_lem n p ws ps rest r ge lt g k (some_of u i l a e) =
      let y = g.user in
      let w = a.grows in
      let t : Mem = record { words = ws; free = p ∷ ps } in
      let gr =
        Grows-trans pgdir t (taken p (λ j. 0) ws ps) u (Grows-taken first pgdir p (λ j. 0) ws ps y)
          w in
      let same = λ (v : ℕ).
        kept_entry pgdir n i p 6 (λ j. 0) ws ps u l (entry-taken first pgdir p (λ j. 0) ws ps y) a
          v in
      let d =
        undo_lem n u ge lt
          (Grown-Grows first pgdir (page_end oldsz) n m t u (omega arith) g gr same) in
      released_lem p u d.0 (y.good p (ground arith)) d.2
        (d.3.others p (w.still p (Elsewhere-taken first pgdir p (λ j. 0) ws ps y)) (λ v r pr q.
          not_taken first pgdir p ws ps y v (ground (arith, r, low)) (rw (sym (same v)) pr)
            (ap frame (sym (same v)) ∙ sym q))).0
        (λ v lv pr.
          let q = entry_before (page_end oldsz) (page_end newsz) u d.0 d.3 v pr in
          rw (q.1 ∙ same v) (not_taken first pgdir p ws ps y v lv (rw (sym (same v)) q.0)))
        (let z = g.grows in z.taken p (ground arith)) d.1
  alloc_mapped_lem n p ws ps rest r ge lt g k (twice u i l a e) =
      let y = g.user in
      let x : (n + i) * page_size ≡ n * page_size = omega (arith, l) in
      absurd (
        true_not_false (
          sym e
          ∙ ap (λ b. present (entry (taken p (λ j. 0) ws ps) pgdir b)) x
          ∙ ap present (
              entry-taken first pgdir p (λ j. 0) ws ps y (n * page_size)
              ∙ g.kept (n * page_size) (ground arith))
          ∙ absent (n * page_size) (ground (arith, ge, lt))))

  alloc_round_lem :
      (n : ℕ) (ws : ℕ → ℕ → ℕ) (fs : List ℕ) (rest : Mem → Ran)
      → page_end oldsz ≤ n
      → n * page_size < newsz
      → Grown first pgdir (page_end oldsz) n m (record { words = ws; free = fs })
      → ((u : Mem)
          → Grown first pgdir (page_end oldsz) (n + 1) m u
          → Allocs first pgdir (page_end oldsz) (page_end newsz) newsz m (rest u))
      → Allocs first pgdir
          (page_end oldsz)
          (page_end newsz)
          newsz
          m
          (alloc_at first pgdir oldsz newsz rest (n * page_size) (first_free ws fs))
  alloc_round_lem n ws [] rest ge lt g k = let d = undo_lem n _ ge lt g in rw d.1 (undone d.0 d.2)
  alloc_round_lem n ws (p ∷ ps) rest ge lt g k =
      let y = g.user in
      let w = Grows-taken first pgdir p (λ j. 0) ws ps g.user in
      alloc_mapped_lem n p ws ps rest _ ge lt g k (
        map_page pgdir n p 6 (taken p (λ j. 0) ws ps) w.space (omega arith)
          (y.good p (ground arith)).1)

  alloc_from_lem :
      (fuel n : ℕ) (t : Mem)
      → page_end oldsz ≤ n
      → n ≤ page_end newsz
      → page_end newsz < n + fuel
      → Grown first pgdir (page_end oldsz) n m t
      → Allocs first pgdir
          (page_end oldsz)
          (page_end newsz)
          newsz
          m
          (alloc_from first pgdir oldsz newsz fuel (n * page_size) t)
  unfolding alloc_from kalloc
  alloc_from_lem zero n t ge hi f g = absurd (omega arith)
  alloc_from_lem (suc fuel) n t ge hi f g = elim (Bool-cases (leb newsz (n * page_size))) [
    | inl d ↦
        let e : n ≡ page_end newsz = ground (arith, d, hi) in
        rw d (grown t (subst (λ b. Grown first pgdir (page_end oldsz) b m t) e g))
    | inr d ↦
        let l : n * page_size < newsz = ground (arith, d) in
        rw d (
          alloc_round_lem n t.words t.free _ ge l g (λ u h.
            subst
              (λ b.
                Allocs first pgdir (page_end oldsz) (page_end newsz) newsz m
                  (alloc_from first pgdir oldsz newsz fuel b u))
              (omega arith)
              (alloc_from_lem fuel (n + 1) u (omega arith) (omega arith) (omega arith) h)))
  ]

-- `allocuvm` from `oldsz` to `newsz` below KERNBASE and no smaller, where nothing is mapped between,
-- never panics and ends in one of two ways: it returns `newsz`, and the new pages are distinct pages
-- that were free, are zero, and are mapped for the user to read and write; or it returns 0 and none of
-- them is mapped. Either way all other entries are kept, the user pages are the address space's own,
-- and pages outside it keep their contents.
pub allocuvm_lem :
    (first pgdir oldsz newsz : ℕ) (m : Mem)
    → 0 < first
    → oldsz ≤ newsz
    → newsz < kern_base
    → IsUser first pgdir m
    → ((v : ℕ)
        → in_range (page_end oldsz) (page_end newsz) v ≡ true
        → present (entry m pgdir v) ≡ false)
    → Allocs first pgdir
        (page_end oldsz)
        (page_end newsz)
        newsz
        m
        (allocuvm first pgdir oldsz newsz m)
unfolding allocuvm
allocuvm_lem first pgdir oldsz newsz m pos le low s absent =
    let a : leb kern_base newsz ≡ false = ground (arith, low) in
    let b : ltb newsz oldsz ≡ false = ground (arith, le) in
    let e : round_up oldsz ≡ page_end oldsz * page_size = omega arith in
    rw (a, b)
      (subst
        (λ z.
          Allocs first pgdir (page_end oldsz) (page_end newsz) newsz m
            (alloc_from first pgdir oldsz newsz (newsz / page_size + 2) z m))
        (sym e)
        (alloc_from_lem first pgdir oldsz newsz m pos le low absent (newsz / page_size + 2)
          (page_end oldsz) m (omega arith) (omega arith) (omega arith)
          (Grown-refl first pgdir _ m s)))

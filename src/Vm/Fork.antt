-- ===== src/Vm/Fork.antt =====
-- `copyuvm` of vm.c: the copy of an address space.
use basic_os.Prelude.{
  ℕ, zero, suc, ◌+◌, ◌*◌, ◌%◌, ◌≤◌, ◌<◌, ◌≡◌, inl, inr, refl, sym, ap, ◌∙◌, arith, true, false,
  List, [], ◌∷◌, ◌==◌, if◌then◌else◌, Bool-cases, has,
}
use mathlib.Core.Path.{subst}
use basic_os.Vm.{
  Mem, page_size, kern_base, phys_top, ext_mem, pdx, ptx, frame, flags, present, pte_of, kalloc,
  walkpgdir, first_free, MapEnd,
}
use basic_os.Vm.Walk.{walkpgdir_look, entry, same_entry, Grows, Grows-trans}
use basic_os.Vm.Map.{Maps, all, some_of, twice}
use basic_os.Vm.Space.{Ran, ran, and_then}
use basic_os.Vm.Shrink.{IsUser, released}
use basic_os.Vm.Dealloc.{page_end, kfree_good}
use basic_os.Vm.Taken.{taken, entry-taken, Grows-taken, Elsewhere-taken, IsUser-grows, IsUser-add}
use basic_os.Vm.Grow.{true_not_false}
use basic_os.Vm.Space.{freevm}
use basic_os.Vm.OnePage.{map_page, not_taken, page_entry, kept_entry}
use basic_os.Vm.Kernel.{kernel_entry, SetsUp, made, out, Made, setupkvm_lem}
use basic_os.Vm.Rows.{IsOwn-IsBare, zero_absent}
use basic_os.Vm.Holds.{Holds, Holds-freevm, Holds-Grows, Holds-released}
use basic_os.Vm.Copy.{copy_mapped, copy_to, copy_at, copy_from, copyuvm}

-- In `t` the address space `d` is a copy of the pages below number `n` of `pgdir` in `m`, and of the kernel.
pub record Copied (first text pgdir n d : ℕ) (m t : Mem) : Type 0 where
  pub holds : Holds first d m t
  pub same :
      (v : ℕ)
      → frame v < n
      → (flags (entry t d v) ≡ flags (entry m pgdir v))
        × ((j : ℕ) → t.words (frame (entry t d v)) j ≡ m.words (frame (entry m pgdir v)) j)
  pub rest : (v : ℕ) → v < kern_base → n ≤ frame v → entry t d v ≡ 0
  pub kernel : (v : ℕ) → kern_base ≤ v → entry t d v ≡ kernel_entry text v

-- How `copyuvm` ends: with a copy, or with 0; the pages that were in use are as they were.
pub data Copies (first text pgdir n : ℕ) (m : Mem) : Ran → Type 0 where
  copied :
      (d : ℕ) (t : Mem) → Copied first text pgdir n d m t → Copies first text pgdir n m (ran d t)
  given_up :
      (t : Mem)
      → ((q : ℕ) → has q m.free ≡ false → (j : ℕ) → t.words q j ≡ m.words q j)
      → Copies first text pgdir n m (ran 0 t)

table_present :
    (pgdir v : ℕ) (m : Mem)
    → present (entry m pgdir v) ≡ true
    → present (m.words pgdir (pdx v)) ≡ true
table_present pgdir v m p = ground (arith, p)

entry_words :
    (pgdir v : ℕ) (m : Mem)
    → present (m.words pgdir (pdx v)) ≡ true
    → m.words (frame (m.words pgdir (pdx v))) (ptx v) ≡ entry m pgdir v
entry_words pgdir v m p = ground (arith, p)

module _ (first text pgdir size : ℕ) (m : Mem) (pos : 0 < first) (parent : IsUser first pgdir m)
    (fits : size ≤ 0x80000)
    (full : (v : ℕ) → frame v < size → present (entry m pgdir v) ≡ true) where
  -- The entries of the parent are found while the copy is made.
  parent_entry :
      (d i : ℕ) (t : Mem) (rest : Mem → Ran)
      → Holds first d m t
      → present (entry m pgdir i) ≡ true
      → copy_at first d i rest (walkpgdir pgdir i false t)
        ≡ copy_to first d i (entry m pgdir i) rest (kalloc t)
  parent_entry d i t rest h p =
      let s = parent.space in
      let tp = table_present pgdir i m p in
      let r = (h.others pgdir s.root_used).1 (pdx i) in
      let w = (h.others _ (s.table_used (pdx i) tp)).1 (ptx i) in
      elim (walkpgdir_look pgdir i t) [
        | inl (e, q) ↦
            let k = ap (λ z. t.words (frame z) (ptx i)) r ∙ w ∙ entry_words pgdir i m tp in
            ap (copy_at first d i rest) e ∙ rw (k, p) refl
        | inr (e, q) ↦ absurd (true_not_false (sym tp ∙ ap present (sym r) ∙ q))
      ]

  give_up :
      (n d : ℕ) (t : Mem)
      → Holds first d m t
      → Copies first text pgdir size m (and_then (freevm first d t) (λ n m'. ran 0 m'))
  give_up n d t h = let f = Holds-freevm first d m t pos h in rw f.1 (given_up f.0 f.2)

  -- A page added to the copy.
  page-Copied :
      (n d p : ℕ) (ws : ℕ → ℕ → ℕ) (ps : List ℕ) (u : Mem)
      → n < size
      → Copied first text pgdir n d m (record { words = ws; free = p ∷ ps })
      → IsUser first d u
      → Grows d (record { words = ws; free = p ∷ ps }) u
      → ((v : ℕ)
          → entry u d v ≡ (
              if frame v == n
              then pte_of p (flags (entry m pgdir (n * page_size)))
              else entry (record { words = ws; free = p ∷ ps }) d v))
      → ((j : ℕ) → u.words p j ≡ ws (frame (entry m pgdir (n * page_size))) j)
      → Copied first text pgdir (n + 1) d m u
  page-Copied n d p ws ps u low c y g e w =
      let b = c.holds in
      let o = b.own in
      let z = o.user in
      let here = full (n * page_size) (omega arith) in
      let x = (parent.owned (n * page_size) (omega arith) here).0 in
      record {
        holds = Holds-Grows first d m _ u b g y (λ v l pr. elim (Bool-cases (frame v == n)) [
          | inl q ↦
              let k : frame (entry u d v) ≡ p = ground (arith, e v, q) in
              rw k (b.used_free p (ground arith))
          | inr q ↦
              let k : entry u d v ≡ entry (record { words = ws; free = p ∷ ps }) d v =
                ground (arith, e v, q) in
              rw k (b.user_free v l (ap present (sym k) ∙ pr))
        ]);
        same = λ v l. elim (Bool-cases (frame v == n)) [
          | inl q ↦
              let k : frame (entry u d v) ≡ p = ground (arith, e v, q) in
              let s : entry m pgdir v ≡ entry m pgdir (n * page_size) =
                same_entry m pgdir v (n * page_size) (ground (arith, q)) in
              rw s (ground (arith, e v, q, here), rw k (λ j. w j ∙ (b.others _ x.not_free).1 j))
          | inr q ↦
              let k : entry u d v ≡ entry (record { words = ws; free = p ∷ ps }) d v =
                ground (arith, e v, q) in
              let h = c.same v (ground (arith, l, q)) in
              rw k (
                h.0,
                λ j.
                    g.others _
                      (z.owned v (omega (arith, l))
                        (ground (arith, h.0, full v (omega (arith, l))))).0
                      j
                    ∙ h.1 j,
              )
        ];
        rest = λ v l h. ground (arith, e v, c.rest v l, h);
        kernel = λ v l. ground (arith, e v, c.kernel v l, l, low, fits);
      }

  copy_mapped_lem :
      (n d p : ℕ) (ws : ℕ → ℕ → ℕ) (ps : List ℕ) (rest : Mem → Ran) (r : MapEnd × Mem)
      → n < size
      → Copied first text pgdir n d m (record { words = ws; free = p ∷ ps })
      → ((u : Mem)
          → Copied first text pgdir (n + 1) d m u
          → Copies first text pgdir size m (rest u))
      → Maps d n 1 p
          (flags (entry m pgdir (n * page_size)))
          (taken p (ws (frame (entry m pgdir (n * page_size)))) ws ps)
          r
      → Copies first text pgdir size m (copy_mapped first d rest p r)
  copy_mapped_lem n d p ws ps rest r low c k (all u a) = k u (
      let b = c.holds in
      let o = b.own in
      let y = o.user in
      let w = a.grows in
      let t : Mem = record { words = ws; free = p ∷ ps } in
      let fl = flags (entry m pgdir (n * page_size)) in
      let f = ws (frame (entry m pgdir (n * page_size))) in
      let gr = Grows-trans d t (taken p f ws ps) u (Grows-taken first d p f ws ps y) w in
      let ow = Elsewhere-taken first d p f ws ps y in
      let e = λ (v : ℕ). page_entry d n p fl f ws ps u (entry-taken first d p f ws ps y) a v in
      page-Copied n d p ws ps u low c
        (IsUser-add first d n p (pte_of p fl) t u y gr (w.still p ow) (y.good p (ground arith))
          (omega arith) (not_taken first d p ws ps y) e)
        gr e (λ j. w.others p ow j ∙ ground arith))
  copy_mapped_lem n d p ws ps rest r low c k (some_of u i l a e) =
      let b = c.holds in
      let o = b.own in
      let y = o.user in
      let w = a.grows in
      let t : Mem = record { words = ws; free = p ∷ ps } in
      let fl = flags (entry m pgdir (n * page_size)) in
      let f = ws (frame (entry m pgdir (n * page_size))) in
      let gr = Grows-trans d t (taken p f ws ps) u (Grows-taken first d p f ws ps y) w in
      let ow = Elsewhere-taken first d p f ws ps y in
      let kept =
        λ (v : ℕ). kept_entry d n i p fl f ws ps u l (entry-taken first d p f ws ps y) a v in
      let us = IsUser-grows first d t u y gr kept in
      let h =
        Holds-Grows first d m t u b gr us
          (λ v lv pr. rw (kept v) (b.user_free v lv (ap present (sym (kept v)) ∙ pr))) in
      rw (kfree_good first p u (y.good p (ground arith))) (
        give_up n d (released p u) (
          Holds-released first d p m u h (b.used_free p (ground arith)) (w.still p ow)
            (y.good p (ground arith))
            (λ v lv pr.
              rw (kept v) (not_taken first d p ws ps y v lv (ap present (sym (kept v)) ∙ pr)))))
  copy_mapped_lem n d p ws ps rest r low c k (twice u i l a e) =
      let b = c.holds in
      let o = b.own in
      let y = o.user in
      let x : (n + i) * page_size ≡ n * page_size = omega (arith, l) in
      let z =
        ap (λ a. entry (taken p (ws (frame (entry m pgdir (n * page_size)))) ws ps) d a) x
        ∙ entry-taken first d p (ws (frame (entry m pgdir (n * page_size)))) ws ps y (n * page_size)
        ∙ c.rest (n * page_size) (omega arith) (omega arith) in
      absurd (true_not_false (sym e ∙ ap present z))

  copy_to_lem :
      (n d : ℕ) (ws : ℕ → ℕ → ℕ) (fs : List ℕ) (rest : Mem → Ran)
      → n < size
      → Copied first text pgdir n d m (record { words = ws; free = fs })
      → ((u : Mem)
          → Copied first text pgdir (n + 1) d m u
          → Copies first text pgdir size m (rest u))
      → Copies first text pgdir size m
          (copy_to first d (n * page_size) (entry m pgdir (n * page_size)) rest (first_free ws fs))
  copy_to_lem n d ws [] rest low c k = give_up n d _ c.holds
  copy_to_lem n d ws (p ∷ ps) rest low c k =
      let b = c.holds in
      let o = b.own in
      let y = o.user in
      let f = ws (frame (entry m pgdir (n * page_size))) in
      let w = Grows-taken first d p f ws ps y in
      copy_mapped_lem n d p ws ps rest _ low c k (
        map_page d n p (flags (entry m pgdir (n * page_size))) (taken p f ws ps) w.space
          (omega arith) (y.good p (ground arith)).1)

  copy_from_lem :
      (k n d : ℕ) (t : Mem)
      → n + k ≡ size
      → Copied first text pgdir n d m t
      → Copies first text pgdir size m (copy_from first pgdir d k (n * page_size) t)
  unfolding copy_from kalloc
  copy_from_lem zero n d t e c =
      copied d t (subst (λ b. Copied first text pgdir b d m t) (omega (arith, e)) c)
  copy_from_lem (suc k) n d t e c =
      rw (parent_entry d (n * page_size) t _ c.holds (full (n * page_size) (omega (arith, e)))) (
        copy_to_lem n d t.words t.free _ (omega (arith, e)) c (λ u h.
          subst (λ b. Copies first text pgdir size m (copy_from first pgdir d k b u)) (omega arith)
            (copy_from_lem k (n + 1) d u (omega (arith, e)) h)))

  -- The copy before its first page.
  Copied-Made : (d : ℕ) (t : Mem) → Made first text d m t → Copied first text pgdir 0 d m t
  Copied-Made d t h =
      let b = h.bare in
      record {
        holds = record {
          own = IsOwn-IsBare first d t b;
          user_free = λ v l p. absurd (zero_absent _ (b.no_user v l) p);
          others = h.others;
          used_free = h.used_free;
        };
        same = λ v l. absurd (omega arith);
        rest = λ v l e. b.no_user v l;
        kernel = λ v l. h.entries v;
      }

  copy_all :
      (r : Ran)
      → SetsUp first text m r
      → Copies first text pgdir size m
          (and_then r (λ d m'. if d == 0 then ran 0 m' else copy_from first pgdir d size 0 m'))
  copy_all r (made d t h) =
      let b = h.bare in
      let z : (d == 0) ≡ false = ground (arith, b.root_good, pos) in
      rw z (copy_from_lem size 0 d t (omega arith) (Copied-Made d t h))
  copy_all r (out t h) = given_up t h

-- `copyuvm` of an address space whose user pages are its own and all mapped below `sz`, at most
-- KERNBASE, never panics and ends in one of two ways: with an address space made of pages that were
-- free, which has for every page below `sz` a page with the same contents and the same flags, nothing
-- above, and the kernel's entries; or with 0. Either way all pages that were in use, the parent's
-- among them, keep their contents.
pub copyuvm_lem :
    (first text pgdir sz : ℕ) (m : Mem)
    → 0 < first
    → text % page_size ≡ 0
    → ext_mem < text
    → text < phys_top
    → IsUser first pgdir m
    → sz ≤ kern_base
    → ((v : ℕ) → frame v < page_end sz → present (entry m pgdir v) ≡ true)
    → Copies first text pgdir (page_end sz) m (copyuvm first text pgdir sz m)
unfolding copyuvm
copyuvm_lem first text pgdir sz m pos e h k parent fits full =
    let s = parent.space in
    copy_all first text pgdir (page_end sz) m pos parent (omega arith) full _
      (setupkvm_lem first text m pos e h k s.distinct parent.good)

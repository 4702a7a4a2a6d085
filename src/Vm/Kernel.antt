-- ===== src/Vm/Kernel.antt =====
-- `setupkvm` of vm.c.
use basic_os.Prelude.{
  ℕ, ◌+◌, ◌-◌, ◌/◌, ◌%◌, ◌<◌, ◌≡◌, refl, ◌∙◌, arith, true, false, ◌&&◌, List, [], ◌∷◌, ltb, leb,
  if◌then◌else◌, has, IsDistinct,
}
use basic_os.Vm.{Mem, page_size, phys_top, ext_mem, frame, present, pte_of, kalloc, first_free}
use basic_os.Vm.Walk.{entry, Elsewhere}
use basic_os.Vm.Space.{Ran, ran}
use basic_os.Vm.Shrink.{IsGood}
use basic_os.Vm.Taken.{taken}
use basic_os.Vm.Space.{kmap, setup_at, setupkvm}
use basic_os.Vm.Rows.{IsBare, IsRows, rows_entry, Sets, map_rows_lem, set, spent}

-- The entry that the table of vm.c describes for an address of the kernel: memory from `kern_base` on,
-- of which the text is read only, and the devices at their own addresses.
pub kernel_entry : ℕ → ℕ → ℕ
kernel_entry text v =
    let n = frame v in
    if leb 0x80000 n && ltb n (0x80000 + phys_top / page_size)
    then pte_of (n - 0x80000) (if leb 0x80100 n && ltb n (0x80000 + text / page_size) then 0 else 2)
    else if leb 0xFE000 n && ltb n 0x100000
    then pte_of n 2
    else 0

rows_kernel :
    (text v : ℕ)
    → text % page_size ≡ 0
    → ext_mem < text
    → text < phys_top
    → rows_entry (kmap text) v ≡ kernel_entry text v
unfolding kernel_entry
rows_kernel text v e h k = ground (arith, e, h, k)

kmap-IsRows :
    (text : ℕ)
    → text % page_size ≡ 0
    → ext_mem < text
    → text < phys_top
    → IsRows 0x80000 (kmap text)
kmap-IsRows text e h k = omega arith

low_entry :
    (text v r e : ℕ)
    → e ≡ 0
    → r ≡ kernel_entry text v
    → (if leb 0x80000 (frame v) then r else e) ≡ kernel_entry text v
unfolding kernel_entry
low_entry text v r e z h = ground (arith, z, h)

-- An address space for the kernel, made of free pages only.
pub record Made (first text d : ℕ) (m t : Mem) : Type 0 where
  pub bare : IsBare first d t
  pub root_free : has d m.free ≡ true
  pub entries : (v : ℕ) → entry t d v ≡ kernel_entry text v
  pub others :
      (q : ℕ) → has q m.free ≡ false → Elsewhere d t q × ((j : ℕ) → t.words q j ≡ m.words q j)
  pub used_free : (q : ℕ) → has q t.free ≡ true → has q m.free ≡ true

-- How `setupkvm` ends: with an address space, or with 0 and all pages that were in use as they were.
pub data SetsUp (first text : ℕ) (m : Mem) : Ran → Type 0 where
  made : (d : ℕ) (t : Mem) → Made first text d m t → SetsUp first text m (ran d t)
  out :
      (t : Mem)
      → ((q : ℕ) → has q m.free ≡ false → (j : ℕ) → t.words q j ≡ m.words q j)
      → SetsUp first text m (ran 0 t)

module _ (first text d : ℕ) (ws : ℕ → ℕ → ℕ) (ps : List ℕ) (distinct : IsDistinct (d ∷ ps))
    (good : (p : ℕ) → has p (d ∷ ps) ≡ true → IsGood first p) where
  zero_root : (i : ℕ) → present ((taken d (λ j. 0) ws ps).words d i) ≡ true → ⊥
  zero_root i p = ground (arith, p)

  no_entry : (v : ℕ) → entry (taken d (λ j. 0) ws ps) d v ≡ 0
  no_entry v = ground arith

  IsBare-root : IsBare first d (taken d (λ j. 0) ws ps)
  IsBare-root = record {
    space = record {
      not_root = λ i p. absurd (zero_root i p);
      apart = λ i j ne p q. absurd (zero_root i p);
      table_used = λ i p. absurd (zero_root i p);
      root_used = distinct.0;
      distinct = distinct.1;
    };
    root_good = good d (ground arith);
    table_good = λ i p. absurd (zero_root i p);
    free_good = λ p h. good p (ground (arith, h));
    no_user = λ v l. no_entry v;
  }

  Elsewhere-root :
      (q : ℕ)
      → has q (d ∷ ps) ≡ false
      → Elsewhere d (taken d (λ j. 0) ws ps) q
        × ((j : ℕ) → (taken d (λ j. 0) ws ps).words q j ≡ ws q j)
  Elsewhere-root q h = (
    record {
      not_free = ground (arith, h);
      not_root = ground (arith, h);
      not_table = λ i p. absurd (zero_root i p);
    },
    λ j. ground (arith, h),
  )

  SetsUp-Sets :
      (r : Ran)
      → Sets first d 0x80000 (kmap text) (taken d (λ j. 0) ws ps) r
      → ((v : ℕ) → rows_entry (kmap text) v ≡ kernel_entry text v)
      → SetsUp first text (record { words = ws; free = d ∷ ps }) r
  SetsUp-Sets r (set t b g e) k = made d t (record {
    bare = b;
    root_free = ground arith;
    entries = λ v. e v ∙ low_entry text v _ _ (no_entry v) (k v);
    others = λ q h. let o = Elsewhere-root q h in (g.still q o.0, λ j. g.others q o.0 j ∙ o.1 j);
    used_free = λ q h. ground (arith, g.taken q h);
  })
  SetsUp-Sets r (spent t w) k = out t (λ q h j. let o = Elsewhere-root q h in w q o.0 j ∙ o.1 j)

setup_at_lem :
    (first text : ℕ) (ws : ℕ → ℕ → ℕ) (fs : List ℕ)
    → 0 < first
    → text % page_size ≡ 0
    → ext_mem < text
    → text < phys_top
    → IsDistinct fs
    → ((p : ℕ) → has p fs ≡ true → IsGood first p)
    → SetsUp first text (record { words = ws; free = fs }) (setup_at first text (first_free ws fs))
setup_at_lem first text ws [] pos e h k d g = out _ (λ q f j. refl)
setup_at_lem first text ws (p ∷ ps) pos e h k d g =
    SetsUp-Sets first text p ws ps d g _
      (map_rows_lem first p 0x80000 (kmap text) (taken p (λ j. 0) ws ps) pos (omega arith)
        (kmap-IsRows text e h k) (IsBare-root first text p ws ps d g)
        (λ v l. no_entry first text p ws ps d g v))
      (λ v. rows_kernel text v e h k)

-- `setupkvm`, where the free pages are distinct and good and `data` is page-aligned between EXTMEM and
-- PHYSTOP, never panics and ends in one of two ways: with an address space made of free pages whose
-- entries are exactly the kernel's, physical memory from KERNBASE on with the text read only, the
-- devices at their own addresses and nothing for the user; or with 0. Either way the pages that were
-- in use keep their contents.
pub setupkvm_lem :
    (first text : ℕ) (m : Mem)
    → 0 < first
    → text % page_size ≡ 0
    → ext_mem < text
    → text < phys_top
    → IsDistinct m.free
    → ((p : ℕ) → has p m.free ≡ true → IsGood first p)
    → SetsUp first text m (setupkvm first text m)
unfolding setupkvm kalloc
setupkvm_lem first text m pos e h k d g = setup_at_lem first text m.words m.free pos e h k d g

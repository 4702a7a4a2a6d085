-- ===== src/Vm/Rows.antt =====
-- Rows of `kmap` in vm.c and the page tables they are mapped into.
use basic_os.Prelude.{
  ℕ, ◌+◌, ◌-◌, ◌*◌, ◌^◌, ◌≤◌, ◌<◌, ◌≡◌, inl, inr, refl, sym, ap, ◌∙◌, arith, true, ◌&&◌, List, [],
  ◌∷◌, ltb, leb, if◌then◌else◌, has,
}
use basic_os.Vm.{Mem, page_size, kern_base, frame, present, pte_of, MapEnd}
use basic_os.Vm.Walk.{entry, IsSpace, Elsewhere, Grows, Grows-refl, Grows-trans}
use basic_os.Vm.Map.{Maps, all, some_of, twice, Mapped, mappages_lem, touched, in_pages}
use basic_os.Vm.Space.{Ran, ran}
use basic_os.Vm.Shrink.{IsGood}
use basic_os.Vm.Space.{freevm}
use basic_os.Vm.Space.{Kmap, map_row, map_rows}
use basic_os.Vm.Free.{IsOwn, freevm_lem}

-- An address space without user pages.
pub record IsBare (first pgdir : ℕ) (m : Mem) : Type 0 where
  pub space : IsSpace pgdir m
  pub root_good : IsGood first pgdir
  pub table_good :
      (i : ℕ) → present (m.words pgdir i) ≡ true → IsGood first (frame (m.words pgdir i))
  pub free_good : (p : ℕ) → has p m.free ≡ true → IsGood first p
  pub no_user : (v : ℕ) → v < kern_base → entry m pgdir v ≡ 0

pub zero_absent : (e : ℕ) → e ≡ 0 → present e ≡ true → ⊥
zero_absent e z p = ground (arith, z, p)

pub IsOwn-IsBare : (first pgdir : ℕ) (m : Mem) → IsBare first pgdir m → IsOwn first pgdir m
IsOwn-IsBare first pgdir m b = record {
  user = record {
    space = b.space;
    owned = λ v l p. absurd (zero_absent _ (b.no_user v l) p);
    once = λ u v lu lv ne p q. absurd (zero_absent _ (b.no_user u lu) p);
    good = b.free_good;
  };
  root_good = b.root_good;
  table_good = b.table_good;
}

IsBare-Mapped :
    (first pgdir base k page perm : ℕ) (m u : Mem)
    → kern_base ≤ base * page_size
    → IsBare first pgdir m
    → Mapped pgdir base k page perm m u
    → IsBare first pgdir u
IsBare-Mapped first pgdir base k page perm m u le b a =
    let g = a.grows in
    record {
      space = g.space;
      root_good = b.root_good;
      table_good = λ i p. elim (g.tables i p) [
        | inl e ↦ rw e (b.table_good i (ap present (sym e) ∙ p))
        | inr e ↦ b.free_good _ e
      ];
      free_good = λ p h. b.free_good p (g.taken p h);
      no_user = λ v l. ground (arith, a.entries v, b.no_user v, l, le);
    }

-- What `freevm` leaves of such an address space.
freevm_bare :
    (first pgdir : ℕ) (m : Mem)
    → 0 < first
    → IsBare first pgdir m
    → (m' : Mem) × (freevm first pgdir m ≡ ran 0 m')
      × ((q : ℕ) → Elsewhere pgdir m q → (j : ℕ) → m'.words q j ≡ m.words q j)
freevm_bare first pgdir m pos b =
    let d = freevm_lem first pgdir m pos (IsOwn-IsBare first pgdir m b) in
    (
      d.0,
      d.1,
      λ q e.
          d.2 q (record {
            elsewhere = e;
            not_user = λ v l p. absurd (zero_absent _ (b.no_user v l) p);
          }),
    )

-- Rows whose pages follow each other, from page number `lo` on.
abbrev pub IsRows : ℕ → List Kmap → Type 0
IsRows lo [] = Unit
IsRows lo (k ∷ ks) =
    (lo ≤ frame k.virt)
    × (0 < k.size)
    × (k.virt + k.size ≤ 2 ^ 32)
    × (k.phys + touched k.virt k.size ≤ 2 ^ 20)
    × IsRows (frame k.virt + touched k.virt k.size) ks

-- The entry that they give to an address.
abbrev pub rows_entry : List Kmap → ℕ → ℕ
rows_entry [] v = 0
rows_entry (k ∷ ks) v =
    if in_pages (frame k.virt) (touched k.virt k.size) v
    then pte_of (k.phys + (frame v - frame k.virt)) k.perm
    else rows_entry ks v

pub data Sets (first pgdir lo : ℕ) (ks : List Kmap) (m : Mem) : Ran → Type 0 where
  set :
      (t : Mem)
      → IsBare first pgdir t
      → Grows pgdir m t
      → ((v : ℕ)
          → entry t pgdir v ≡ (if leb lo (frame v) then rows_entry ks v else entry m pgdir v))
      → Sets first pgdir lo ks m (ran pgdir t)
  spent :
      (t : Mem)
      → ((q : ℕ) → Elsewhere pgdir m q → (j : ℕ) → t.words q j ≡ m.words q j)
      → Sets first pgdir lo ks m (ran 0 t)

rows_entry_low :
    (lo : ℕ) (ks : List Kmap) (v : ℕ) → IsRows lo ks → frame v < lo → rows_entry ks v ≡ 0
rows_entry_low lo [] v h l = refl
rows_entry_low lo (k ∷ ks) v h l =
    let r = rows_entry_low (frame k.virt + touched k.virt k.size) ks v h.4 (omega (arith, h.0)) in
    ground (arith, r, h.0, l)

row_lem :
    (lo base k f p w e0 e1 e2 : ℕ)
    → lo ≤ base
    → (lo ≤ f → e0 ≡ 0)
    → e1 ≡ (if leb base f && ltb f (base + k) then p else e0)
    → (f < base + k → w ≡ 0)
    → e2 ≡ (if leb (base + k) f then w else e1)
    → e2 ≡ (if leb lo f then (if leb base f && ltb f (base + k) then p else w) else e0)
row_lem lo base k f p w e0 e1 e2 le z a c b = ground (arith, z, a, b, c)

Sets-Mapped :
    (first pgdir lo : ℕ) (k : Kmap) (ks : List Kmap) (m u : Mem) (r : Ran)
    → lo ≤ frame k.virt
    → IsRows (frame k.virt + touched k.virt k.size) ks
    → ((v : ℕ) → lo ≤ frame v → entry m pgdir v ≡ 0)
    → Mapped pgdir (frame k.virt) (touched k.virt k.size) k.phys k.perm m u
    → Sets first pgdir (frame k.virt + touched k.virt k.size) ks u r
    → Sets first pgdir lo (k ∷ ks) m r
Sets-Mapped first pgdir lo k ks m u r le rs z a (set t b g e) =
    set t b (Grows-trans pgdir m u t a.grows g) (λ v.
      row_lem lo (frame k.virt) (touched k.virt k.size) (frame v) _ _ _ _ _ le (z v) (a.entries v)
        (rows_entry_low _ ks v rs) (e v))
Sets-Mapped first pgdir lo k ks m u r le rs z a (spent t w) =
    let g = a.grows in spent t (λ q o j. w q (g.still q o) j ∙ g.others q o j)

map_row_lem :
    (first pgdir lo : ℕ) (k : Kmap) (ks : List Kmap) (m : Mem) (rest : Mem → Ran) (r : MapEnd × Mem)
    → 0 < first
    → kern_base ≤ lo * page_size
    → IsRows lo (k ∷ ks)
    → IsBare first pgdir m
    → ((v : ℕ) → lo ≤ frame v → entry m pgdir v ≡ 0)
    → ((t : Mem)
        → IsBare first pgdir t
        → ((v : ℕ) → frame k.virt + touched k.virt k.size ≤ frame v → entry t pgdir v ≡ 0)
        → Sets first pgdir (frame k.virt + touched k.virt k.size) ks t (rest t))
    → Maps pgdir (frame k.virt) (touched k.virt k.size) k.phys k.perm m r
    → Sets first pgdir lo (k ∷ ks) m (map_row first pgdir rest r)
map_row_lem first pgdir lo k ks m rest r pos le h b z go (all u a) =
    Sets-Mapped first pgdir lo k ks m u (rest u) h.0 h.4 z a (
      go u (IsBare-Mapped first pgdir _ _ _ _ m u (omega (arith, h.0)) b a)
        (λ v l. ground (arith, a.entries v, z v, l, h.0)))
map_row_lem first pgdir lo k ks m rest r pos le h b z go (some_of u i l a e) =
    let g = a.grows in
    let d =
      freevm_bare first pgdir u pos (IsBare-Mapped first pgdir _ _ _ _ m u (omega arith) b a) in
    rw d.1 (spent d.0 (λ q o j. d.2 q (g.still q o) j ∙ g.others q o j))
map_row_lem first pgdir lo k ks m rest r pos le h b z go (twice u i l a e) =
    absurd (zero_absent _ (z _ (omega arith)) e)

pub map_rows_lem :
    (first pgdir lo : ℕ) (ks : List Kmap) (m : Mem)
    → 0 < first
    → kern_base ≤ lo * page_size
    → IsRows lo ks
    → IsBare first pgdir m
    → ((v : ℕ) → lo ≤ frame v → entry m pgdir v ≡ 0)
    → Sets first pgdir lo ks m (map_rows first pgdir ks m)
unfolding map_rows
map_rows_lem first pgdir lo [] m pos le h b z =
    set m b (Grows-refl pgdir m b.space) (λ v. ground (arith, z v))
map_rows_lem first pgdir lo (k ∷ ks) m pos le h b z =
    map_row_lem first pgdir lo k ks m _ _ pos le h b z
      (λ t c y.
        map_rows_lem first pgdir (frame k.virt + touched k.virt k.size) ks t pos
          (omega (arith, h.0)) h.4 c y)
      (mappages_lem pgdir k.virt k.size k.phys k.perm m b.space h.1 h.2 h.3)

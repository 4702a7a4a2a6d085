-- ===== src/Vm/Map.antt =====
-- `mappages` of vm.c on whole ranges of pages.
use basic_os.Prelude.{
  ℕ, zero, suc, ◌+◌, ◌-◌, ◌*◌, ◌/◌, ◌%◌, ◌^◌, ◌≤◌, ◌<◌, ◌≡◌, inl, inr, sym, ap₂, ◌∙◌, arith, Bool,
  true, false, ◌&&◌, Option, [], ltb, leb, if◌then◌else◌, Bool-cases,
}
use basic_os.Vm.{
  Mem, page_size, frame, present, put, pte_of, MapEnd, mapped, no_memory, remap, map_at, map_one,
  map_on, map_from, mappages,
}
use basic_os.Vm.Walk.{
  entry, IsSpace, Grows, Grows-trans, Walked, Walks, found, full, walkpgdir_alloc, entry-put,
  Grows-put, Grows-refl, same_entry,
}

-- The `k` pages from page number `base` on.
abbrev pub in_pages : ℕ → ℕ → ℕ → Bool
in_pages base k va = leb base (frame va) && ltb (frame va) (base + k)

-- From `m` to `m'` the `k` pages from `base` on, which were not mapped, were mapped to those from `page` on.
pub record Mapped (pgdir base k page perm : ℕ) (m m' : Mem) : Type 0 where
  pub entries :
      (v : ℕ)
      → entry m' pgdir v
        ≡ (if in_pages base k v then pte_of (page + (frame v - base)) perm else entry m pgdir v)
  pub absent : (v : ℕ) → in_pages base k v ≡ true → present (entry m pgdir v) ≡ false
  pub grows : Grows pgdir m m'

pub data Maps (pgdir base n page perm : ℕ) (m : Mem) : MapEnd × Mem → Type 0 where
  all : (m' : Mem) → Mapped pgdir base n page perm m m' → Maps pgdir base n page perm m (mapped, m')
  some_of :
      (m' : Mem) (k : ℕ)
      → k < n
      → Mapped pgdir base k page perm m m'
      → m'.free ≡ []
      → Maps pgdir base n page perm m (no_memory, m')
  twice :
      (m' : Mem) (k : ℕ)
      → k < n
      → Mapped pgdir base k page perm m m'
      → present (entry m pgdir ((base + k) * page_size)) ≡ true
      → Maps pgdir base n page perm m (remap, m')

Mapped-walk :
    (pgdir base page perm va t i : ℕ) (m m' : Mem)
    → Walked pgdir va m m' t i
    → Mapped pgdir base 0 page perm m m'
Mapped-walk pgdir base page perm va t i m m' w = record {
  entries = λ v. ground (arith, w.entries v);
  absent = λ v h. ground (arith, h);
  grows = w.grows;
}

Mapped-add :
    (pgdir base k page perm : ℕ) (m t u : Mem)
    → Mapped pgdir base 1 page perm m t
    → Mapped pgdir (base + 1) k (page + 1) perm t u
    → Mapped pgdir base (suc k) page perm m u
Mapped-add pgdir base k page perm m t u a b = record {
  entries = λ v. ground (arith, a.entries v, b.entries v);
  absent = λ v h. ground (arith, a.entries v, a.absent v, b.absent v, h);
  grows = Grows-trans pgdir m t u a.grows b.grows;
}

Mapped-refl :
    (pgdir base page perm : ℕ) (m : Mem) → IsSpace pgdir m → Mapped pgdir base 0 page perm m m
Mapped-refl pgdir base page perm m s = record {
  entries = λ v. ground arith;
  absent = λ v h. ground (arith, h);
  grows = Grows-refl pgdir m s;
}

found_entry :
    (pgdir va t i : ℕ) (m m' : Mem) → Walked pgdir va m m' t i → m'.words t i ≡ entry m pgdir va
found_entry pgdir va t i m m' w = sym (ground (arith, w.table, w.index)) ∙ w.entries va

Mapped-put :
    (pgdir base page perm t i : ℕ) (m m' : Mem)
    → Walked pgdir (base * page_size) m m' t i
    → present (m'.words t i) ≡ false
    → Mapped pgdir base 1 page perm m (put t i (pte_of page perm) m')
Mapped-put pgdir base page perm t i m m' w free =
    rw (sym w.table.1, w.index)
      (record {
        entries = λ v. ground (
          arith,
          entry-put pgdir (base * page_size) m' (pte_of page perm) w.grows.space w.table.0 v,
          w.entries v,
        );
        absent = λ v h. ground (
          arith,
          same_entry m pgdir v (base * page_size),
          found_entry pgdir (base * page_size) t i m m' w,
          free,
          h,
        );
        grows =
            Grows-trans pgdir m m' _ w.grows
              (Grows-put pgdir (base * page_size) m' (pte_of page perm) w.grows.space w.table.0);
      })

map_at_lem :
    (pgdir base page perm : ℕ) (m : Mem) (r : Option (ℕ × ℕ) × Mem)
    → IsSpace pgdir m
    → Walks pgdir (base * page_size) m r
    → Maps pgdir base 1 page perm m (map_at page perm r)
map_at_lem pgdir base page perm m r s (full e) =
    some_of m 0 (omega arith) (Mapped-refl pgdir base page perm m s) e
map_at_lem pgdir base page perm m r s (found m' t i w) =
    elim (Bool-cases (present (m'.words t i))) [
      | inl e ↦ rw e (
          twice m' 0 (omega arith) (Mapped-walk pgdir base page perm _ t i m m' w)
            (ground (arith, e, found_entry pgdir (base * page_size) t i m m' w)))
      | inr e ↦ rw e (all _ (Mapped-put pgdir base page perm t i m m' w e))
    ]

map_one_lem :
    (pgdir base page perm : ℕ) (m : Mem)
    → IsSpace pgdir m
    → Maps pgdir base 1 page perm m (map_one pgdir (base * page_size) page perm m)
unfolding map_one
map_one_lem pgdir base page perm m s =
    map_at_lem pgdir base page perm m _ s (walkpgdir_alloc pgdir (base * page_size) m s)

map_on_lem :
    (pgdir base n page perm : ℕ) (m : Mem) (rest : Mem → MapEnd × Mem) (r : MapEnd × Mem)
    → Maps pgdir base 1 page perm m r
    → ((t : Mem) → IsSpace pgdir t → Maps pgdir (base + 1) n (page + 1) perm t (rest t))
    → Maps pgdir base (suc n) page perm m (map_on rest r)
map_on_lem pgdir base n page perm m rest r (all t a) h = go _ (h t a.grows.space)
  where
    go :
        (r : MapEnd × Mem)
        → Maps pgdir (base + 1) n (page + 1) perm t r
        → Maps pgdir base (suc n) page perm m r
    go r (all u b) = all u (Mapped-add pgdir base n page perm m t u a b)
    go r (some_of u k l b e) =
        some_of u (suc k) (omega (arith, l)) (Mapped-add pgdir base k page perm m t u a b) e
    go r (twice u k l b e) =
        twice u (suc k) (omega (arith, l)) (Mapped-add pgdir base k page perm m t u a b)
          (ground (arith, a.entries ((base + 1 + k) * page_size), e))
map_on_lem pgdir base n page perm m rest r (some_of t k l a e) h = some_of t k (omega arith) a e
map_on_lem pgdir base n page perm m rest r (twice t k l a e) h = twice t k (omega arith) a e

next_page :
    (pgdir n base page perm : ℕ) (t : Mem)
    → base + 1 < 2 ^ 20
    → page + 1 < 2 ^ 20
    → Maps pgdir
        (base + 1)
        (suc n)
        (page + 1)
        perm
        t
        (map_from pgdir n ((base + 1) * page_size) (page + 1) perm t)
    → Maps pgdir
        (base + 1)
        (suc n)
        (page + 1)
        perm
        t
        (map_from pgdir n ((base * page_size + page_size) % 2 ^ 32) ((page + 1) % 2 ^ 20) perm t)
next_page pgdir n base page perm t h k r =
    let e : (base * page_size + page_size) % 2 ^ 32 ≡ (base + 1) * page_size = omega arith in
    let f : (page + 1) % 2 ^ 20 ≡ page + 1 = omega arith in rw (e, f) r

map_from_lem :
    (pgdir base n page perm : ℕ) (m : Mem)
    → base + n < 2 ^ 20
    → page + n < 2 ^ 20
    → IsSpace pgdir m
    → Maps pgdir base (suc n) page perm m (map_from pgdir n (base * page_size) page perm m)
unfolding map_from
map_from_lem pgdir base zero page perm m h k s = map_one_lem pgdir base page perm m s
map_from_lem pgdir base (suc n) page perm m h k s =
    map_on_lem pgdir base (suc n) page perm m _ _ (map_one_lem pgdir base page perm m s) (λ t st.
      next_page pgdir n base page perm t (omega arith) (omega arith)
        (map_from_lem pgdir (base + 1) n (page + 1) perm t (omega arith) (omega arith) st))

-- The number of pages that the addresses from `va` to `va + size` touch.
abbrev pub touched : ℕ → ℕ → ℕ
touched va size = suc ((va + size - 1) / page_size - va / page_size)

mappages_from :
    (pgdir va size page perm : ℕ) (m : Mem)
    → 0 < size
    → va + size ≤ 2 ^ 32
    → mappages pgdir va size page perm m
      ≡ map_from pgdir
          ((va + size - 1) / page_size - va / page_size)
          (frame va * page_size)
          page
          perm
          m
unfolding mappages
mappages_from pgdir va size page perm m h k =
    ap₂ (λ n a. map_from pgdir n a page perm m) (omega arith) (omega arith)

-- `mappages` of a range of addresses that is not empty and does not wrap, to physical pages below 2 ^
-- 20, in an address space whose tables are pages of their own and not free: if it returns 0, exactly
-- the pages that the range touches, none of which was mapped, have become the consecutive physical
-- pages with the given flags; if it returns -1, a prefix of them has, and no page is free; if it
-- panics, a prefix has and the next was already mapped. In each case the entries of all other
-- addresses are kept, the address space is well formed, and pages that were neither free nor part of
-- it keep their contents.
pub mappages_lem :
    (pgdir va size page perm : ℕ) (m : Mem)
    → IsSpace pgdir m
    → 0 < size
    → va + size ≤ 2 ^ 32
    → page + touched va size ≤ 2 ^ 20
    → Maps pgdir (frame va) (touched va size) page perm m (mappages pgdir va size page perm m)
mappages_lem pgdir va size page perm m s h k l =
    rw (mappages_from pgdir va size page perm m h k)
      (map_from_lem pgdir (frame va) _ page perm m (omega arith) (omega arith) s)

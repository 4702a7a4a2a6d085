-- ===== src/Vm/Walk.antt =====
-- Address spaces of vm.c: what a page table says, and what `walkpgdir` keeps of it.
use basic_os.Prelude.{
  ℕ, ◌+◌, ◌*◌, ◌/◌, ◌%◌, ◌≡◌, ◌≢◌, ◌⊎◌, inl, inr, refl, sym, ap, ◌∙◌, arith, true, false, Option,
  none, some, List, [], ◌∷◌, ◌==◌, if◌then◌else◌, has, IsDistinct, Bool-cases,
}
use basic_os.Vm.{
  Mem, page_size, pdx, ptx, frame, present, put, fill, first_free, kalloc, new_table, walkpgdir,
}

-- The page-table entry of an address, 0 where there is no table for it.
abbrev pub entry : Mem → ℕ → ℕ → ℕ
entry m pgdir va =
    let pde = m.words pgdir (pdx va) in if present pde then m.words (frame pde) (ptx va) else 0

-- The tables of an address space are pages of their own, none of them free.
pub record IsSpace (pgdir : ℕ) (m : Mem) : Type 0 where
  pub not_root : (i : ℕ) → present (m.words pgdir i) ≡ true → frame (m.words pgdir i) ≢ pgdir
  pub apart :
      (i j : ℕ)
      → i ≢ j
      → present (m.words pgdir i) ≡ true
      → present (m.words pgdir j) ≡ true
      → frame (m.words pgdir i) ≢ frame (m.words pgdir j)
  pub table_used :
      (i : ℕ) → present (m.words pgdir i) ≡ true → has (frame (m.words pgdir i)) m.free ≡ false
  pub root_used : has pgdir m.free ≡ false
  pub distinct : IsDistinct m.free

-- A page that is neither free nor part of the address space.
pub record Elsewhere (pgdir : ℕ) (m : Mem) (q : ℕ) : Type 0 where
  pub not_free : has q m.free ≡ false
  pub not_root : q ≢ pgdir
  pub not_table : (i : ℕ) → present (m.words pgdir i) ≡ true → frame (m.words pgdir i) ≢ q

-- What growing an address space keeps: itself, and all pages that are elsewhere, which stay elsewhere.
pub record Grows (pgdir : ℕ) (m m' : Mem) : Type 0 where
  pub space : IsSpace pgdir m'
  pub others : (q : ℕ) → Elsewhere pgdir m q → (i : ℕ) → m'.words q i ≡ m.words q i
  pub still : (q : ℕ) → Elsewhere pgdir m q → Elsewhere pgdir m' q
  pub taken : (q : ℕ) → has q m'.free ≡ true → has q m.free ≡ true
  pub tables :
      (i : ℕ)
      → present (m'.words pgdir i) ≡ true
      → (m'.words pgdir i ≡ m.words pgdir i) ⊎ (has (frame (m'.words pgdir i)) m.free ≡ true)

pub Grows-refl : (pgdir : ℕ) (m : Mem) → IsSpace pgdir m → Grows pgdir m m
Grows-refl pgdir m s = record {
  space = s;
  others = λ q e i. refl;
  still = λ q e. e;
  taken = λ q h. h;
  tables = λ i h. inl refl;
}

pub Grows-trans : (pgdir : ℕ) (m t u : Mem) → Grows pgdir m t → Grows pgdir t u → Grows pgdir m u
Grows-trans pgdir m t u a b = record {
  space = b.space;
  others = λ q e i. b.others q (a.still q e) i ∙ a.others q e i;
  still = λ q e. b.still q (a.still q e);
  taken = λ q h. a.taken q (b.taken q h);
  tables = λ i h. elim (b.tables i h) [
    | inl e ↦ elim (a.tables i (ap present (sym e) ∙ h)) [
      | inl f ↦ inl (e ∙ f)
      | inr f ↦ inr (ap (λ w. has (frame w) m.free) e ∙ f)
    ]
    | inr e ↦ inr (a.taken _ e)
  ];
}

-- The address space after a page `t` that was free has become the table for `va`.
abbrev with_table : ℕ → ℕ → ℕ → (ℕ → ℕ → ℕ) → List ℕ → Mem
with_table pgdir va t ws ps =
    put pgdir (pdx va) (t * page_size + 7) (fill t 0 (record { words = ws; free = ps }))

module _ (pgdir va t : ℕ) (ws : ℕ → ℕ → ℕ) (ps : List ℕ)
    (s : IsSpace pgdir (record { words = ws; free = t ∷ ps }))
    (absent : present (ws pgdir (pdx va)) ≡ false) where
  fresh : t ≢ pgdir
  fresh e = ground (arith, s.root_used, e)

  pde_new :
      (i : ℕ)
      → (with_table pgdir va t ws ps).words pgdir i
        ≡ (if i == pdx va then t * page_size + 7 else ws pgdir i)
  pde_new i = ground (arith, fresh)

  old_table :
      (i : ℕ)
      → present (ws pgdir i) ≡ true
      → (t ≢ frame (ws pgdir i)) × (has (frame (ws pgdir i)) ps ≡ false)
  old_table i p = ground (arith, s.table_used i p)

  table_of :
      (i : ℕ)
      → present ((with_table pgdir va t ws ps).words pgdir i) ≡ true
      → ((i ≡ pdx va) × (frame ((with_table pgdir va t ws ps).words pgdir i) ≡ t))
        ⊎ ((i ≢ pdx va)
            × (present (ws pgdir i) ≡ true)
            × (frame ((with_table pgdir va t ws ps).words pgdir i) ≡ frame (ws pgdir i)))
  table_of i p = ground (arith, fresh, p)

  IsSpace-with_table : IsSpace pgdir (with_table pgdir va t ws ps)
  IsSpace-with_table = record {
    not_root = λ i p. elim (table_of i p) [
      | inl (e, f) ↦ λ g. fresh (sym f ∙ g)
      | inr (ne, q, f) ↦ λ g. s.not_root i q (sym f ∙ g)
    ];
    apart = λ i j ne p q. elim (table_of i p) [
      | inl (e, f) ↦ elim (table_of j q) [
        | inl (e', f') ↦ absurd (ne (e ∙ sym e'))
        | inr (ne', q', f') ↦ λ g. (old_table j q').0 (sym f ∙ g ∙ f')
      ]
      | inr (n, p', f) ↦ elim (table_of j q) [
        | inl (e', f') ↦ λ g. (old_table i p').0 (sym f' ∙ sym g ∙ f)
        | inr (ne', q', f') ↦ λ g. s.apart i j ne p' q' (sym f ∙ g ∙ f')
      ]
    ];
    table_used = λ i p. elim (table_of i p) [
      | inl (e, f) ↦ rw f s.distinct.0
      | inr (ne, q, f) ↦ rw f (old_table i q).1
    ];
    root_used = ground (arith, s.root_used);
    distinct = s.distinct.1;
  }

  entry-with_table :
      (v : ℕ)
      → entry (with_table pgdir va t ws ps) pgdir v
        ≡ entry (record { words = ws; free = t ∷ ps }) pgdir v
  entry-with_table v = ground (arith, fresh, absent, old_table (pdx v), s.not_root (pdx v))

  Grows-with_table :
      Grows pgdir (record { words = ws; free = t ∷ ps }) (with_table pgdir va t ws ps)
  Grows-with_table = record {
    space = IsSpace-with_table;
    others = λ q e i. ground (arith, e.not_root, e.not_free);
    still = λ q e. record {
      not_free = ground (arith, e.not_free);
      not_root = e.not_root;
      not_table = λ i p. elim (table_of i p) [
        | inl (h, f) ↦ ground (arith, e.not_free, f)
        | inr (ne, p', f) ↦ λ g. e.not_table i p' (sym f ∙ g)
      ];
    };
    tables = λ i h. ground (arith, fresh, h);
    taken = λ q h. ground (arith, h);
  }

-- What `walkpgdir` gives for an address: its entry, with all entries kept, or nothing with no free page.
pub record Walked (pgdir va : ℕ) (m m' : Mem) (t i : ℕ) : Type 0 where
  pub index : i ≡ ptx va
  pub table : (present (m'.words pgdir (pdx va)) ≡ true) × (frame (m'.words pgdir (pdx va)) ≡ t)
  pub entries : (v : ℕ) → entry m' pgdir v ≡ entry m pgdir v
  pub grows : Grows pgdir m m'

pub data Walks (pgdir va : ℕ) (m : Mem) : Option (ℕ × ℕ) × Mem → Type 0 where
  found : (m' : Mem) (t i : ℕ) → Walked pgdir va m m' t i → Walks pgdir va m (some (t, i), m')
  full : m.free ≡ [] → Walks pgdir va m (none, m)

new_table_lem :
    (pgdir va : ℕ) (ws : ℕ → ℕ → ℕ) (ps : List ℕ)
    → IsSpace pgdir (record { words = ws; free = ps })
    → present (ws pgdir (pdx va)) ≡ false
    → Walks pgdir va (record { words = ws; free = ps }) (new_table pgdir va (first_free ws ps))
new_table_lem pgdir va ws [] s absent = full refl
new_table_lem pgdir va ws (t ∷ ps) s absent = found _ _ _ (record {
  index = refl;
  table = ground (arith);
  entries = entry-with_table pgdir va t ws ps s absent;
  grows = Grows-with_table pgdir va t ws ps s absent;
})

pub walkpgdir_alloc :
    (pgdir va : ℕ) (m : Mem) → IsSpace pgdir m → Walks pgdir va m (walkpgdir pgdir va true m)
unfolding walkpgdir kalloc
walkpgdir_alloc pgdir va m s = elim (Bool-cases (present (m.words pgdir (pdx va)))) [
  | inl e ↦ rw e (
      found m _ _ (record {
        index = refl;
        table = (e, refl);
        entries = λ v. refl;
        grows = Grows-refl pgdir m s;
      }))
  | inr e ↦ rw e (new_table_lem pgdir va m.words m.free s e)
]

-- Without `alloc` it only looks: an address whose entry it does not give has entry 0.
pub walkpgdir_look :
    (pgdir va : ℕ) (m : Mem)
    → ((walkpgdir pgdir va false m ≡ (some (frame (m.words pgdir (pdx va)), ptx va), m))
        × (present (m.words pgdir (pdx va)) ≡ true))
      ⊎ ((walkpgdir pgdir va false m ≡ (none, m)) × (present (m.words pgdir (pdx va)) ≡ false))
unfolding walkpgdir
walkpgdir_look pgdir va m = elim (Bool-cases (present (m.words pgdir (pdx va)))) [
  | inl e ↦ inl (rw e refl, e)
  | inr e ↦ inr (rw e refl, e)
]

-- The addresses of one page have one entry.
entry_page : Mem → ℕ → ℕ → ℕ
entry_page m pgdir n =
    let pde = m.words pgdir (n / 1024) in if present pde then m.words (frame pde) (n % 1024) else 0

entry-frame : (m : Mem) (pgdir v : ℕ) → entry m pgdir v ≡ entry_page m pgdir (frame v)
unfolding entry_page
entry-frame m pgdir v = let e : pdx v ≡ frame v / 1024 = omega arith in rw e refl

pub same_entry : (m : Mem) (pgdir u v : ℕ) → frame u ≡ frame v → entry m pgdir u ≡ entry m pgdir v
same_entry m pgdir u v e =
    entry-frame m pgdir u ∙ ap (entry_page m pgdir) e ∙ sym (entry-frame m pgdir v)

-- A store into the entry of an address is seen at the addresses of its page, and by no other page.
pub entry-put :
    (pgdir va : ℕ) (m : Mem) (e : ℕ)
    → IsSpace pgdir m
    → present (m.words pgdir (pdx va)) ≡ true
    → (v : ℕ)
    → entry (put (frame (m.words pgdir (pdx va))) (ptx va) e m) pgdir v
      ≡ (if frame v == frame va then e else entry m pgdir v)
entry-put pgdir va m e s p v = ground (arith, s.not_root (pdx va) p, s.apart (pdx v) (pdx va), p)

pub Grows-put :
    (pgdir va : ℕ) (m : Mem) (e : ℕ)
    → IsSpace pgdir m
    → present (m.words pgdir (pdx va)) ≡ true
    → Grows pgdir m (put (frame (m.words pgdir (pdx va))) (ptx va) e m)
Grows-put pgdir va m e s p = record {
  space = record {
    not_root = λ i q. ground (arith, s.not_root (pdx va) p, s.not_root i, q);
    apart = λ i j ne q r. ground (arith, s.not_root (pdx va) p, s.apart i j ne, q, r);
    table_used = λ i q. ground (arith, s.not_root (pdx va) p, s.table_used i, q);
    root_used = s.root_used;
    distinct = s.distinct;
  };
  others = λ q h i. ground (arith, h.not_table (pdx va) p);
  still = λ q h. record {
    not_free = h.not_free;
    not_root = h.not_root;
    not_table = λ i r. ground (arith, s.not_root (pdx va) p, h.not_table i, r);
  };
  taken = λ q h. h;
  tables = λ i h. inl (ground (arith, s.not_root (pdx va) p));
}

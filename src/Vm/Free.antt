-- ===== src/Vm/Free.antt =====
-- `freevm` of vm.c.
use basic_os.Prelude.{
  ℕ, zero, suc, ◌+◌, ◌<◌, ◌≡◌, ◌≢◌, inl, inr, refl, ap, ◌∙◌, arith, true, false, some, ◌==◌,
  if◌then◌else◌, Bool-cases,
}
use basic_os.Vm.{Mem, kern_base, frame, present}
use basic_os.Vm.Walk.{entry, Elsewhere}
use basic_os.Vm.Space.{ran, and_then, run_free, kfree}
use basic_os.Vm.Shrink.{IsGood, IsUser, in_range, Shrunk, released}
use basic_os.Vm.Dealloc.{page_end, deallocuvm_lem, kfree_good}
use basic_os.Vm.Space.{freevm, free_tables}

-- An address space all of whose pages came from `kalloc`.
pub record IsOwn (first pgdir : ℕ) (m : Mem) : Type 0 where
  pub user : IsUser first pgdir m
  pub root_good : IsGood first pgdir
  pub table_good :
      (i : ℕ) → present (m.words pgdir i) ≡ true → IsGood first (frame (m.words pgdir i))

-- Pages of memory that are no part of an address space.
pub record IsOutside (pgdir : ℕ) (m : Mem) (q : ℕ) : Type 0 where
  pub elsewhere : Elsewhere pgdir m q
  pub not_user :
      (v : ℕ) → v < kern_base → present (entry m pgdir v) ≡ true → q ≢ frame (entry m pgdir v)

module _ (first pgdir : ℕ) (m : Mem) (o : IsOwn first pgdir m) where
  free_tables_lem :
      (n i : ℕ) (t : Mem)
      → ((j : ℕ) → t.words pgdir j ≡ m.words pgdir j)
      → (t' : Mem) × (free_tables first pgdir n i t ≡ ran (i + n) t')
        × ((q : ℕ) → Elsewhere pgdir m q → (j : ℕ) → t'.words q j ≡ t.words q j)
  unfolding free_tables
  free_tables_lem zero i t r = (t, ap (λ k. ran k t) (omega arith), λ q e j. refl)
  free_tables_lem (suc n) i t r = elim (Bool-cases (present (m.words pgdir i))) [
    | inl p ↦
        let f = frame (m.words pgdir i) in
        let s = o.user in
        let sp = s.space in
        let c =
          free_tables_lem n (i + 1) (released f t) (λ j. (ground (arith, sp.not_root i p)) ∙ r j) in
        let k : (if present (t.words pgdir i)
              then kfree first (frame (t.words pgdir i)) t
              else some t)
            ≡ some (released f t) =
          rw (r i, p) (kfree_good first f t (o.table_good i p)) in
        (
          c.0,
          ap (λ x. run_free x (λ m'. free_tables first pgdir n (i + 1) m')) k
              ∙ c.1
              ∙ ap (λ k. ran k c.0) (omega arith),
          λ q e j. c.2 q e j ∙ (ground (arith, e.not_table i p)),
        )
    | inr p ↦
        let c = free_tables_lem n (i + 1) t r in
        let k : (if present (t.words pgdir i)
              then kfree first (frame (t.words pgdir i)) t
              else some t)
            ≡ some t =
          rw (r i, p) refl in
        (
          c.0,
          ap (λ x. run_free x (λ m'. free_tables first pgdir n (i + 1) m')) k
              ∙ c.1
              ∙ ap (λ k. ran k c.0) (omega arith),
          c.2,
        )
  ]

IsOwn-Shrunk :
    (first pgdir lo hi : ℕ) (m t : Mem)
    → IsOwn first pgdir m
    → Shrunk first pgdir lo hi m t
    → IsOwn first pgdir t
IsOwn-Shrunk first pgdir lo hi m t o s = record {
  user = s.user;
  root_good = o.root_good;
  table_good = λ i. rw (s.root i) (o.table_good i);
}

in_range_low : (v : ℕ) → in_range (page_end 0) (page_end kern_base) v ≡ true → v < kern_base
in_range_low v h = ground (arith, h)

-- `freevm` of an address space all of whose pages came from `kalloc` ends with no panic, and every
-- page that is not free and no part of it, neither its directory nor a table nor a user page, keeps
-- its contents.
pub freevm_lem :
    (first pgdir : ℕ) (m : Mem)
    → 0 < first
    → IsOwn first pgdir m
    → (m' : Mem) × (freevm first pgdir m ≡ ran 0 m')
      × ((q : ℕ) → IsOutside pgdir m q → (j : ℕ) → m'.words q j ≡ m.words q j)
unfolding freevm
freevm_lem first pgdir m pos o =
    let d = deallocuvm_lem first pgdir kern_base 0 m pos o.user (omega arith) (omega arith) in
    let s = d.2 in
    let c =
      free_tables_lem first pgdir d.0 (IsOwn-Shrunk first pgdir _ _ m d.0 o s) 1024 0 d.0
        (λ j. refl) in
    let z : (pgdir == 0) ≡ false = ground (arith, o.root_good, pos) in
    (
      released pgdir c.0,
      rw z (
          ap
            (λ r. and_then r (λ n m1.
              and_then (free_tables first pgdir 1024 0 m1)
                (λ i m2. run_free (kfree first pgdir m2) (λ m3. ran 0 m3))))
            d.1
          ∙ ap (λ r. and_then r (λ i m2. run_free (kfree first pgdir m2) (λ m3. ran 0 m3))) c.1
          ∙ ap (λ r. run_free r (λ m3. ran 0 m3)) (kfree_good first pgdir c.0 o.root_good)),
      λ q e j.
          let k = s.others q e.elsewhere (λ v r p. e.not_user v (in_range_low v r) p) in
          let x = k.0 in (ground (arith, x.not_root)) ∙ c.2 q k.0 j ∙ k.1 j,
    )

-- ===== src/Vm/Copy.antt =====
-- xv6-public/vm.c: copies of an address space, its first page, and user addresses for the kernel.
use basic_os.Prelude.{
  ℕ, zero, suc, ◌+◌, ◌-◌, ◌/◌, ◌≡◌, inl, inr, sym, ap, ◌∙◌, arith, true, false, not, ◌&&◌, Option,
  none, some, ◌==◌, if◌then◌else◌, Bool-cases,
}
use basic_os.Vm.{
  Mem, page_size, pte_u, pdx, ptx, frame, flags, present, user, put, kalloc, walkpgdir, MapEnd,
  mapped, no_memory, remap, mappages,
}
use basic_os.Vm.Walk.{entry, IsSpace, entry-put, walkpgdir_look, Grows-put}
use basic_os.Vm.Space.{Ran, ran, panics, and_then, run_free, kfree, freevm, setupkvm}

-- A `memmove` of a whole page
abbrev pub copy_page : ℕ → ℕ → Mem → Mem
copy_page from to m = record m { words = λ q j. if q == to then m.words from j else m.words q j }

-- The loop of `copyuvm` past `kalloc`, past `walkpgdir`, and whole, from address `i` for `n` more pages;
-- `d` is the copy.
abbrev pub copy_mapped : ℕ → ℕ → (Mem → Ran) → ℕ → MapEnd × Mem → Ran
copy_mapped first d rest p (mapped, m) = rest m
copy_mapped first d rest p (no_memory, m) =
    run_free (kfree first p m) (λ m'. and_then (freevm first d m') (λ n m''. ran 0 m''))
copy_mapped first d rest p (remap, m) = panics

abbrev pub copy_to : ℕ → ℕ → ℕ → ℕ → (Mem → Ran) → Option ℕ × Mem → Ran
copy_to first d i e rest (none, m) = and_then (freevm first d m) (λ n m'. ran 0 m')
copy_to first d i e rest (some p, m) =
    copy_mapped first d rest p (mappages d i page_size p (flags e) (copy_page (frame e) p m))

abbrev pub copy_at : ℕ → ℕ → ℕ → (Mem → Ran) → Option (ℕ × ℕ) × Mem → Ran
copy_at first d i rest (none, m) = panics
copy_at first d i rest (some (t, x), m) =
    let e = m.words t x in if present e then copy_to first d i e rest (kalloc m) else panics

unfoldable pub copy_from : ℕ → ℕ → ℕ → ℕ → ℕ → Mem → Ran
copy_from first pgdir d zero i m = ran d m
copy_from first pgdir d (suc n) i m =
    copy_at first d i (λ m'. copy_from first pgdir d n (i + page_size) m')
      (walkpgdir pgdir i false m)

-- `copyuvm`, which gives 0 for a null pointer
unfoldable pub copyuvm : ℕ → ℕ → ℕ → ℕ → Mem → Ran
copyuvm first text pgdir sz m = and_then (setupkvm first text m) (λ d m'.
    if d == 0 then ran 0 m' else copy_from first pgdir d ((sz + page_size - 1) / page_size) 0 m')

-- `uva2ka`: the page of a user address, none, or the read of a null pointer
pub data Ka : Type 0 where
  at_page : ℕ → Ka
  refused null_entry : Ka

abbrev pub ka_at : Option (ℕ × ℕ) × Mem → Ka
ka_at (none, m) = null_entry
ka_at (some (t, i), m) =
    let e = m.words t i in
    if not (present e) then refused else if not (user e) then refused else at_page (frame e)

unfoldable pub uva2ka : ℕ → ℕ → Mem → Ka
uva2ka pgdir uva m = ka_at (walkpgdir pgdir uva false m)

-- `clearpteu`
abbrev pub clear_at : Option (ℕ × ℕ) × Mem → Ran
clear_at (none, m) = panics
clear_at (some (t, i), m) =
    let e = m.words t i in ran 0 (put t i (if user e then e - pte_u else e) m)

unfoldable pub clearpteu : ℕ → ℕ → Mem → Ran
clearpteu pgdir uva m = clear_at (walkpgdir pgdir uva false m)

-- What `uva2ka` says of an entry that is there.
abbrev ka_of : ℕ → Ka
ka_of e = if present e && user e then at_page (frame e) else refused

uva2ka_lem :
    (pgdir v : ℕ) (m : Mem)
    → present (m.words pgdir (pdx v)) ≡ true
    → uva2ka pgdir v m ≡ ka_of (entry m pgdir v)
unfolding uva2ka
uva2ka_lem pgdir v m p = elim (walkpgdir_look pgdir v m) [
  | inl (e, q) ↦ ap ka_at e ∙ ground (arith, p)
  | inr (e, q) ↦ absurd (ground (arith, p, q))
]

cleared : ℕ → ℕ
cleared e = if user e then e - pte_u else e

cleared_lem : (e : ℕ) → ka_of (cleared e) ≡ refused
unfolding cleared
cleared_lem e = ground arith

root_put :
    (pgdir uva v e : ℕ) (m : Mem)
    → IsSpace pgdir m
    → present (m.words pgdir (pdx uva)) ≡ true
    → present (m.words pgdir (pdx v)) ≡ true
    → present ((put (frame (m.words pgdir (pdx uva))) (ptx uva) e m).words pgdir (pdx v)) ≡ true
root_put pgdir uva v e m s p q = ground (arith, s.not_root (pdx uva) p, q)

clearpteu_at :
    (pgdir uva : ℕ) (m : Mem)
    → present (m.words pgdir (pdx uva)) ≡ true
    → clearpteu pgdir uva m
      ≡ ran 0 (
          put
            (frame (m.words pgdir (pdx uva)))
            (ptx uva)
            (cleared (m.words (frame (m.words pgdir (pdx uva))) (ptx uva)))
            m)
unfolding clearpteu cleared
clearpteu_at pgdir uva m p = elim (walkpgdir_look pgdir uva m) [
  | inl (e, q) ↦ ap clear_at e
  | inr (e, q) ↦ absurd (ground (arith, p, q))
]

-- After `clearpteu` of an address that has a table, which does not panic and keeps the address space
-- well formed, `uva2ka` refuses the addresses of its page, and says of all other addresses that have a
-- table what it said before.
pub uva2ka-clearpteu :
    (pgdir uva : ℕ) (m : Mem)
    → IsSpace pgdir m
    → present (m.words pgdir (pdx uva)) ≡ true
    → (m' : Mem) × (clearpteu pgdir uva m ≡ ran 0 m')
      × IsSpace pgdir m'
      × ((v : ℕ)
          → present (m.words pgdir (pdx v)) ≡ true
          → uva2ka pgdir v m' ≡ (if frame v == frame uva then refused else uva2ka pgdir v m))
uva2ka-clearpteu pgdir uva m s p =
    let e = cleared (m.words (frame (m.words pgdir (pdx uva))) (ptx uva)) in
    let g = Grows-put pgdir uva m e s p in
    (
      _,
      clearpteu_at pgdir uva m p,
      g.space,
      λ v pv.
          uva2ka_lem pgdir v _ (root_put pgdir uva v e m s p pv)
          ∙ ap ka_of (entry-put pgdir uva m e s p v)
          ∙ elim (Bool-cases (frame v == frame uva)) [
            | inl q ↦ rw q (cleared_lem _)
            | inr q ↦ rw q (sym (uva2ka_lem pgdir v m pv))
          ],
    )

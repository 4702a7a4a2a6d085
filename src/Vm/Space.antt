-- ===== src/Vm/Space.antt =====
-- xv6-public/vm.c: whole address spaces, made, grown, shrunk, copied and freed.
-- `first` is the physical address of `end` of kernel.ld, below which `kfree` panics, and `text` that of
-- its `data`.
use basic_os.Prelude.{
  ℕ, zero, suc, ◌+◌, ◌-◌, ◌*◌, ◌/◌, ◌%◌, ◌^◌, false, not, ◌||◌, Option, none, some, List, [], ◌∷◌,
  ◌==◌, ltb, leb, if◌then◌else◌,
}
use basic_os.Vm.{
  Mem, page_size, kern_base, phys_top, ext_mem, dev_space, pdx, frame, present, round_up, put, fill,
  kalloc, walkpgdir, MapEnd, mapped, no_memory, remap, mappages,
}

-- How a routine ends: with a value, in a panic, or with its fuel used up.
pub data Ran : Type 0 where
  ran : ℕ → Mem → Ran
  panics no_fuel : Ran

abbrev pub and_then : Ran → (ℕ → Mem → Ran) → Ran
and_then (ran n m) k = k n m
and_then panics k = panics
and_then no_fuel k = no_fuel

-- `kfree`
abbrev pub kfree : ℕ → ℕ → Mem → Option Mem
kfree first p m =
    if ltb (p * page_size) first || leb phys_top (p * page_size)
    then none
    else some (fill p 0x01010101 (record m { free = p ∷ m.free }))

abbrev pub run_free : Option Mem → (Mem → Ran) → Ran
run_free none k = panics
run_free (some m) k = k m

-- A round of the loop of `deallocuvm`, after `walkpgdir`, with the next `a`
abbrev pub dealloc_at : ℕ → ℕ → Option (ℕ × ℕ) × Mem → Ran
dealloc_at first a (none, m) = ran ((pdx a + 1) * 2 ^ 22 % 2 ^ 32) m
dealloc_at first a (some (t, i), m) =
    let e = m.words t i in
    if not (present e)
    then ran ((a + page_size) % 2 ^ 32) m
    else if frame e == 0
    then panics
    else run_free (kfree first (frame e) m) (λ m'. ran ((a + page_size) % 2 ^ 32) (put t i 0 m'))

unfoldable pub dealloc_one : ℕ → ℕ → ℕ → Mem → Ran
dealloc_one first pgdir a m = dealloc_at first a (walkpgdir pgdir a false m)

unfoldable pub dealloc_from : ℕ → ℕ → ℕ → ℕ → ℕ → Mem → Ran
dealloc_from first pgdir oldsz zero a m = no_fuel
dealloc_from first pgdir oldsz (suc n) a m =
    if leb oldsz a
    then ran a m
    else and_then (dealloc_one first pgdir a m) (λ a' m'. dealloc_from first pgdir oldsz n a' m')

-- `deallocuvm`, with a round for each page of an address space of size `oldsz` and one for the end
unfoldable pub deallocuvm : ℕ → ℕ → ℕ → ℕ → Mem → Ran
deallocuvm first pgdir oldsz newsz m =
    if leb oldsz newsz
    then ran oldsz m
    else and_then (dealloc_from first pgdir oldsz (oldsz / page_size + 2) (round_up newsz) m)
        (λ a m'. ran newsz m')

-- `allocuvm`: what it does when `mappages` ends, when `kalloc` ends, and its loop
abbrev pub alloc_undo : ℕ → ℕ → ℕ → ℕ → Mem → Ran
alloc_undo first pgdir oldsz newsz m =
    and_then (deallocuvm first pgdir newsz oldsz m) (λ n m'. ran 0 m')

abbrev pub alloc_mapped : ℕ → ℕ → ℕ → ℕ → (Mem → Ran) → ℕ → MapEnd × Mem → Ran
alloc_mapped first pgdir oldsz newsz rest p (mapped, m) = rest m
alloc_mapped first pgdir oldsz newsz rest p (no_memory, m) =
    and_then (deallocuvm first pgdir newsz oldsz m)
      (λ n m'. run_free (kfree first p m') (λ m''. ran 0 m''))
alloc_mapped first pgdir oldsz newsz rest p (remap, m) = panics

abbrev pub alloc_at : ℕ → ℕ → ℕ → ℕ → (Mem → Ran) → ℕ → Option ℕ × Mem → Ran
alloc_at first pgdir oldsz newsz rest a (none, m) = alloc_undo first pgdir oldsz newsz m
alloc_at first pgdir oldsz newsz rest a (some p, m) =
    alloc_mapped first pgdir oldsz newsz rest p (mappages pgdir a page_size p 6 (fill p 0 m))

unfoldable pub alloc_from : ℕ → ℕ → ℕ → ℕ → ℕ → ℕ → Mem → Ran
alloc_from first pgdir oldsz newsz zero a m = no_fuel
alloc_from first pgdir oldsz newsz (suc n) a m =
    if leb newsz a
    then ran newsz m
    else alloc_at first pgdir oldsz newsz
        (λ m'. alloc_from first pgdir oldsz newsz n ((a + page_size) % 2 ^ 32) m') a (kalloc m)

unfoldable pub allocuvm : ℕ → ℕ → ℕ → ℕ → Mem → Ran
allocuvm first pgdir oldsz newsz m =
    if leb kern_base newsz
    then ran 0 m
    else if ltb newsz oldsz
    then ran oldsz m
    else alloc_from first pgdir oldsz newsz (newsz / page_size + 2) (round_up oldsz) m

-- `freevm`: the loop over the directory from entry `i` on, and the whole
unfoldable pub free_tables : ℕ → ℕ → ℕ → ℕ → Mem → Ran
free_tables first pgdir zero i m = ran i m
free_tables first pgdir (suc n) i m =
    let e = m.words pgdir i in
    run_free (if present e then kfree first (frame e) m else some m)
      (λ m'. free_tables first pgdir n (i + 1) m')

unfoldable pub freevm : ℕ → ℕ → Mem → Ran
freevm first pgdir m =
    if pgdir == 0
    then panics
    else and_then (deallocuvm first pgdir kern_base 0 m) (λ n m1.
      and_then (free_tables first pgdir 1024 0 m1)
        (λ i m2. run_free (kfree first pgdir m2) (λ m3. ran 0 m3)))

-- A row of `kmap`: the address, the first page and the number of bytes it maps, and the flags
pub record Kmap : Type 0 where
  pub virt : ℕ
  pub phys : ℕ
  pub size : ℕ
  pub perm : ℕ

abbrev pub kmap : ℕ → List Kmap
kmap text =
    record { virt = kern_base; phys = 0; size = ext_mem; perm = 2 }
    ∷ (record {
      virt = kern_base + ext_mem;
      phys = ext_mem / page_size;
      size = text - ext_mem;
      perm = 0;
    }
        ∷ (record {
          virt = kern_base + text;
          phys = text / page_size;
          size = phys_top - text;
          perm = 2;
        }
            ∷ (record {
              virt = dev_space;
              phys = dev_space / page_size;
              size = 2 ^ 32 - dev_space;
              perm = 2;
            }
                ∷ [])))

-- The loop of `setupkvm`, which gives 0 for a null pointer
abbrev pub map_row : ℕ → ℕ → (Mem → Ran) → MapEnd × Mem → Ran
map_row first pgdir rest (mapped, m) = rest m
map_row first pgdir rest (no_memory, m) = and_then (freevm first pgdir m) (λ n m'. ran 0 m')
map_row first pgdir rest (remap, m) = panics

unfoldable pub map_rows : ℕ → ℕ → List Kmap → Mem → Ran
map_rows first pgdir [] m = ran pgdir m
map_rows first pgdir (k ∷ ks) m =
    map_row first pgdir (λ m'. map_rows first pgdir ks m')
      (mappages pgdir k.virt k.size k.phys k.perm m)

abbrev pub setup_at : ℕ → ℕ → Option ℕ × Mem → Ran
setup_at first text (none, m) = ran 0 m
setup_at first text (some pgdir, m) =
    if ltb dev_space (kern_base + phys_top)
    then panics
    else map_rows first pgdir (kmap text) (fill pgdir 0 m)

unfoldable pub setupkvm : ℕ → ℕ → Mem → Ran
setupkvm first text m = setup_at first text (kalloc m)

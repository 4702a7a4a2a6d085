-- ===== src/Tests/Spaces.antt =====
-- The theorems on vm.c at a small address space.
use basic_os.Prelude.{ℕ, ◌+◌, ◌*◌, ◌≡◌, refl, arith, true, ◌&&◌, [], ◌∷◌, ◌==◌, if◌then◌else◌}
use basic_os.Vm.{Mem, frame, present, page_size}
use basic_os.Vm.Walk.{entry, IsSpace, Elsewhere}
use basic_os.Vm.Space.{ran, deallocuvm, allocuvm}
use basic_os.Vm.Shrink.{IsUser, Shrunk}
use basic_os.Vm.Dealloc.{deallocuvm_lem}
use basic_os.Vm.Alloc.{Allocs, allocuvm_lem}
use basic_os.Vm.Free.{IsOwn}
use basic_os.Vm.Copy.{copyuvm}
use basic_os.Vm.Fork.{Copies, copyuvm_lem}

-- Page 299 is a directory, 298 its first table and 297 the page of address 0; three pages are free.
abbrev one_page : Mem
one_page = record {
  words = λ q i.
      if (q == 299) && (i == 0)
      then 298 * page_size + 7
      else if (q == 298) && (i == 0)
      then 297 * page_size + 7
      else 0;
  free = 300 ∷ 301 ∷ 302 ∷ [];
}

one_page-IsSpace : IsSpace 299 one_page
one_page-IsSpace = record {
  not_root = λ i p. ground (arith, p);
  apart = λ i j ne p q. ground (arith, ne, p, q);
  table_used = λ i p. ground (arith, p);
  root_used = refl;
  distinct = (refl, (refl, (refl, tt)));
}

first_entry :
    (v : ℕ)
    → present (entry one_page 299 v) ≡ true
    → (frame v ≡ 0) × (frame (entry one_page 299 v) ≡ 297)
first_entry v p = ground (arith, p)

user_page : Elsewhere 299 one_page 297
user_page = record { not_free = refl; not_root = omega arith; not_table = λ i p. ground (arith, p) }

one_page-IsUser : IsUser 0x100000 299 one_page
one_page-IsUser = record {
  space = one_page-IsSpace;
  owned = λ v l p. let k = first_entry v p in rw k.1 (user_page, omega arith);
  once = λ u v lu lv ne p q. absurd (omega (arith, ne, first_entry u p, first_entry v q));
  good = λ p h. ground (arith, h);
}

one_page-IsOwn : IsOwn 0x100000 299 one_page
one_page-IsOwn = record {
  user = one_page-IsUser;
  root_good = omega arith;
  table_good = λ i p. ground (arith, p);
}

deallocuvm_lem_example :
    (m' : Mem) × (deallocuvm 0x100000 299 4096 0 one_page ≡ ran 0 m')
    × Shrunk 0x100000 299 0 1 one_page m'
deallocuvm_lem_example =
    deallocuvm_lem 0x100000 299 4096 0 one_page (omega arith) one_page-IsUser (omega arith)
      (omega arith)

allocuvm_lem_example :
    Allocs 0x100000 299 1 3 10000 one_page (allocuvm 0x100000 299 4096 10000 one_page)
allocuvm_lem_example =
    allocuvm_lem 0x100000 299 4096 10000 one_page (omega arith) (omega arith) (omega arith)
      one_page-IsUser (λ v h. ground (arith, h))

copyuvm_lem_example :
    Copies 0x100000 0x108000 299 1 one_page (copyuvm 0x100000 0x108000 299 4096 one_page)
copyuvm_lem_example =
    copyuvm_lem 0x100000 0x108000 299 4096 one_page (omega arith) (omega arith) (omega arith)
      (omega arith) one_page-IsUser (omega arith) (λ v h. ground (arith, h))

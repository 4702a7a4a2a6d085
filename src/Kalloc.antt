-- ===== src/Kalloc.antt =====
-- xv6-public/kalloc.c: the allocator of physical pages, with its free list threaded through the free
-- pages themselves. The memory is that of CString, indexed by kernel virtual addresses. `kmem.lock` is
-- held over each operation; `use_lock` only says whether it is taken, so both are left out.
pub mod Chain
pub mod Pages
use basic_os.Prelude.{
  ℕ, zero, suc, ◌+◌, ◌-◌, ◌*◌, ◌/◌, ◌%◌, ◌^◌, Bool, true, false, not, ◌&&◌, ◌||◌, Option, none,
  some, ltb, leb, ◌==◌, if◌then◌else◌,
}
use basic_os.CString.{Memory, memset, store_word}

-- PGSIZE, KERNBASE and PHYSTOP of mmu.h and memlayout.h
abbrev pub page_size : ℕ
page_size = 4096

abbrev pub kern_base : ℕ
kern_base = 0x80000000

abbrev pub phys_top : ℕ
phys_top = 0xE000000

-- `V2P`, on `uint`s
abbrev pub v2p : ℕ → ℕ
v2p a = (a + 2 ^ 32 - kern_base) % 2 ^ 32

-- `PGROUNDUP`: the mask clears the twelve low bits.
abbrev pub page_round_up : ℕ → ℕ
page_round_up a = let s = (a + page_size - 1) % 2 ^ 32 in s - s % page_size

-- A 32-bit read, least byte first.
abbrev pub load_word : Memory → ℕ → ℕ
load_word m a = m a + m (a + 1) * 2 ^ 8 + m (a + 2) * 2 ^ 16 + m (a + 3) * 2 ^ 24

-- `kmem`, with the memory that the list lives in.
pub record Kmem : Type 0 where
  pub memory : Memory
  pub freelist : ℕ

-- `end` is the first address after the kernel, which the linker chooses.
module _ (end : ℕ) where
  -- `none` is the panic.
  pub kfree : Kmem → ℕ → Option Kmem
  kfree k v =
      if not (v % page_size == 0) || (ltb v end || leb phys_top (v2p v))
      then none
      else some (record {
        memory = store_word v k.freelist (memset v 1 page_size k.memory);
        freelist = v;
      })

  -- The loop of `freerange` from page `p`, with fuel; `none` is also a loop that does not end.
  pub free_from : ℕ → ℕ → ℕ → Kmem → Option Kmem
  free_from zero p vend k = none
  free_from (suc fuel) p vend k = elim (leb (p + page_size) vend) [
    | true ↦ elim (kfree k p) [ none ↦ none | some k' ↦ free_from fuel (p + page_size) vend k' ]
    | false ↦ some k
  ]

  pub freerange : ℕ → ℕ → ℕ → Kmem → Option Kmem
  freerange fuel vstart vend k = free_from fuel (page_round_up vstart) vend k

pub kalloc : Kmem → ℕ × Kmem
kalloc k =
    let r = k.freelist in
    (r, if not (r == 0) then record k { freelist = load_word k.memory r } else k)

-- The loop of `kcount` from list cell `r`; `none` when the fuel is used up.
pub count_from : ℕ → Memory → ℕ → ℕ → Option ℕ
count_from zero m r count = none
count_from (suc fuel) m r count =
    let rest = count_from fuel m (load_word m r) (count + 1) in
    if not (r == 0) then rest else some count

pub kcount : ℕ → Kmem → Option ℕ
kcount fuel k = count_from fuel k.memory k.freelist 0

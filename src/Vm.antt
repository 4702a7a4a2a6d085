-- ===== src/Vm.antt =====
-- xv6-public/vm.c: page tables in physical memory.
-- A page is named by its physical page number, which is also how the kernel reaches it, and holds 1024
-- words. `kmem` is its list of free pages (Kalloc is about the chain that stands for it); the word of
-- that chain in a free page is left out, since nobody reads a free page. A page-table entry is a word:
-- a page number above twelve bits of flags. Disjoint bits are joined by `+`.
pub mod Walk
pub mod Map
pub mod Space
pub mod Shrink
pub mod Dealloc
pub mod Taken
pub mod Grow
pub mod OnePage
pub mod Alloc
pub mod Free
pub mod Rows
pub mod Kernel
pub mod Copy
pub mod Holds
pub mod Fork
use basic_os.Prelude.{
  ℕ, zero, suc, ◌+◌, ◌-◌, ◌*◌, ◌/◌, ◌%◌, ◌^◌, Bool, true, false, not, ◌&&◌, ◌||◌, Option, none,
  some, List, [], ◌∷◌, ◌==◌, ltb, leb, if◌then◌else◌,
}

pub record Mem : Type 0 where
  pub words : ℕ → ℕ → ℕ
  pub free : List ℕ

abbrev pub page_size : ℕ
page_size = 4096

-- KERNBASE, PHYSTOP, EXTMEM and DEVSPACE of memlayout.h
abbrev pub kern_base : ℕ
kern_base = 0x80000000

abbrev pub phys_top : ℕ
phys_top = 0xE000000

abbrev pub ext_mem : ℕ
ext_mem = 0x100000

abbrev pub dev_space : ℕ
dev_space = 0xFE000000

-- PTE_P, PTE_W and PTE_U
abbrev pub pte_p : ℕ
pte_p = 1

abbrev pub pte_w : ℕ
pte_w = 2

abbrev pub pte_u : ℕ
pte_u = 4

-- PDX and PTX of a 32-bit address, PTE_ADDR as a page number, PTE_FLAGS, and the tests of the flags P and U
abbrev pub pdx : ℕ → ℕ
pdx va = va / 2 ^ 22

abbrev pub ptx : ℕ → ℕ
ptx va = va / page_size % 1024

abbrev pub frame : ℕ → ℕ
frame e = e / page_size

abbrev pub flags : ℕ → ℕ
flags e = e % page_size

abbrev pub present : ℕ → Bool
present e = e % 2 == 1

abbrev pub user : ℕ → Bool
user e = e / pte_u % 2 == 1

-- `pa | perm | PTE_P`, for the address of a page
abbrev pub pte_of : ℕ → ℕ → ℕ
pte_of page perm = page * page_size + perm + (1 - perm % 2)

-- PGROUNDDOWN, and PGROUNDUP on `uint`s
abbrev pub round_down : ℕ → ℕ
round_down a = a - a % page_size

abbrev pub round_up : ℕ → ℕ
round_up a = round_down ((a + page_size - 1) % 2 ^ 32)

-- A store of one word, and a `memset` of a whole page whose words become `v`.
abbrev pub put : ℕ → ℕ → ℕ → Mem → Mem
put p i v m = record m { words = λ q j. if (q == p) && (j == i) then v else m.words q j }

abbrev pub fill : ℕ → ℕ → Mem → Mem
fill p v m = record m { words = λ q j. if q == p then v else m.words q j }

-- `kalloc`, and `kfree` past its checks, which fills the page with ones
abbrev pub first_free : (ℕ → ℕ → ℕ) → List ℕ → Option ℕ × Mem
first_free ws [] = (none, record { words = ws; free = [] })
first_free ws (p ∷ ps) = (some p, record { words = ws; free = ps })

unfoldable pub kalloc : Mem → Option ℕ × Mem
kalloc m = first_free m.words m.free

-- The entry for `va` in `walkpgdir`, once there is a fresh table or none.
abbrev pub new_table : ℕ → ℕ → Option ℕ × Mem → Option (ℕ × ℕ) × Mem
new_table pgdir va (none, m) = (none, m)
new_table pgdir va (some t, m) =
    (some (t, ptx va), put pgdir (pdx va) (t * page_size + 7) (fill t 0 m))

-- `walkpgdir`: the page and the index of the entry
pub walkpgdir : ℕ → ℕ → Bool → Mem → Option (ℕ × ℕ) × Mem
walkpgdir pgdir va alloc m =
    let pde = m.words pgdir (pdx va) in
    if present pde
    then (some (frame pde, ptx va), m)
    else if not alloc
    then (none, m)
    else new_table pgdir va (kalloc m)

-- How `mappages` ends: 0, -1, or the panic.
pub data MapEnd : Type 0 where
  mapped no_memory remap : MapEnd

-- A round of its loop past `walkpgdir`.
abbrev pub map_at : ℕ → ℕ → Option (ℕ × ℕ) × Mem → MapEnd × Mem
map_at page perm (none, m) = (no_memory, m)
map_at page perm (some (t, i), m) =
    if present (m.words t i) then (remap, m) else (mapped, put t i (pte_of page perm) m)

pub map_one : ℕ → ℕ → ℕ → ℕ → Mem → MapEnd × Mem
map_one pgdir a page perm m = map_at page perm (walkpgdir pgdir a true m)

-- The loop, with `n` more pages after that of `a`; `page` is that of `pa`.
abbrev pub map_on : (Mem → MapEnd × Mem) → MapEnd × Mem → MapEnd × Mem
map_on rest (mapped, m) = rest m
map_on rest (no_memory, m) = (no_memory, m)
map_on rest (remap, m) = (remap, m)

pub map_from : ℕ → ℕ → ℕ → ℕ → ℕ → Mem → MapEnd × Mem
map_from pgdir zero a page perm m = map_one pgdir a page perm m
map_from pgdir (suc n) a page perm m =
    map_on (λ m'. map_from pgdir n ((a + page_size) % 2 ^ 32) ((page + 1) % 2 ^ 20) perm m')
      (map_one pgdir a page perm m)

-- The rounds of the loop after the first, which ends when `a` has come from `va` to `last`.
abbrev pub rounds : ℕ → ℕ → ℕ
rounds va size =
    (round_down ((va + size + 2 ^ 32 - 1) % 2 ^ 32) + 2 ^ 32 - round_down va) % 2 ^ 32 / page_size

-- `mappages`, for the page number of `pa`
pub mappages : ℕ → ℕ → ℕ → ℕ → ℕ → Mem → MapEnd × Mem
mappages pgdir va size page perm m = map_from pgdir (rounds va size) (round_down va) page perm m

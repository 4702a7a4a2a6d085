-- ===== src/Syscall.antt =====
-- xv6-public/syscall.c: fetching the arguments of a system call from the memory of the process.
-- Addresses and sizes are 32-bit; `sz` is the size of the process, `word` and `byte` read its memory.
pub mod Safe
use basic_os.Prelude.{
  ℕ, zero, suc, ◌+◌, ◌-◌, ◌*◌, ◌%◌, ◌^◌, Bool, true, false, ◌||◌, Option, none, some, ◌==◌, ltb,
  leb, if◌then◌else◌,
}

module _ (sz : ℕ) where
  -- `fetchint`: the value, or none for -1.
  unfoldable pub fetchint : (ℕ → ℕ) → ℕ → Option ℕ
  fetchint word addr =
      if leb sz addr || ltb sz ((addr + 4) % 2 ^ 32) then none else some (word addr)

  -- The loop of `fetchstr`, with `left` bytes left before the end of the process: the length.
  abbrev pub scan_str : (ℕ → ℕ) → ℕ → ℕ → ℕ → Option ℕ
  scan_str byte addr len zero = none
  scan_str byte addr len (suc left) =
      if byte (addr + len) == 0 then some len else scan_str byte addr (len + 1) left

  -- `fetchstr`
  pub fetchstr : (ℕ → ℕ) → ℕ → Option ℕ
  fetchstr byte addr = if leb sz addr then none else scan_str byte addr 0 (sz - addr)

  -- `argint`, with the stack pointer of the trap frame.
  unfoldable pub argint : (ℕ → ℕ) → ℕ → ℕ → Option ℕ
  argint word esp n = fetchint word ((esp + 4 + 4 * n) % 2 ^ 32)

  -- The check of `argptr`, for the pointer that `argint` found.
  abbrev pub checked_ptr : ℕ → ℕ → Option ℕ
  checked_ptr size i =
      if leb (2 ^ 31) size || leb sz i || ltb sz ((i + size) % 2 ^ 32) then none else some i

  -- `argptr`: the pointer.
  unfoldable pub argptr : (ℕ → ℕ) → ℕ → ℕ → ℕ → Option ℕ
  argptr word esp n size = elim (argint word esp n) [ none ↦ none | some i ↦ checked_ptr size i ]

  -- `argstr`: the pointer and the length.
  pub argstr : (ℕ → ℕ) → (ℕ → ℕ) → ℕ → ℕ → Option (ℕ × ℕ)
  argstr word byte esp n = elim (argint word esp n) [
    | none ↦ none
    | some i ↦ elim (fetchstr byte i) [ none ↦ none | some len ↦ some (i, len) ]
  ]

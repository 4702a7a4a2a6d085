-- ===== src/Bitmap.antt =====
-- xv6-public/fs.c: the bitmap of free blocks, `bzero`, `balloc` and `bfree`.
-- Bit `b % 8` of byte `b / 8` is that of block `b`: the bitmap's blocks follow each other on the disk, and
-- each holds 512 bytes, so block `b / BPB` and byte `b % BPB / 8` in it are byte `b / 8` of all. The
-- caller is in a transaction, so what is written goes through `log_write`.
pub mod Flips
use basic_os.Prelude.{
  ℕ, zero, suc, ◌+◌, ◌-◌, ◌*◌, ◌/◌, ◌%◌, Option, none, some, List, ◌==◌, if◌then◌else◌, update,
  replicate,
}

-- The bitmap's bytes, and the words of each block.
pub record Blocks : Type 0 where
  pub bitmap : ℕ → ℕ
  pub words : ℕ → List ℕ

-- `1 << k`, and the bit of `x` that it masks
abbrev pub mask : ℕ → ℕ
mask zero = 1
mask (suc k) = 2 * mask k

abbrev pub bit : ℕ → ℕ → ℕ
bit x zero = x % 2
bit x (suc k) = bit (x / 2) k

abbrev pub block_bit : Blocks → ℕ → ℕ
block_bit s b = bit (s.bitmap (b / 8)) (b % 8)

-- `bp->data[bi / 8] |= m`, where the bit is not set, and `&= ~m`, where it is
abbrev pub mark : ℕ → Blocks → Blocks
mark b s = record s { bitmap = update s.bitmap (b / 8) (s.bitmap (b / 8) + mask (b % 8)) }

abbrev pub unmark : ℕ → Blocks → Blocks
unmark b s = record s { bitmap = update s.bitmap (b / 8) (s.bitmap (b / 8) - mask (b % 8)) }

pub bzero : ℕ → Blocks → Blocks
bzero b s = record s { words = update s.words b (replicate 128 0) }

-- The loops of `balloc` from block `b` on, with `left` blocks up to `sb.size`; `none` is the panic.
pub alloc_from : ℕ → ℕ → Blocks → Option (ℕ × Blocks)
alloc_from zero b s = none
alloc_from (suc left) b s =
    let rest = alloc_from left (b + 1) s in
    if block_bit s b == 0 then some (b, bzero b (mark b s)) else rest

-- `balloc`, with the size of the file system.
pub balloc : ℕ → Blocks → Option (ℕ × Blocks)
balloc size s = alloc_from size 0 s

-- `bfree`; `none` is the panic.
pub bfree : ℕ → Blocks → Option Blocks
bfree b s = if block_bit s b == 0 then none else some (unmark b s)

-- ===== src/Content.antt =====
-- xv6-public/fs.c, `readi` and `writei`: the bytes of a file.
-- Block `b` of the file is the one that `bmap` gives for `b` (Inode models `bmap`), and `cells b` are its
-- bytes, as a reader sees them through the cache. What the functions of `devsw` answer for a device is
-- an argument. So is whether a call of `bmap` returns, which panics when the disk is full, and whether
-- `log_write` takes the block, which it does not in too big a transaction (Log models it). A panic is
-- the outer `none`.
pub mod Rounds
pub mod Bytes
pub mod Open
use basic_os.Prelude.{
  ℕ, zero, suc, ◌+◌, ◌-◌, ◌*◌, ◌/◌, ◌%◌, ◌^◌, Bool, true, false, ◌&&◌, ◌||◌, Option, none, some,
  List, [], ◌∷◌, ◌++◌, ◌==◌, ltb, leb, if◌then◌else◌,
}

abbrev pub block_size : ℕ
block_size = 512

-- MAXFILE, in blocks
abbrev pub max_file : ℕ
max_file = 128 * 2048

-- T_DEV and NDEV
abbrev pub t_dev : ℕ
t_dev = 3

abbrev pub ndev : ℕ
ndev = 10

-- `major` is a `short`, as its 16 bits.
pub record Content : Type 0 where
  pub type : ℕ
  pub major : ℕ
  pub size : ℕ
  pub cells : ℕ → ℕ → ℕ

abbrev pub min : ℕ → ℕ → ℕ
min a b = if ltb a b then a else b

-- `m = min(n - tot, BSIZE - off%BSIZE)` of both loops, for the `left` bytes that are left
abbrev pub chunk : ℕ → ℕ → ℕ
chunk off left = min left (block_size - off % block_size)

-- `m` bytes of a block from byte `o` on
pub bytes_from : (ℕ → ℕ) → ℕ → ℕ → List ℕ
bytes_from c o zero = []
bytes_from c o (suc m) = c o ∷ bytes_from c (o + 1) m

-- A call of a function of `devsw`, which may be null: what it answers, or none for -1
abbrev pub device {ℓ} : {A : Type ℓ} → (ℕ → Option (Option A)) → ℕ → Option A
device devsw major =
    if leb ndev major then none else elim (devsw major) [ none ↦ none | some r ↦ r ]

abbrev pub prepend : List ℕ → Option (List ℕ) → Option (List ℕ)
prepend xs none = none
prepend xs (some ys) = some (xs ++ ys)

-- The loop of `readi`, with a round for each byte that is left at most; `mapped` says for which blocks
-- `bmap` returns.
pub read_loop : (ℕ → Bool) → ℕ → Content → ℕ → ℕ → Option (List ℕ)
read_loop mapped zero f off left = some []
read_loop mapped (suc r) f off left =
    let m = chunk off left in
    let rest = read_loop mapped r f (off + m) (left - m) in
    if left == 0
    then some []
    else if mapped (off / block_size)
    then prepend (bytes_from (f.cells (off / block_size)) (off % block_size) m) rest
    else none

-- `readi`: what it copies to `dst`, or none for -1. `devsw` has what the device with a number reads.
pub readi : (ℕ → Option (Option (List ℕ))) → (ℕ → Bool) → Content → ℕ → ℕ → Option (Option (List ℕ))
readi devsw mapped f off n =
    if f.type == t_dev
    then some (device devsw f.major)
    else if ltb f.size off || ltb ((off + n) % 2 ^ 32) off
    then some none
    else let n' = if ltb f.size ((off + n) % 2 ^ 32) then f.size - off else n in
      elim (read_loop mapped n' f off n') [ none ↦ none | some bs ↦ some (some bs) ]

-- A round of the loop of `writei`, from byte `tot` of `src` on
abbrev pub store : (ℕ → ℕ) → ℕ → ℕ → ℕ → Content → Content
store src tot off m f = record f {
  cells = λ b o.
      if (b == off / block_size) && (leb (off % block_size) o && ltb o (off % block_size + m))
      then src (tot + (o - off % block_size))
      else f.cells b o;
}

-- `passes k b`: in round `k`, `bmap` for block `b` returns and `log_write` takes the block.
pub write_loop : (ℕ → ℕ → Bool) → ℕ → ℕ → (ℕ → ℕ) → ℕ → ℕ → ℕ → Content → Option Content
write_loop passes zero k src tot off left f = some f
write_loop passes (suc r) k src tot off left f =
    let m = chunk off left in
    let rest =
      write_loop passes r (k + 1) src (tot + m) (off + m) (left - m) (store src tot off m f) in
    if left == 0 then some f else if passes k (off / block_size) then rest else none

-- The end of `writei`, for the file after the loop
abbrev pub grown : ℕ → ℕ → ℕ → Content → Option ℕ × Content
grown off n size g =
    (some n, if ltb 0 n && ltb size (off + n) then record g { size = off + n } else g)

-- `writei`: its count or none for -1, and the file after it. `devsw` has how many bytes the device with
-- a number takes.
pub writei :
    (ℕ → Option (Option ℕ))
    → (ℕ → ℕ → Bool)
    → (ℕ → ℕ)
    → ℕ
    → ℕ
    → Content
    → Option (Option ℕ × Content)
writei devsw passes src off n f =
    if f.type == t_dev
    then some (device devsw f.major, f)
    else if ltb f.size off || ltb ((off + n) % 2 ^ 32) off
    then some (none, f)
    else if ltb (max_file * block_size) ((off + n) % 2 ^ 32)
    then some (none, f)
    else elim (write_loop passes n 0 src 0 off n f) [
      | none ↦ none
      | some g ↦ some (grown off n f.size g)
    ]

-- ===== src/Ide.antt =====
-- xv6-public/ide.c: the queue of requests and the commands to the disk controller.
-- A `struct buf *` is a number. What reaches the controller is the sequence of its port writes; what
-- `idewait(1)` and `insl` read from it in an interrupt is an argument. `iderw` goes as far as its sleep,
-- under `idelock`; a panic is `none`.
pub mod Order
pub mod Ports
pub mod Serve
use basic_os.Prelude.{
  ℕ, zero, suc, ◌+◌, ◌-◌, ◌*◌, ◌/◌, ◌%◌, ◌^◌, Bool, true, false, not, ◌&&◌, ◌||◌, Option, none,
  some, List, [], ◌∷◌, ◌++◌, ◌==◌, leb, if◌then◌else◌, update,
}

-- FSSIZE, in blocks; a block is a sector.
abbrev pub fs_size : ℕ
fs_size = 128 * 128 * 16

abbrev pub sector_per_block : ℕ
sector_per_block = 1

pub record Request : Type 0 where
  pub dev : ℕ
  pub blockno : ℕ
  pub valid : Bool
  pub dirty : Bool
  pub contents : List ℕ

-- `outb` of a value to a port, and `outsl` of a block
pub data Output : Type 0 where
  outb : ℕ → ℕ → Output
  outsl : List ℕ → Output

-- `sent` has the starts of requests in turn, with their port writes, and `woken` the buffers of each
-- `wakeup`.
pub record Disk : Type 0 where
  pub queue : List ℕ
  pub bufs : ℕ → Request
  pub sent : List (ℕ × List Output)
  pub woken : List ℕ

abbrev pub command : Request → List Output
command r = if r.dirty then outb 503 48 ∷ outsl r.contents ∷ [] else outb 503 32 ∷ []

-- The port writes of `idestart`; the parts of 0x1f6 have no bits in common.
abbrev pub outputs : Request → List Output
outputs r =
    let sector = r.blockno * sector_per_block in
    outb 1014 0
    ∷ outb 498 sector_per_block
    ∷ outb 499 (sector % 256)
    ∷ outb 500 (sector / 256 % 256)
    ∷ outb 501 (sector / 65536 % 256)
    ∷ outb 502 (224 + r.dev % 2 * 16 + sector / 16777216 % 16)
    ∷ command r

unfoldable pub idestart : ℕ → Disk → Option Disk
idestart b d =
    if leb fs_size (d.bufs b).blockno
    then none
    else some (record d { sent = d.sent ++ (b, outputs (d.bufs b)) ∷ [] })

-- A start of the first buffer of the queue, if there is one
abbrev pub start_first : List ℕ → Disk → Option Disk
start_first [] d = some d
start_first (b ∷ bs) d = idestart b d

-- The buffer when its request is done: `input` is the block if one is to be read and no error is seen.
abbrev pub finished : Option (List ℕ) → Request → Request
finished none r = record r { valid = true; dirty = false }
finished (some block) r = record r {
  contents = if r.dirty then r.contents else block;
  valid = true;
  dirty = false;
}

abbrev pub intr_at : Option (List ℕ) → List ℕ → Disk → Option Disk
intr_at input [] d = some d
intr_at input (b ∷ bs) d = start_first bs (record d {
  queue = bs;
  bufs = update d.bufs b (finished input (d.bufs b));
  woken = d.woken ++ b ∷ [];
})

unfoldable pub ideintr : Option (List ℕ) → Disk → Option Disk
ideintr input d = intr_at input d.queue d

-- `idequeue == b`
abbrev pub is_first : ℕ → List ℕ → Bool
is_first b [] = false
is_first b (c ∷ bs) = b == c

-- The end of the queue, and a start if it is the head
abbrev pub enqueue : ℕ → Disk → Option Disk
enqueue b d =
    let d' = record d { queue = d.queue ++ b ∷ [] } in
    if is_first b (d.queue ++ b ∷ []) then idestart b d' else some d'

-- `iderw`, with whether the caller holds the lock of the buffer and whether there is a disk 1
unfoldable pub iderw : Bool → Bool → ℕ → Disk → Option Disk
iderw held have_disk1 b d =
    if not held
      || (((d.bufs b).valid && not (d.bufs b).dirty)
          || (not ((d.bufs b).dev == 0) && not have_disk1))
    then none
    else enqueue b d

-- The test of the loop in `iderw` that ends its sleep
abbrev pub is_done : ℕ → Disk → Bool
is_done b d = (d.bufs b).valid && not (d.bufs b).dirty

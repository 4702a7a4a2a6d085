-- ===== src/Block.antt =====
-- xv6-public/bio.c and ide.c as the log sees them: blocks on the disk, cached copies of them, and a
-- power supply that may fail before any write to the disk.
-- A block is its 32-bit words. One device is modelled, so a buffer is named by its block number; the
-- recycling of buffers is the subject of Bio.
pub mod Ends
use basic_os.Prelude.{ℕ, zero, suc, Bool, true, false, Option, none, some, List, update}

abbrev pub Words : Type 0
Words = List ℕ

abbrev pub Disk : Type 0
Disk = ℕ → Words

-- The fields of `struct buf` that carry the contents: `data` and the flag B_DIRTY.
pub record Buf : Type 0 where
  pub words : Words
  pub dirty : Bool

-- `power` is the number of writes that the disk still performs before the machine stops.
pub record Machine : Type 0 where
  pub disk : Disk
  pub cache : ℕ → Option Buf
  pub power : ℕ

pub data Run (A : Type 0) : Type 0 where
  ok : A → Machine → Run A
  crash : Disk → Run A
  panic : Run A

abbrev pub Cmd : Type 0 → Type 0
Cmd A = Machine → Run A

abbrev pub pure : {A : Type 0} → A → Cmd A
pure a m = ok a m

module _ {A B : Type 0} where
  abbrev pub and_then : Run A → (A → Cmd B) → Run B
  and_then (ok a m) k = k a m
  and_then (crash d) k = crash d
  and_then panic k = panic

  infixl 5 ◌>>=◌ ◌>>◌
  abbrev pub ◌>>=◌ : Cmd A → (A → Cmd B) → Cmd B
  m >>= k = λ s. and_then (m s) k

  abbrev pub ◌>>◌ : Cmd A → Cmd B → Cmd B
  m >> n = m >>= λ _. n

-- What a reader of a block gets: the cached copy, or the disk's words.
abbrev pub cached_or : Option Buf → Words → Words
cached_or none w = w
cached_or (some b) w = b.words

abbrev pub is_dirty : Option Buf → Bool
is_dirty none = false
is_dirty (some b) = b.dirty

unfoldable pub view : Machine → Disk
view m b = cached_or (m.cache b) (m.disk b)

unfoldable pub dirty : Machine → ℕ → Bool
dirty m b = is_dirty (m.cache b)

abbrev pub hold : Machine → ℕ → Words → Bool → Machine
hold m b w f = record m { cache = update m.cache b (some (record { words = w; dirty = f })) }

-- `bread`: the buffer is filled from the disk unless it is valid, and handed to the caller.
unfoldable pub bread : ℕ → Cmd Words
bread b m = ok (view m b) (hold m b (view m b) (dirty m b))

-- An assignment to the words of a buffer, as by `memmove(b->data, …)`.
unfoldable pub set_data : ℕ → Words → Cmd (Unit {0})
set_data b w m = ok tt (hold m b w (dirty m b))

-- The state after a write of block `b` that left power for `p` more.
abbrev pub written : Machine → ℕ → ℕ → Machine
written m b p = record {
  disk = update m.disk b (view m b);
  cache = update m.cache b (some (record { words = view m b; dirty = false }));
  power = p;
}

abbrev pub write_powered : ℕ → Machine → ℕ → Run (Unit {0})
write_powered zero m b = crash m.disk
write_powered (suc p) m b = ok tt (written m b p)

-- `bwrite` and `iderw`: B_DIRTY is set, the words go to the disk, B_DIRTY is cleared.
unfoldable pub bwrite : ℕ → Cmd (Unit {0})
bwrite b m = write_powered m.power m b

-- `b->flags |= B_DIRTY`
unfoldable pub pin : ℕ → Cmd (Unit {0})
pin b m = ok tt (hold m b (view m b) true)

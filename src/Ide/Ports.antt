-- ===== src/Ide/Ports.antt =====
-- The registers of the controller: the sector that `idestart` gives.
use basic_os.Prelude.{
  ℕ, ◌+◌, ◌*◌, ◌/◌, ◌%◌, ◌<◌, ◌≡◌, arith, List, [], ◌∷◌, ◌==◌, if◌then◌else◌, Bool-cases, inl, inr,
}
use basic_os.Ide.{fs_size, Request, Output, outb, outsl, outputs}

-- The last value that was written to a port
abbrev pub port : ℕ → ℕ → List Output → ℕ
port p v [] = v
port p v (outb q w ∷ os) = port p (if p == q then w else v) os
port p v (outsl c ∷ os) = port p v os

-- The sector that the controller reads from its registers, in the addressing with 28 bits
abbrev pub sector_of : List Output → ℕ
sector_of os =
    port 499 0 os + port 500 0 os * 256 + port 501 0 os * 65536 + port 502 0 os % 16 * 16777216

abbrev pub unit_of : List Output → ℕ
unit_of os = port 502 0 os / 16 % 2

-- For a block on the disk, the registers that `idestart` writes give the controller its number, and the
-- disk that `dev` asks for.
pub sector_of-outputs :
    (r : Request)
    → r.blockno < fs_size
    → (sector_of (outputs r) ≡ r.blockno) × (unit_of (outputs r) ≡ r.dev % 2)
sector_of-outputs r h = elim (Bool-cases r.dirty) [
  | inl e ↦ rw e (omega (arith, h), omega arith)
  | inr e ↦ rw e (omega (arith, h), omega arith)
]

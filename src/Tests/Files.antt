-- ===== src/Tests/Files.antt =====
-- The theorems on the contents of files and on the cache of inodes at small states.
use basic_os.Prelude.{
  none, Bool, Option, ltb, ℕ, ◌-◌, ◌≡◌, refl, arith, true, [], ◌==◌, ◌&&◌, if◌then◌else◌,
}
use basic_os.Content.{block_size, max_file, Content, readi}
use basic_os.File.{fd_inode, File}
use basic_os.Content
use basic_os.Icache.{Dinode, Icache, iget, iput}
use basic_os.Icache.Unique.{IsUnique, AfterGet, iget-AfterGet}
use basic_os.Icache.Agrees.{IsCache, is_last, iput-IsCache}

-- 600 bytes, all of them 7
abbrev sevens : Content
sevens = record { type = 2; major = 0; size = 600; cells = λ b o. 7 }

abbrev opened : File
opened = record {
  type_of = fd_inode;
  ref = 1;
  readable = true;
  writable = true;
  pipe = 0;
  ip = 3;
  off = 510;
}

-- No device has functions.
abbrev no_devices {ℓ} : {A : Type ℓ} → ℕ → Option (Option A)
no_devices major = none

-- A log that refuses the fifth block of a call, on a disk with space left
abbrev four_blocks : ℕ → ℕ → ℕ → Bool
four_blocks i j b = ltb j 4

abbrev plain : Dinode
plain = record { type = 2; major = 0; minor = 0; nlink = 0; size = 4; addrs = [] }

-- Slot 3 holds the only reference to inode 9 of device 1.
abbrev one_used : Icache
one_used = record {
  inode =
      λ i. record { dev = 1; inum = 9; ref = if i == 3 then 1 else 0; valid = true; node = plain };
  disk = λ d n. plain;
}

one_used-IsUnique : IsUnique one_used
one_used-IsUnique i j li lj ri rj e f = ground (arith, ri, rj)

one_used-IsCache : IsCache one_used
one_used-IsCache = record { unique = one_used-IsUnique; agrees = λ i l r v. refl }

abbrev cut : Dinode → Dinode
cut d = record d { size = 0 }

iget-AfterGet_example : AfterGet 1 9 one_used (iget 1 9 one_used)
iget-AfterGet_example = iget-AfterGet 1 9 one_used one_used-IsUnique (λ k l. ground arith)

iput-IsCache_example :
    IsCache (iput cut 3 one_used)
    × (((iput cut 3 one_used).inode 3).ref ≡ (one_used.inode 3).ref - 1)
    × ((d n : ℕ)
        → (iput cut 3 one_used).disk d n ≡ (
            if is_last (one_used.inode 3)
              && ((d == (one_used.inode 3).dev) && (n == (one_used.inode 3).inum))
            then record (cut (one_used.inode 3).node) { type = 0 }
            else one_used.disk d n))
iput-IsCache_example = iput-IsCache cut 3 one_used (omega arith) one_used-IsCache (ground arith)

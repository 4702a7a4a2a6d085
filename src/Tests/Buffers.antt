-- ===== src/Tests/Buffers.antt =====
-- The theorems on pipes, buffers and pages at small states.
use basic_os.Prelude.{
  ℕ, set, ◌≡◌, refl, arith, true, false, some, List, [], ◌∷◌, replicate, length-replicate, ◌==◌,
  if◌then◌else◌,
}
use basic_os.Pipe.{Pipe, piperead, pipewrite}
use basic_os.Pipe.Contents.{IsValid}
use basic_os.Pipe.Fifo.{ReadMeans, Written, piperead_lem, pipewrite-Written}
use basic_os.Bio.{Buf, bget}
use basic_os.Bio.Unique.{BgetMeans, bget_lem}
use basic_os.Bitmap.{Blocks, balloc}
use basic_os.Bitmap.Flips.{AllocMeans, Flipped, balloc_lem}
use basic_os.Inode.{Inode, bmap, split_bn, first_indirect, follow_chain, entry, itrunc}
use basic_os.Inode.Trunc.{tail_zero, itrunc-bmap}
use basic_os.Kalloc.{Kmem}
use basic_os.Kalloc.Chain.{IsFree, nil, IsPage, kfree-IsFree}

-- Two bytes, where the read counter is about to wrap.
abbrev wrapped : Pipe
wrapped = record {
  cells = replicate 512 3;
  nread = 4294967295;
  nwrite = 1;
  readopen = true;
  writeopen = true;
}

wrapped-IsValid : IsValid wrapped
wrapped-IsValid = record {
  storage = length-replicate {A = ℕ} 512 3;
  within = omega arith;
  read_word = omega arith;
  write_word = omega arith;
}

piperead_lem_example :
    let (p', woken, e) = piperead false wrapped 5 in
    IsValid p' × ReadMeans false wrapped 5 p' woken e
piperead_lem_example = piperead_lem false wrapped 5 wrapped-IsValid

pipewrite-Written_example :
    Written false wrapped (7 ∷ 8 ∷ []) (pipewrite false wrapped (7 ∷ 8 ∷ []))
pipewrite-Written_example = pipewrite-Written false wrapped (7 ∷ 8 ∷ []) wrapped-IsValid

-- A buffer in use, and one that may be recycled.
abbrev two_bufs : List Buf
two_bufs =
    record { id = 1; dev = 1; blockno = 20; valid = true; dirty = false; refcnt = 1 }
    ∷ record { id = 0; dev = 1; blockno = 21; valid = true; dirty = false; refcnt = 0 }
    ∷ []

bget_lem_example : BgetMeans 1 22 two_bufs (bget 1 22 two_bufs)
bget_lem_example = bget_lem 1 22 two_bufs (omega arith, (omega arith, tt))

-- No page is free yet; the kernel ends at `0x80100000`.
abbrev full_memory : Kmem
full_memory = record { memory = λ a. 0; freelist = 0 }

full_memory-IsFree : IsFree 2148532224 full_memory []
full_memory-IsFree = record { chain = nil; distinct = tt; pages = tt }

page : IsPage 2148532224 2149580800
page = (omega arith, omega arith, omega arith, omega arith, omega arith)

-- The state after a page has been freed.
abbrev one_page : (k : Kmem) × IsFree 2148532224 k (2149580800 ∷ [])
one_page =
    let (k, e, f, same) =
      kfree-IsFree 2148532224 2149580800 full_memory [] full_memory-IsFree page refl in
    (k, f)

-- Blocks 0 and 1 are in use.
abbrev two_used : Blocks
two_used = record { bitmap = λ i. if i == 0 then 3 else 0; words = λ b. 9 ∷ [] }

balloc_lem_example : AllocMeans 16 0 two_used (balloc 16 two_used)
balloc_lem_example = balloc_lem 16 two_used

-- A file whose chain is blocks 1 and 2, with block 9 in entry 3 of the second.
abbrev chained : Blocks
chained = record {
  bitmap = λ i. 255;
  words = λ b.
      if b == 1
      then set (replicate {A = ℕ} 128 0) 127 2
      else if b == 2
      then set (replicate {A = ℕ} 128 0) 3 9
      else [];
}

abbrev long_file : Inode
long_file = record { addrs = 1 ∷ tail_zero; size = 70000 }

long_file-bmap : bmap 16 long_file 130 chained ≡ some (9, long_file, chained)
unfolding bmap split_bn first_indirect follow_chain entry
long_file-bmap = refl

itrunc-bmap_example :
    (s : Blocks) × (itrunc long_file chained ≡ some (record { addrs = 0 ∷ tail_zero; size = 0 }, s))
    × Flipped chained s 1 0
itrunc-bmap_example =
    itrunc-bmap 16 long_file 130 chained (1, refl) long_file-bmap (omega arith) (omega arith)

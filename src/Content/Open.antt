-- ===== src/Content/Open.antt =====
-- xv6-public/file.c: `fileread` and `filewrite`, which move the offset of an open file.
-- What `piperead` and `pipewrite` answer for a file that is a pipe is an argument (Pipe models both), and
-- so are the arguments of `readi` and `writei`. A count is one that `argptr` has let pass, so it is not
-- negative.
pub mod Parts
use basic_os.Prelude.{
  ℕ, zero, suc, ◌+◌, ◌-◌, ◌*◌, ◌/◌, ◌%◌, ◌^◌, ◌≤◌, ◌<◌, ◌≡◌, refl, sym, ap, ◌∙◌, arith, ap₂, Bool,
  true, false, not, ◌&&◌, ◌||◌, Option, none, some, List, [], ◌∷◌, length, ◌==◌, ltb, leb,
  if◌then◌else◌, Bool-cases, inl, inr,
}
use basic_os.File.{FileType, fd_none, fd_pipe, fd_inode, File}
use basic_os.Content.{block_size, max_file, Content, bytes_from, readi, writei}

-- MAXOPBLOCKS is 10.
abbrev pub max_part : ℕ
max_part = (10 - 1 - 1 - 2) / 2 * 512

-- `n1`
abbrev pub part : ℕ → ℕ
part left = if ltb max_part left then max_part else left

-- `fileread`: what it copies, or none for -1, in the outcome; no outcome is a panic.
pub fileread :
    Option (List ℕ)
    → (ℕ → Option (Option (List ℕ)))
    → (ℕ → Bool)
    → ℕ
    → File
    → Content
    → Option (Option (List ℕ) × File)
fileread piped devsw mapped n f c = if not f.readable then some (none, f) else elim f.type_of [
  | fd_pipe ↦ some (piped, f)
  | fd_inode ↦ elim (readi devsw mapped c f.off n) [
    | none ↦ none
    | some none ↦ some (none, f)
    | some (some bs) ↦
        some (
          some bs,
          if ltb 0 (length bs) then record f { off = (f.off + length bs) % 2 ^ 32 } else f,
        )
  ]
  | fd_none ↦ none
]

-- `if ((r = writei(...)) > 0) f->off += r`
abbrev pub advance : ℕ → File → File
advance r f = if ltb 0 r then record f { off = (f.off + r) % 2 ^ 32 } else f

-- The loop of `filewrite`, with a round for each byte at most: the `i` that it ends with, the file and
-- its contents. `passes i` is for the call of `writei` from byte `i` on.
pub write_parts :
    (ℕ → Option (Option ℕ))
    → (ℕ → ℕ → ℕ → Bool)
    → ℕ
    → (ℕ → ℕ)
    → ℕ
    → ℕ
    → File
    → Content
    → Option (ℕ × File × Content)
write_parts devsw passes zero src i n f c = some (i, f, c)
write_parts devsw passes (suc rounds) src i n f c =
    let m = part (n - i) in
    let r =
      if ltb i n then writei devsw (passes i) (λ k. src (i + k)) f.off m c else some (none, c) in
    elim r [
      | none ↦ none
      | some (none, c') ↦ some (i, f, c')
      | some (some k, c') ↦
          let rest = write_parts devsw passes rounds src (i + k) n (advance k f) c' in
          if k == m then rest else none
    ]

-- `return i == n ? n : -1`
abbrev pub ended : ℕ → Option (ℕ × File × Content) → Option (Option ℕ × File × Content)
ended n none = none
ended n (some (i, f, c)) = some (if i == n then some n else none, f, c)

pub filewrite :
    Option ℕ
    → (ℕ → Option (Option ℕ))
    → (ℕ → ℕ → ℕ → Bool)
    → (ℕ → ℕ)
    → ℕ
    → File
    → Content
    → Option (Option ℕ × File × Content)
filewrite piped devsw passes src n f c =
    if not f.writable then some (none, f, c) else elim f.type_of [
      | fd_pipe ↦ some (piped, f, c)
      | fd_inode ↦ ended n (write_parts devsw passes n src 0 n f c)
      | fd_none ↦ none
    ]

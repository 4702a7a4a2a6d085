-- ===== src/Log.antt =====
-- xv6-public/log.c: the redo log and its recovery.
-- `struct log` is a record; `lh` is the in-memory logheader, as the list of its first `n` block
-- numbers; the array of LOGSIZE block numbers that the C code keeps them in is not bounded here, so
-- that a header on the disk with a larger count, which it does not test, is not modelled. Functions
-- that change the log return the new one. Locks are taken and given back inside one step, so they are
-- left out.
pub mod Header
pub mod Recovers
mod Copy
mod Install
mod Append
pub mod Ready
pub mod Commit
pub mod Recovery
pub mod Write
pub mod Admission
pub mod Overflow
use basic_os.Prelude.{
  ℕ, zero, suc, ◌+◌, ◌-◌, ◌*◌, ◌%◌, ◌^◌, Bool, true, false, ◌||◌, ◌&&◌, Option, none, some, List,
  [], ◌∷◌, ◌++◌, ltb, leb, ◌==◌, if◌then◌else◌, length, get_or, set, has,
}
use basic_os.Block.{Words, Cmd, Run, ok, panic, pure, ◌>>=◌, ◌>>◌, bread, set_data, bwrite, pin}

pub record Log : Type 0 where
  pub start : ℕ
  pub size : ℕ
  pub outstanding : ℕ
  pub committing : Bool
  pub lh : List ℕ

-- LOGSIZE, MAXOPBLOCKS and BSIZE of param.h and fs.h
abbrev pub log_size : ℕ
log_size = 30

abbrev pub max_op_blocks : ℕ
max_op_blocks = 10

abbrev pub block_bytes : ℕ
block_bytes = 512

-- The loop of `write_head` that fills `hb->block`.
abbrev pub write_entries : ℕ → List ℕ → Words → Words
write_entries i [] ws = ws
write_entries i (b ∷ bs) ws = write_entries (i + 1) bs (set ws (i + 1) b)

-- The header block: word 0 is `n`, the words after it are `block`.
unfoldable pub head_words : List ℕ → Words → Words
head_words bs ws = write_entries 0 bs (set ws 0 (length bs))

-- The loop of `read_head`, with `k` entries left.
abbrev pub read_entries : ℕ → ℕ → Words → List ℕ
read_entries zero i ws = []
read_entries (suc k) i ws = get_or ws (i + 1) 0 ∷ read_entries k (i + 1) ws

-- `n` is an `int`: a negative one makes no round of any loop.
unfoldable pub head_entries : Words → List ℕ
head_entries ws = let n = get_or ws 0 0 in if ltb n (2 ^ 31) then read_entries n 0 ws else []

pub read_head : Log → Cmd Log
read_head l = do ws ← bread l.start; pure (record l { lh = head_entries ws })

pub write_head : Log → Cmd (Unit {0})
write_head l = do ws ← bread l.start; set_data l.start (head_words l.lh ws); bwrite l.start

-- One round of `install_trans`: the logged words go home.
pub install_one : ℕ → ℕ → Cmd (Unit {0})
install_one from home = do lbuf ← bread from; dbuf ← bread home; set_data home lbuf; bwrite home

pub install_loop : ℕ → ℕ → List ℕ → Cmd (Unit {0})
install_loop start tail [] = pure tt
install_loop start tail (b ∷ bs) =
    install_one (start + tail + 1) b >> install_loop start (tail + 1) bs

pub install_trans : Log → Cmd (Unit {0})
install_trans l = install_loop l.start 0 l.lh

pub recover_from_log : Log → Cmd Log
recover_from_log l = do
  l' ← read_head l
  install_trans l'
  let l'' = record l' { lh = [] }
  write_head l''
  pure l''

-- `initlog`, with `readsb`: the superblock's words 3 and 4 are `nlog` and `logstart`.
pub init_log : Log → Cmd Log
init_log l = if leb block_bytes (4 * (1 + log_size)) then (λ _. panic) else (do
  sb ← bread 1
  recover_from_log (record l { start = get_or sb 4 0; size = get_or sb 3 0 }))

-- One round of `write_log`: the modified words of `home` go to the log.
pub log_one : ℕ → ℕ → Cmd (Unit {0})
log_one to home = do tbuf ← bread to; from ← bread home; set_data to from; bwrite to

pub log_loop : ℕ → ℕ → List ℕ → Cmd (Unit {0})
log_loop start tail [] = pure tt
log_loop start tail (b ∷ bs) = log_one (start + tail + 1) b >> log_loop start (tail + 1) bs

pub write_log : Log → Cmd (Unit {0})
write_log l = log_loop l.start 0 l.lh

pub commit : Log → Cmd Log
commit l =
    if ltb 0 (length l.lh)
    then (do
      write_log l
      write_head l
      install_trans l
      let l' = record l { lh = [] }
      write_head l'
      pure l')
    else pure l

-- `outstanding` is an `int`, kept as its bit pattern: the test `x > LOGSIZE` on such a sum.
abbrev pub exceeds_log : ℕ → Bool
exceeds_log x = ltb log_size x && ltb x (2 ^ 31)

-- One round of `begin_op`'s loop: `none` is the call of `sleep`.
unfoldable pub begin_op : Log → Option Log
begin_op l =
    if l.committing
    then none
    else if exceeds_log ((length l.lh + (l.outstanding + 1) * max_op_blocks) % 2 ^ 32)
    then none
    else some (record l { outstanding = (l.outstanding + 1) % 2 ^ 32 })

-- The wakeups of `end_op` let sleepers go round the loop of `begin_op` again.
pub end_op : Log → Cmd Log
end_op l =
    let l' = record l { outstanding = (l.outstanding + 2 ^ 32 - 1) % 2 ^ 32 } in
    if l'.committing
    then (λ _. panic)
    else if l'.outstanding == 0
    then (do
      l'' ← commit (record l' { committing = true })
      pure (record l'' { committing = false }))
    else pure l'

-- `log.outstanding < 1`, of a bit pattern
abbrev pub below_one : ℕ → Bool
below_one x = (x == 0) || leb (2 ^ 31) x

-- The scan of `log_write` ends at the entry for `b`, or past the last one, which is then added.
abbrev pub absorb : List ℕ → ℕ → List ℕ
absorb bs b = if has b bs then bs else bs ++ (b ∷ [])

pub log_write : Log → ℕ → Cmd Log
log_write l b =
    if leb log_size (length l.lh) || leb (l.size - 1) (length l.lh)
    then (λ _. panic)
    else if below_one l.outstanding
    then (λ _. panic)
    else (pin b >> pure (record l { lh = absorb l.lh b }))

-- ===== src/Pipe.antt =====
-- xv6-public/pipe.c: the bounded buffer between two processes.
-- `p->lock` is held from the start of an operation to its end or its `sleep`, so a piece between two
-- sleeps is one step. A process that sleeps goes on, when it is woken, with the call that the
-- result names: the same loop over what is left.
pub mod Contents
pub mod Fifo
use basic_os.Prelude.{
  ℕ, zero, suc, ◌+◌, ◌-◌, ◌%◌, ◌^◌, Bool, true, false, not, ◌&&◌, ◌||◌, List, [], ◌∷◌, ◌==◌,
  if◌then◌else◌, length, get_or, set,
}

abbrev pub pipe_size : ℕ
pipe_size = 512

-- `nread` and `nwrite` are `uint`s.
pub record Pipe : Type 0 where
  pub cells : List ℕ
  pub nread : ℕ
  pub nwrite : ℕ
  pub readopen : Bool
  pub writeopen : Bool

-- The channels that processes sleep on: the addresses of the two counters.
pub data Chan : Type 0 where
  chan_nread chan_nwrite : Chan

-- How a piece of `pipewrite` ends: all is written; the reader is gone or the writer is killed; or it
-- sleeps with `rest` still to be written.
pub data WriteEnd : Type 0 where
  wrote : WriteEnd
  refused : WriteEnd
  full : List ℕ → WriteEnd

-- How a piece of `piperead` ends: with the bytes read, killed, or asleep.
pub data ReadEnd : Type 0 where
  got : List ℕ → ReadEnd
  killed_reader : ReadEnd
  empty : ReadEnd

-- The fields that `pipealloc` gives a fresh pipe; `cells` is what the page held.
pub fresh : List ℕ → Pipe
fresh cells = record { cells = cells; nread = 0; nwrite = 0; readopen = true; writeopen = true }

-- `pipeclose`: the pipe, the channel that is woken, and whether its page is freed.
pub pipeclose : Pipe → Bool → Pipe × Chan × Bool
pipeclose p writable =
    let p' = if writable then record p { writeopen = false } else record p { readopen = false } in
    (p', if writable then chan_nread else chan_nwrite, not p'.readopen && not p'.writeopen)

-- `p->nwrite == p->nread + PIPESIZE`
abbrev pub is_full : Pipe → Bool
is_full p = p.nwrite == (p.nread + pipe_size) % 2 ^ 32

-- `p->data[p->nwrite++ % PIPESIZE] = c`
pub put : Pipe → ℕ → Pipe
put p c = record p {
  cells = set p.cells (p.nwrite % pipe_size) c;
  nwrite = (p.nwrite + 1) % 2 ^ 32;
}

-- The loop of `pipewrite` over the bytes that are left, up to its end or a `sleep`. The list holds
-- the channels that are woken. `killed` is `myproc()->killed`.
pub pipewrite : Bool → Pipe → List ℕ → Pipe × List Chan × WriteEnd
pipewrite killed p [] = (p, chan_nread ∷ [], wrote)
pipewrite killed p (c ∷ cs) =
    let rest = pipewrite killed (put p c) cs in
    if is_full p
    then (if not p.readopen || killed
        then (p, [], refused)
        else (p, chan_nread ∷ [], full (c ∷ cs)))
    else rest

-- The copying loop of `piperead`, with room for `n` bytes.
pub copy_out : Pipe → ℕ → Pipe × List ℕ
copy_out p zero = (p, [])
copy_out p (suc n) =
    let rest = copy_out (record p { nread = (p.nread + 1) % 2 ^ 32 }) n in
    if p.nread == p.nwrite
    then (p, [])
    else (rest.0, get_or p.cells (p.nread % pipe_size) 0 ∷ rest.1)

pub piperead : Bool → Pipe → ℕ → Pipe × List Chan × ReadEnd
piperead killed p n =
    if (p.nread == p.nwrite) && p.writeopen
    then (if killed then (p, [], killed_reader) else (p, [], empty))
    else (let (p', bytes) = copy_out p n in (p', chan_nwrite ∷ [], got bytes))

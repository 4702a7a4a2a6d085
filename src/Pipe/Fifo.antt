-- ===== src/Pipe/Fifo.antt =====
-- `pipewrite`, `piperead` and `pipeclose` of pipe.c against a first-in first-out queue of bytes.
use basic_os.Prelude.{
  ℕ, zero, suc, ◌+◌, ◌%◌, ◌^◌, ◌≡◌, ◌≢◌, ◌⊎◌, inl, inr, refl, sym, ap, ◌∙◌, arith, Bool, true,
  false, not, ◌&&◌, ◌||◌, List, [], ◌∷◌, ◌++◌, ◌==◌, length, get_or, Bool-cases,
}
use mathlib.Core.List.{append-nil, append_assoc}
use basic_os.Pipe.{
  Pipe, pipe_size, put, is_full, pipewrite, piperead, copy_out, Chan, chan_nread, chan_nwrite,
  WriteEnd, wrote, refused, full, ReadEnd, got, killed_reader, empty,
}
use Prim.Native.Nat.{min}
use basic_os.Pipe.Contents.{held, contents, IsValid, contents-put, contents_next, contents_end}

-- What each end of a piece of `pipewrite` means, when `rest` is what it did not write.
abbrev pub WriteMeans : Bool → Pipe → List ℕ → Pipe → List Chan → WriteEnd → Type 0
WriteMeans killed p rest p' woken wrote = (rest ≡ []) × (woken ≡ chan_nread ∷ [])
WriteMeans killed p rest p' woken refused =
    (rest ≢ []) × (held p' ≡ pipe_size) × ((p.readopen ≡ false) ⊎ (killed ≡ true))
WriteMeans killed p rest p' woken (full left) =
    (rest ≢ [])
    × (held p' ≡ pipe_size)
    × (left ≡ rest)
    × (p.readopen ≡ true)
    × (woken ≡ chan_nread ∷ [])

pub record Written (killed : Bool) (p : Pipe) (cs : List ℕ) (out : Pipe × List Chan × WriteEnd)
    : Type 0 where
  pub done : List ℕ
  pub rest : List ℕ
  pub split : cs ≡ done ++ rest
  pub appended : contents out.0 ≡ contents p ++ done
  pub valid : IsValid out.0
  pub means : WriteMeans killed p rest out.0 out.1 out.2

WriteMeans-put :
    (killed : Bool) (p : Pipe) (c : ℕ) (rest : List ℕ) (p' : Pipe) (woken : List Chan)
    (e : WriteEnd)
    → WriteMeans killed (put p c) rest p' woken e
    → WriteMeans killed p rest p' woken e
unfolding put
WriteMeans-put killed p c rest p' woken wrote h = h
WriteMeans-put killed p c rest p' woken refused h = h
WriteMeans-put killed p c rest p' woken (full left) h = h

cons-ne-nil : (c : ℕ) (cs : List ℕ) → c ∷ cs ≢ []
cons-ne-nil c cs = ground arith

full-held : (p : Pipe) → IsValid p → is_full p ≡ true → held p ≡ pipe_size
full-held p v h =
    let e : p.nwrite ≡ (p.nread + pipe_size) % 2 ^ 32 = ground arith in omega (arith, v, e)

-- `pipewrite` on a valid pipe appends a prefix of the bytes in order and keeps the pipe valid. If it
-- ends, the prefix is all of them and the readers are woken. If it fails, bytes are left, the pipe is full, and
-- the reading end is closed or the writer killed. If it sleeps, the pipe is full, what it keeps is exactly
-- what is left, and the readers are woken.
pub pipewrite-Written :
    (killed : Bool) (p : Pipe) (cs : List ℕ)
    → IsValid p
    → Written killed p cs (pipewrite killed p cs)
unfolding pipewrite
pipewrite-Written killed p [] v = record {
  done = [];
  rest = [];
  split = refl;
  appended = sym (append-nil (contents p));
  valid = v;
  means = (refl, refl);
}
pipewrite-Written killed p (c ∷ cs) v = elim (Bool-cases (is_full p)) [
  | inr room ↦
      let (e, v') = contents-put p c v room in
      let w = pipewrite-Written killed (put p c) cs v' in
      rw room (record {
        done = c ∷ w.done;
        rest = w.rest;
        split = ap (λ xs. c ∷ xs) w.split;
        appended =
            w.appended ∙ ap (λ xs. xs ++ w.done) e ∙ append_assoc (contents p) (c ∷ []) w.done;
        valid = w.valid;
        means =
            let (p', woken, e) = pipewrite killed (put p c) cs in
            WriteMeans-put killed p c w.rest p' woken e w.means;
      })
  | inl no_room ↦ rw no_room (elim (Bool-cases (not p.readopen || killed)) [
    | inl bad ↦ rw bad (record {
      done = [];
      rest = c ∷ cs;
      split = refl;
      appended = sym (append-nil (contents p));
      valid = v;
      means = (cons-ne-nil c cs, full-held p v no_room, ground arith);
    })
    | inr good ↦ rw good (record {
      done = [];
      rest = c ∷ cs;
      split = refl;
      appended = sym (append-nil (contents p));
      valid = v;
      means = (cons-ne-nil c cs, full-held p v no_room, refl, ground arith, refl);
    })
  ])
]

-- The copying loop takes the oldest bytes, in order, as many as there are and as fit.
copy_out_lem :
    (p : Pipe) (n : ℕ)
    → IsValid p
    → let (p', bytes) = copy_out p n in
      (contents p ≡ bytes ++ contents p') × (length bytes ≡ min n (held p)) × IsValid p'
unfolding copy_out
copy_out_lem p zero v = (refl, omega arith, v)
copy_out_lem p (suc n) v = elim (Bool-cases (p.nread == p.nwrite)) [
  | inl none_left ↦ let z = contents_end p v none_left in rw none_left (refl, ground (arith, v), v)
  | inr some_left ↦
      let (e, v') = contents_next p v some_left in
      let (f, g, v'') = copy_out_lem (record p { nread = (p.nread + 1) % 2 ^ 32 }) n v' in
      rw some_left
        (e ∙ ap (λ xs. get_or p.cells (p.nread % pipe_size) 0 ∷ xs) f, ground (arith, g, v), v'')
]

-- What each end of a piece of `piperead` means.
abbrev pub ReadMeans : Bool → Pipe → ℕ → Pipe → List Chan → ReadEnd → Type 0
ReadMeans killed p n p' woken (got bytes) =
    (contents p ≡ bytes ++ contents p')
    × (length bytes ≡ min n (held p))
    × ((p.writeopen ≡ true) → held p ≢ 0)
    × (woken ≡ chan_nwrite ∷ [])
ReadMeans killed p n p' woken killed_reader =
    (killed ≡ true) × (contents p ≡ []) × (p.writeopen ≡ true) × (p' ≡ p)
ReadMeans killed p n p' woken empty =
    (killed ≡ false) × (contents p ≡ []) × (p.writeopen ≡ true) × (p' ≡ p)

-- `piperead` on a valid pipe keeps it valid. It returns the oldest bytes in order, as many as there are
-- and as fit, takes exactly these from the pipe and wakes the writers; it returns while the pipe is empty
-- only when the writing end is closed. Otherwise the pipe is empty, still open for writing and left as
-- it is, and the reader fails if it is killed and sleeps if it is not.
pub piperead_lem :
    (killed : Bool) (p : Pipe) (n : ℕ)
    → IsValid p
    → let (p', woken, e) = piperead killed p n in IsValid p' × ReadMeans killed p n p' woken e
unfolding piperead
piperead_lem killed p n v = elim (Bool-cases ((p.nread == p.nwrite) && p.writeopen)) [
  | inl nothing ↦
      let none_left : (p.nread == p.nwrite) ≡ true = ground arith in
      let open_end : p.writeopen ≡ true = ground arith in
      rw nothing (elim (Bool-cases killed) [
        | inl k ↦ rw k (v, (refl, contents_end p v none_left, open_end, refl))
        | inr k ↦ rw k (v, (refl, contents_end p v none_left, open_end, refl))
      ])
  | inr something ↦
      let (f, g, v') = copy_out_lem p n v in
      rw something (v', (f, g, λ open_end. ground (arith, v), refl))
]

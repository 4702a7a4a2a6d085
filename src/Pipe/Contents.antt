-- ===== src/Pipe/Contents.antt =====
-- The bytes that a pipe holds, and that the 32-bit counters never lose count of them.
use basic_os.Prelude.{
  ℕ, zero, suc, ◌+◌, ◌-◌, ◌%◌, ◌^◌, ◌≤◌, ◌<◌, ◌≡◌, ◌≢◌, refl, ap, ap₂, ◌∙◌, arith, true, false,
  List, [], ◌∷◌, ◌++◌, ◌==◌, length, get_or, set, length-set, get_or-set_self, get_or-set_ne,
}
use basic_os.Pipe.{Pipe, pipe_size, put, is_full}

-- The number of bytes in the pipe, `nwrite - nread` as `uint`s.
abbrev pub held : Pipe → ℕ
held p = (p.nwrite + 2 ^ 32 - p.nread) % 2 ^ 32

module _ (cells : List ℕ) where
  -- The `n` bytes from counter value `r` on.
  abbrev pub window : ℕ → ℕ → List ℕ
  window r zero = []
  window r (suc n) = get_or cells (r % pipe_size) 0 ∷ window ((r + 1) % 2 ^ 32) n

  pub length-window : (r n : ℕ) → length (window r n) ≡ n
  length-window r zero = refl
  length-window r (suc n) = ap suc (length-window ((r + 1) % 2 ^ 32) n)

abbrev pub contents : Pipe → List ℕ
contents p = window p.cells p.nread (held p)

pub record IsValid (p : Pipe) : Type 0 where
  pub storage : length p.cells ≡ pipe_size
  pub within : held p ≤ pipe_size
  pub read_word : p.nread < 2 ^ 32
  pub write_word : p.nwrite < 2 ^ 32

-- Writing just past a window extends it by that byte, also where the counter wraps.
window-set :
    (cells : List ℕ) (c n r w : ℕ)
    → length cells ≡ pipe_size
    → n < pipe_size
    → r < 2 ^ 32
    → w ≡ (r + n) % 2 ^ 32
    → window (set cells (w % pipe_size) c) r (suc n) ≡ window cells r n ++ (c ∷ [])
window-set cells c zero r w len lt hr e =
    let i : w % pipe_size ≡ r % pipe_size = omega arith in
    rw (i, get_or-set_self cells (r % pipe_size) c 0 (omega arith))
window-set cells c (suc n) r w len lt hr e =
    ap₂ ◌∷◌ (get_or-set_ne cells (w % pipe_size) (r % pipe_size) c 0 (omega arith))
      (window-set cells c n ((r + 1) % 2 ^ 32) w len (omega arith) (omega arith) (omega arith))

pub contents-put :
    (p : Pipe) (c : ℕ)
    → IsValid p
    → is_full p ≡ false
    → (contents (put p c) ≡ contents p ++ (c ∷ [])) × IsValid (put p c)
unfolding put
contents-put p c v room =
    let lt : held p < pipe_size = ground (arith, v) in
    let e : ((p.nwrite + 1) % 2 ^ 32 + 2 ^ 32 - p.nread) % 2 ^ 32 ≡ suc (held p) =
      omega (arith, v) in
    (
      rw e (
          window-set p.cells c (held p) p.nread p.nwrite v.storage lt v.read_word
            (omega (arith, v))),
      record {
        storage = length-set p.cells (p.nwrite % pipe_size) c ∙ v.storage;
        within = omega (arith, lt, e);
        read_word = v.read_word;
        write_word = omega arith;
      },
    )

-- Taking the first byte.
pub contents_next :
    (p : Pipe)
    → IsValid p
    → (p.nread == p.nwrite) ≡ false
    → let p' = record p { nread = (p.nread + 1) % 2 ^ 32 } in
      (contents p ≡ get_or p.cells (p.nread % pipe_size) 0 ∷ contents p') × IsValid p'
contents_next p v some_left =
    let ne : p.nread ≢ p.nwrite = ground arith in
    let e : held p ≡ suc ((p.nwrite + 2 ^ 32 - (p.nread + 1) % 2 ^ 32) % 2 ^ 32) =
      omega (arith, v, ne) in
    (
      ap (window p.cells p.nread) e,
      record {
        storage = v.storage;
        within = omega (arith, v, e);
        read_word = omega arith;
        write_word = v.write_word;
      },
    )

pub contents_end : (p : Pipe) → IsValid p → (p.nread == p.nwrite) ≡ true → contents p ≡ []
contents_end p v none_left =
    let e : p.nread ≡ p.nwrite = ground arith in
    let z : held p ≡ 0 = omega (arith, v, e) in ap (window p.cells p.nread) z

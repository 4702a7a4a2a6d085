-- ===== src/Content/Bytes.antt =====
-- `readi` and `writei` of fs.c, byte by byte.
use basic_os.Prelude.{
  ℕ, zero, suc, ◌≢◌, sym, Option, List, ◌+◌, ◌-◌, ◌*◌, ◌%◌, ◌^◌, ◌≤◌, ◌<◌, ◌≡◌, refl, ap, ap₂, ◌∙◌,
  arith, Bool, true, false, ◌&&◌, ◌||◌, none, some, ◌∷◌, ◌==◌, ltb, leb, if◌then◌else◌, Bool-cases,
  inl, inr,
}
use basic_os.Content.{
  block_size, max_file, Content, chunk, bytes_from, readi, store, write_loop, writei, t_dev,
}
use basic_os.Content.Rounds.{byte, bytes, read_loop-bytes, stored, stored_lem, write_loop-stored}

-- For a file that is no device, and a size, an offset and a count below 2 ^ 31, let `bmap` return for the
-- blocks up to the last byte. `readi` fails just when the offset is past the end, and otherwise
-- returns the bytes of the file from the offset on, `n` of them or as many as there are before the
-- end.
pub readi_lem :
    (devsw : ℕ → Option (Option (List ℕ))) (mapped : ℕ → Bool) (f : Content) (off n : ℕ)
    → f.type ≢ t_dev
    → f.size < 2 ^ 31
    → n < 2 ^ 31
    → off < 2 ^ 31
    → ((b : ℕ) → b * block_size < off + n → mapped b ≡ true)
    → readi devsw mapped f off n ≡ (
        if ltb f.size off
        then some none
        else some (some (bytes f off (if ltb f.size (off + n) then f.size - off else n))))
unfolding readi
readi_lem devsw mapped f off n t hs hn ho p =
    let d : (f.type == t_dev) ≡ false = ground (arith, t) in
    let e : (off + n) % 2 ^ 32 ≡ off + n = omega arith in
    let g : (ltb f.size off || ltb (off + n) off) ≡ ltb f.size off = ground arith in
    let n' = if ltb f.size (off + n) then f.size - off else n in
    elim (Bool-cases (ltb f.size off)) [
      | inl past ↦ rw (d, e, g, past) refl
      | inr in_file ↦
          let l : off + n' ≤ off + n = ground (arith, in_file) in
          let r =
            read_loop-bytes mapped n' f off n' (omega arith) (λ b k. p b (omega (arith, k, l))) in
          rw (d, e, g, in_file, r) refl
    ]

size-stored :
    (r : ℕ) (src : ℕ → ℕ) (tot off left : ℕ) (f : Content)
    → (stored r src tot off left f).size ≡ f.size
unfolding stored
size-stored zero src tot off left f = refl
size-stored (suc r) src tot off left f = elim (Bool-cases (left == 0)) [
  | inl e ↦ rw e refl
  | inr e ↦ rw e (
      size-stored r src (tot + chunk off left) (off + chunk off left) (left - chunk off left)
        (store src tot off (chunk off left) f))
]

type-stored :
    (r : ℕ) (src : ℕ → ℕ) (tot off left : ℕ) (f : Content)
    → (stored r src tot off left f).type ≡ f.type
unfolding stored
type-stored zero src tot off left f = refl
type-stored (suc r) src tot off left f = elim (Bool-cases (left == 0)) [
  | inl e ↦ rw e refl
  | inr e ↦ rw e (
      type-stored r src (tot + chunk off left) (off + chunk off left) (left - chunk off left)
        (store src tot off (chunk off left) f))
]

abbrev resized : Bool → ℕ → Content → Content
resized b n g = if b then record g { size = n } else g

resized-size : (b : Bool) (n : ℕ) (g : Content) → (resized b n g).size ≡ (if b then n else g.size)
resized-size true n g = refl
resized-size false n g = refl

resized-type : (b : Bool) (n : ℕ) (g : Content) → (resized b n g).type ≡ g.type
resized-type true n g = refl
resized-type false n g = refl

resized-byte : (b : Bool) (n : ℕ) (g : Content) (i : ℕ) → byte (resized b n g) i ≡ byte g i
resized-byte true n g i = refl
resized-byte false n g i = refl

from_zero :
    (src : ℕ → ℕ) (off n i b : ℕ)
    → (if leb off i && ltb i (off + n) then src (0 + (i - off)) else b)
      ≡ (if leb off i && ltb i (off + n) then src (i - off) else b)
from_zero src off n i b = let e : 0 + (i - off) ≡ i - off = omega arith in rw e refl

-- What a write of `n` bytes at `off` makes of a file
pub record Wrote (src : ℕ → ℕ) (off n : ℕ) (c g : Content) : Type 0 where
  pub type_of : g.type ≡ c.type
  pub size_of : g.size ≡ (if ltb 0 n && ltb c.size (off + n) then off + n else c.size)
  pub byte_of :
      (i : ℕ) → byte g i ≡ (if leb off i && ltb i (off + n) then src (i - off) else byte c i)

-- For a file that is no device, from an offset inside it, up to the largest size of files, `writei` whose
-- loop does not panic succeeds. After it each byte is the one of `src` in the part that is written and
-- the one from before elsewhere, and the size is the end of that part if it was smaller and the part
-- is not empty.
pub writei_lem :
    (devsw : ℕ → Option (Option ℕ)) (passes : ℕ → ℕ → Bool) (src : ℕ → ℕ) (off n : ℕ) (f : Content)
    → f.type ≢ t_dev
    → off ≤ f.size
    → off + n ≤ max_file * block_size
    → write_loop passes n 0 src 0 off n f ≡ some (stored n src 0 off n f)
    → (g : Content) × (writei devsw passes src off n f ≡ some (some n, g)) × Wrote src off n f g
unfolding writei
writei_lem devsw passes src off n f y h l p =
    let d : (f.type == t_dev) ≡ false = ground (arith, y) in
    let e : (off + n) % 2 ^ 32 ≡ off + n = omega arith in
    let a : (ltb f.size off || ltb (off + n) off) ≡ false = ground (arith, h) in
    let b : ltb (max_file * block_size) (off + n) ≡ false = ground (arith, l) in
    let w =
      λ (i : ℕ). stored_lem n src 0 off n f (omega arith) i ∙ from_zero src off n i (byte f i) in
    let z = size-stored n src 0 off n f in
    let t = ltb 0 n && ltb f.size (off + n) in
    (
      resized t (off + n) (stored n src 0 off n f),
      rw (d, e, a, b, p) refl,
      record {
        type_of = resized-type t (off + n) _ ∙ type-stored n src 0 off n f;
        size_of = resized-size t (off + n) _ ∙ ap (λ k. if t then off + n else k) z;
        byte_of = λ i. resized-byte t (off + n) _ i ∙ w i;
      },
    )

bytes_written :
    (g : Content) (src : ℕ → ℕ) (off k n : ℕ)
    → ((i : ℕ) → off + k ≤ i → i < off + k + n → byte g i ≡ src (i - off))
    → bytes g (off + k) n ≡ bytes_from src k n
unfolding bytes bytes_from
bytes_written g src off k zero h = refl
bytes_written g src off k (suc n) h =
    let e : off + k - off ≡ k = omega arith in
    let a : off + k + 1 ≡ off + (k + 1) = omega arith in
    ap₂ (λ x t. x ∷ t) (h (off + k) (omega arith) (omega arith) ∙ ap src e)
      (ap (λ o. bytes g o n) a
        ∙ bytes_written g src off (k + 1) n (λ i l u. h i (omega (arith, l)) (omega (arith, u))))

-- What is written is read back.
pub readi_written :
    (devsw : ℕ → Option (Option (List ℕ))) (mapped : ℕ → Bool) (src : ℕ → ℕ) (off n : ℕ)
    (f g : Content)
    → f.type ≢ t_dev
    → off ≤ f.size
    → f.size < 2 ^ 31
    → 0 < n
    → off + n ≤ max_file * block_size
    → ((b : ℕ) → b * block_size < off + n → mapped b ≡ true)
    → Wrote src off n f g
    → readi devsw mapped g off n ≡ some (some (bytes_from src 0 n))
readi_written devsw mapped src off n f g t h s p l m w =
    let k = bytes_written g src off 0 n (λ i a b. w.byte_of i ∙ ground (arith, a, b)) in
    let z : off ≡ off + 0 = omega arith in
    let x : ltb g.size off ≡ false = ground (arith, w.size_of, p, h) in
    let y : ltb g.size (off + n) ≡ false = ground (arith, w.size_of, p, h) in
    readi_lem devsw mapped g off n (λ e. t (sym w.type_of ∙ e)) (ground (arith, w.size_of, s, l))
      (omega arith) (omega arith) m
    ∙ rw (x, y) (ap (λ bs. some (some bs)) (ap (λ o. bytes g o n) z ∙ k))

-- For a file that is no device, if `writei` writes `n` bytes, more than none, from an offset inside the
-- file of less than 2 ^ 31 bytes, up to the largest size of files, and no block is refused, then it
-- succeeds, and `readi` from the same offset returns those `n` bytes, also over borders of blocks and
-- past the old end.
pub readi-writei :
    (dev_read : ℕ → Option (Option (List ℕ))) (dev_write : ℕ → Option (Option ℕ))
    (mapped : ℕ → Bool) (passes : ℕ → ℕ → Bool) (src : ℕ → ℕ) (off n : ℕ) (f : Content)
    → f.type ≢ t_dev
    → off ≤ f.size
    → f.size < 2 ^ 31
    → 0 < n
    → off + n ≤ max_file * block_size
    → ((j b : ℕ) → passes j b ≡ true)
    → ((b : ℕ) → b * block_size < off + n → mapped b ≡ true)
    → (g : Content) × (writei dev_write passes src off n f ≡ some (some n, g))
      × (readi dev_read mapped g off n ≡ some (some (bytes_from src 0 n)))
readi-writei dev_read dev_write mapped passes src off n f t h s p l ok m =
    let q = write_loop-stored passes n 0 src 0 off n f ok in
    let w = writei_lem dev_write passes src off n f t h l q in
    (w.0, w.1, readi_written dev_read mapped src off n f w.0 t h s p l m w.2)

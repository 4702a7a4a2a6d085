-- ===== src/Content/Rounds.antt =====
-- The loops of `readi` and `writei` in fs.c, byte by byte.
use basic_os.Prelude.{
  ℕ, zero, suc, ◌+◌, ◌-◌, ◌*◌, ◌/◌, Bool, some, ◌%◌, ◌≤◌, ◌<◌, ◌≡◌, ◌≢◌, refl, sym, ap, ap₂, ◌∙◌,
  arith, true, false, ◌&&◌, List, [], ◌∷◌, ◌++◌, ◌==◌, ltb, leb, if◌then◌else◌, Bool-cases, inl,
  inr,
}
use basic_os.Content.{block_size, Content, chunk, prepend, bytes_from, read_loop, store, write_loop}

-- Byte `i` of the file
abbrev pub byte : Content → ℕ → ℕ
byte f i = f.cells (i / block_size) (i % block_size)

-- The bytes from `off` on, one by one
unfoldable pub bytes : Content → ℕ → ℕ → List ℕ
bytes f off zero = []
bytes f off (suc n) = byte f off ∷ bytes f (off + 1) n

bytes-add : (f : Content) (off m n : ℕ) → bytes f off (m + n) ≡ bytes f off m ++ bytes f (off + m) n
unfolding bytes
bytes-add f off zero n =
    let e : 0 + n ≡ n = omega arith in
    let g : off + 0 ≡ off = omega arith in ap (λ k. bytes f off k) e ∙ ap (λ o. bytes f o n) (sym g)
bytes-add f off (suc m) n =
    let e : suc m + n ≡ suc (m + n) = omega arith in
    let g : off + 1 + m ≡ off + suc m = omega arith in
    ap (λ k. bytes f off k) e
    ∙ ap (λ t. byte f off ∷ t)
        (bytes-add f (off + 1) m n ∙ ap (λ o. bytes f (off + 1) m ++ bytes f o n) g)

-- Bytes of one block are bytes of the file.
bytes_from-bytes :
    (f : Content) (off m : ℕ)
    → off % block_size + m ≤ block_size
    → bytes_from (f.cells (off / block_size)) (off % block_size) m ≡ bytes f off m
unfolding bytes_from bytes
bytes_from-bytes f off zero h = refl
bytes_from-bytes f off (suc zero) h = refl
bytes_from-bytes f off (suc (suc m)) h =
    let e : off / block_size ≡ (off + 1) / block_size = omega arith in
    let g : off % block_size + 1 ≡ (off + 1) % block_size = omega arith in
    ap (λ t. byte f off ∷ t)
      (ap₂ (λ b o. bytes_from (f.cells b) o (suc m)) e g
        ∙ bytes_from-bytes f (off + 1) (suc m) (omega arith))

chunk_lem :
    (off left : ℕ)
    → left ≢ 0
    → (0 < chunk off left)
      × (chunk off left ≤ left)
      × (off % block_size + chunk off left ≤ block_size)
chunk_lem off left h = (ground (arith, h), ground (arith, h), ground (arith, h))

pub read_loop-bytes :
    (mapped : ℕ → Bool) (r : ℕ) (f : Content) (off left : ℕ)
    → left ≤ r
    → ((b : ℕ) → b * block_size < off + left → mapped b ≡ true)
    → read_loop mapped r f off left ≡ some (bytes f off left)
unfolding read_loop bytes
read_loop-bytes mapped zero f off left h p =
    let e : 0 ≡ left = omega arith in ap (λ n. some (bytes f off n)) e
read_loop-bytes mapped (suc r) f off left h p = elim (Bool-cases (left == 0)) [
  | inl e ↦ let z : 0 ≡ left = ground (arith, e) in rw e (ap (λ n. some (bytes f off n)) z)
  | inr e ↦
      let c = chunk_lem off left (ground (arith, e)) in
      let m = p (off / block_size) (omega (arith, c)) in
      rw (e, m)
        (ap₂ prepend (bytes_from-bytes f off (chunk off left) c.2) (
            read_loop-bytes mapped r f (off + chunk off left) (left - chunk off left)
              (omega (arith, h, c.0)) (λ b l. p b (omega (arith, l, c.1))))
          ∙ ap some (
              sym (bytes-add f off (chunk off left) (left - chunk off left))
              ∙ ap (λ n. bytes f off n) (omega (arith, c.1))))
]

store_lem :
    (src : ℕ → ℕ) (tot off m : ℕ) (f : Content)
    → off % block_size + m ≤ block_size
    → (i : ℕ)
    → byte (store src tot off m f) i
      ≡ (if leb off i && ltb i (off + m) then src (tot + (i - off)) else byte f i)
store_lem src tot off m f h i = elim (Bool-cases (leb off i && ltb i (off + m))) [
  | inl e ↦
      let a : ((i / block_size == off / block_size)
            && (leb (off % block_size) (i % block_size)
                && ltb (i % block_size) (off % block_size + m)))
          ≡ true =
        ground (arith, e, h) in
      let g : i % block_size - off % block_size ≡ i - off = ground (arith, e, h) in
      rw (e, a) (ap (λ k. src (tot + k)) g)
  | inr e ↦
      let a : ((i / block_size == off / block_size)
            && (leb (off % block_size) (i % block_size)
                && ltb (i % block_size) (off % block_size + m)))
          ≡ false =
        ground (arith, e, h) in
      rw (e, a) refl
]

pub two_parts :
    (off m left i a b c d : ℕ)
    → m ≤ left
    → (off + m ≤ i → a ≡ b)
    → c ≡ (if leb off i && ltb i (off + m) then b else d)
    → (if leb (off + m) i && ltb i (off + m + (left - m)) then a else c)
      ≡ (if leb off i && ltb i (off + left) then b else d)
two_parts off m left i a b c d h e p = ground (arith, h, e, p)

-- What the loop of `writei` makes of a file, where no round panics
unfoldable pub stored : ℕ → (ℕ → ℕ) → ℕ → ℕ → ℕ → Content → Content
stored zero src tot off left f = f
stored (suc r) src tot off left f =
    let m = chunk off left in
    let rest = stored r src (tot + m) (off + m) (left - m) (store src tot off m f) in
    if left == 0 then f else rest

pub stored_lem :
    (r : ℕ) (src : ℕ → ℕ) (tot off left : ℕ) (f : Content)
    → left ≤ r
    → (i : ℕ)
    → byte (stored r src tot off left f) i
      ≡ (if leb off i && ltb i (off + left) then src (tot + (i - off)) else byte f i)
unfolding stored
stored_lem zero src tot off left f h i = ground (arith, h)
stored_lem (suc r) src tot off left f h i = elim (Bool-cases (left == 0)) [
  | inl e ↦ rw e (ground (arith, e))
  | inr e ↦
      let m = chunk off left in
      let c = chunk_lem off left (ground (arith, e)) in
      rw e (
        stored_lem r src (tot + m) (off + m) (left - m) (store src tot off m f)
          (omega (arith, h, c.0)) i
        ∙ two_parts off m left i _ _ _ _ c.1 (λ l. ap src (omega (arith, l)))
            (store_lem src tot off m f c.2 i))
]

four_left :
    (off left k : ℕ)
    → off % block_size + left + block_size * k ≤ 4 * block_size
    → left - chunk off left ≢ 0
    → (off + chunk off left) % block_size + (left - chunk off left) + block_size * (k + 1)
      ≤ 4 * block_size
four_left off left k l ne = ground (arith, l, ne)

-- No round panics if all blocks pass, ...
pub write_loop-stored :
    (passes : ℕ → ℕ → Bool) (r k : ℕ) (src : ℕ → ℕ) (tot off left : ℕ) (f : Content)
    → ((j b : ℕ) → passes j b ≡ true)
    → write_loop passes r k src tot off left f ≡ some (stored r src tot off left f)
unfolding write_loop stored
write_loop-stored passes zero k src tot off left f p = refl
write_loop-stored passes (suc r) k src tot off left f p = elim (Bool-cases (left == 0)) [
  | inl e ↦ rw e refl
  | inr e ↦
      let m = chunk off left in
      rw (e, p k (off / block_size))
        (write_loop-stored passes r (k + 1) src (tot + m) (off + m) (left - m)
          (store src tot off m f) p)
]

-- ... or if those of the first four rounds do and the bytes are within four blocks.
pub write_loop_four :
    (passes : ℕ → ℕ → Bool) (r k : ℕ) (src : ℕ → ℕ) (tot off left : ℕ) (f : Content)
    → ((j b : ℕ) → j < 4 → passes j b ≡ true)
    → (left ≢ 0 → off % block_size + left + block_size * k ≤ 4 * block_size)
    → write_loop passes r k src tot off left f ≡ some (stored r src tot off left f)
unfolding write_loop stored
write_loop_four passes zero k src tot off left f p h = refl
write_loop_four passes (suc r) k src tot off left f p h = elim (Bool-cases (left == 0)) [
  | inl e ↦ rw e refl
  | inr e ↦
      let m = chunk off left in
      let l = h (ground (arith, e)) in
      rw (e, p k (off / block_size) (ground (arith, e, l)))
        (write_loop_four passes r (k + 1) src (tot + m) (off + m) (left - m) (store src tot off m f)
          p (λ ne. four_left off left k l ne))
]

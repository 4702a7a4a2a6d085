-- ===== src/Bitmap/Flips.antt =====
-- `balloc` and `bfree` of fs.c change the bit of one block.
use basic_os.Prelude.{
  ℕ, zero, suc, ◌+◌, ◌-◌, ◌*◌, ◌/◌, ◌%◌, ◌≤◌, ◌<◌, ◌≡◌, ◌≢◌, ◌⊎◌, inl, inr, refl, ap, ◌∙◌, arith,
  true, false, Option, none, some, ◌==◌, if◌then◌else◌, update, replicate, Bool-cases,
}
use basic_os.Bitmap.{Blocks, mask, bit, block_bit, unmark, bzero, alloc_from, balloc, bfree}

bit-mask_self : (x k : ℕ) → bit x k ≡ 0 → bit (x + mask k) k ≡ 1
bit-mask_self x zero h = omega (arith, h)
bit-mask_self x (suc k) h =
    let half : (x + 2 * mask k) / 2 ≡ x / 2 + mask k = omega arith in
    ap (λ y. bit y k) half ∙ bit-mask_self (x / 2) k h

bit-mask_ne : (x k j : ℕ) → bit x k ≡ 0 → k ≢ j → bit (x + mask k) j ≡ bit x j
bit-mask_ne x zero zero h ne = absurd (ne refl)
bit-mask_ne x zero (suc j) h ne =
    let half : (x + 1) / 2 ≡ x / 2 = omega (arith, h) in ap (λ y. bit y j) half
bit-mask_ne x (suc k) zero h ne = omega arith
bit-mask_ne x (suc k) (suc j) h ne =
    let half : (x + 2 * mask k) / 2 ≡ x / 2 + mask k = omega arith in
    ap (λ y. bit y j) half ∙ bit-mask_ne (x / 2) k j h (λ e. ne (ap suc e))

bit_small : (x k : ℕ) → bit x k ≢ 0 → mask k ≤ x
bit_small x zero h = omega (arith, h)
bit_small x (suc k) h = omega (arith, bit_small (x / 2) k h)

bit-unmask_self : (x k : ℕ) → bit x k ≢ 0 → bit (x - mask k) k ≡ 0
bit-unmask_self x zero h = omega (arith, h)
bit-unmask_self x (suc k) h =
    let half : (x - 2 * mask k) / 2 ≡ x / 2 - mask k = omega arith in
    ap (λ y. bit y k) half ∙ bit-unmask_self (x / 2) k h

bit-unmask_ne : (x k j : ℕ) → bit x k ≢ 0 → k ≢ j → bit (x - mask k) j ≡ bit x j
bit-unmask_ne x zero zero h ne = absurd (ne refl)
bit-unmask_ne x zero (suc j) h ne =
    let half : (x - 1) / 2 ≡ x / 2 = omega (arith, h) in ap (λ y. bit y j) half
bit-unmask_ne x (suc k) zero h ne = omega (arith, bit_small (x / 2) k h)
bit-unmask_ne x (suc k) (suc j) h ne =
    let half : (x - 2 * mask k) / 2 ≡ x / 2 - mask k = omega arith in
    ap (λ y. bit y j) half ∙ bit-unmask_ne (x / 2) k j h (λ e. ne (ap suc e))

-- The bits of the bitmap after the bit of one block got a new value.
abbrev pub Flipped : Blocks → Blocks → ℕ → ℕ → Type 0
Flipped s s' b v = (c : ℕ) → block_bit s' c ≡ (if b == c then v else block_bit s c)

Flipped-update :
    (s : Blocks) (b y v : ℕ)
    → bit y (b % 8) ≡ v
    → ((j : ℕ) → b % 8 ≢ j → bit y j ≡ bit (s.bitmap (b / 8)) j)
    → Flipped s (record s { bitmap = update s.bitmap (b / 8) y }) b v
Flipped-update s b y v self other c = elim (Bool-cases (b / 8 == c / 8)) [
  | inl same ↦ rw same (elim (Bool-cases (b == c)) [
    | inl here ↦ rw here (ap (bit y) {x = c % 8} {y = b % 8} (ground (arith, here)) ∙ self)
    | inr apart ↦ rw apart (
        other (c % 8) (omega (arith, same_byte same, apart_number apart))
        ∙ ap (λ i. bit (s.bitmap i) (c % 8)) (same_byte same))
  ])
  | inr apart ↦ let there : (b == c) ≡ false = ground (arith, apart) in rw (apart, there) refl
]
  where
    same_byte : (b / 8 == c / 8) ≡ true → b / 8 ≡ c / 8
    same_byte e = ground (arith, e)

    apart_number : (b == c) ≡ false → b ≢ c
    apart_number e = ground (arith, e)

-- What the two outcomes of `balloc` mean, from block `b` on.
abbrev pub AllocMeans : ℕ → ℕ → Blocks → Option (ℕ × Blocks) → Type 0
AllocMeans left b s none = (c : ℕ) → b ≤ c → c < b + left → block_bit s c ≢ 0
AllocMeans left b s (some (n, s')) =
    (b ≤ n)
    × (n < b + left)
    × (block_bit s n ≡ 0)
    × ((c : ℕ) → b ≤ c → c < n → block_bit s c ≢ 0)
    × Flipped s s' n 1
    × (s'.words n ≡ replicate 128 0)
    × ((c : ℕ) → n ≢ c → s'.words c ≡ s.words c)

alloc_from_lem : (left b : ℕ) (s : Blocks) → AllocMeans left b s (alloc_from left b s)
unfolding alloc_from bzero
alloc_from_lem zero b s = λ c lo hi. absurd (omega arith)
alloc_from_lem (suc left) b s = elim (Bool-cases (block_bit s b == 0)) [
  | inl free ↦
      let clear : block_bit s b ≡ 0 = ground (arith, free) in
      rw free (
        omega arith,
        omega arith,
        clear,
        λ c lo hi. absurd (omega arith),
        Flipped-update s b _ 1 (bit-mask_self (s.bitmap (b / 8)) (b % 8) clear)
            (λ j ne. bit-mask_ne (s.bitmap (b / 8)) (b % 8) j clear ne),
        ground arith,
        λ c ne. ground (arith, ne),
      )
  | inr used ↦ rw used (later (alloc_from left (b + 1) s) used (alloc_from_lem left (b + 1) s))
]
  where
    here_too :
        (block_bit s b == 0) ≡ false
        → (n : ℕ) → ((c : ℕ) → b + 1 ≤ c → c < n → block_bit s c ≢ 0)
        → (c : ℕ) → b ≤ c
        → c < n
        → block_bit s c ≢ 0
    here_too used n all c lo hi e = elim (Bool-cases (b == c)) [
      | inl same ↦
          let bc : c ≡ b = ground (arith, same) in ground (arith, used, ap (block_bit s) bc, e)
      | inr other ↦ all c (ground (arith, other)) hi e
    ]

    later :
        (r : Option (ℕ × Blocks))
        → (block_bit s b == 0) ≡ false
        → AllocMeans left (b + 1) s r
        → AllocMeans (suc left) b s r
    later none used all =
        λ c lo hi. here_too used (b + suc left) (λ d l h. all d l (omega arith)) c lo hi
    later (some (n, s')) used (lo, hi, free, all, flipped, zeros, others) =
        (omega arith, omega arith, free, here_too used n all, flipped, zeros, others)

-- `balloc` returns the first free block of the file system, marks it and no other block, fills it with
-- zeros and changes no other block; it panics exactly if all blocks are in use.
pub balloc_lem : (size : ℕ) (s : Blocks) → AllocMeans size 0 s (balloc size s)
unfolding balloc
balloc_lem size s = alloc_from_lem size 0 s

-- `bfree` panics exactly if the block is free; otherwise it makes it free and changes neither the bit of
-- another block nor the words of any.
pub bfree_lem :
    (b : ℕ) (s : Blocks)
    → ((block_bit s b ≡ 0) × (bfree b s ≡ none))
      ⊎ ((block_bit s b ≢ 0)
          × (s' : Blocks) × (bfree b s ≡ some s')
          × Flipped s s' b 0
          × (s'.words ≡ s.words))
unfolding bfree
bfree_lem b s = elim (Bool-cases (block_bit s b == 0)) [
  | inl free ↦ inl (ground (arith, free), rw free refl)
  | inr used ↦
      let busy : block_bit s b ≢ 0 = ground (arith, used) in
      inr (
        busy,
        unmark b s,
        rw used refl,
        Flipped-update s b _ 0 (bit-unmask_self (s.bitmap (b / 8)) (b % 8) busy)
            (λ j ne. bit-unmask_ne (s.bitmap (b / 8)) (b % 8) j busy ne),
        refl,
      )
]

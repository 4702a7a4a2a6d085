-- ===== src/Log/Recovers.antt =====
-- What a disk stands for: the contents that recovery by log.c gives its home blocks.
use basic_os.Prelude.{
  ℕ, ◌+◌, ◌≤◌, ◌<◌, ◌≡◌, refl, ◌⊎◌, arith, true, false, List, [], ◌∷◌, ◌==◌, if◌then◌else◌, length,
  has, All, IsDistinct,
}
use basic_os.Block.{Disk}
use basic_os.Log.{head_entries}

-- What block `b` reads once the blocks of a log are installed: `bs` are the home blocks of the log
-- blocks from number `start + tail + 1` on.
abbrev pub logged : ℕ → ℕ → List ℕ → Disk → Disk
logged start tail [] d b = d b
logged start tail (x ∷ xs) d b =
    if x == b then d (start + tail + 1) else logged start (tail + 1) xs d b

module _ (start size : ℕ) where
  -- A block that is no block of the log.
  abbrev pub IsHome : ℕ → Type 0
  IsHome b = (b < start) ⊎ (start + size ≤ b)

  -- The header on the disk is sound, and the blocks that it names restore `target`.
  pub record Recovers (target d : Disk) : Type 0 where
    pub distinct : IsDistinct (head_entries (d start))
    pub homes : All IsHome (head_entries (d start))
    pub fits : length (head_entries (d start)) < size
    pub room : size ≤ length (d start)
    pub value : (b : ℕ) → IsHome b → logged start 0 (head_entries (d start)) d b ≡ target b

  pub not-has-log : (bs : List ℕ) (k : ℕ) → All IsHome bs → k < size → has (start + k) bs ≡ false
  not-has-log [] k h lt = refl
  not-has-log (b ∷ bs) k h lt = ground (arith, not-has-log bs k h.1 lt)

  -- Writing to a home block does not change what the log says of the blocks that it holds.
  pub logged-eq :
      (tail : ℕ) (bs : List ℕ) (x b : ℕ) (d e : Disk)
      → IsHome x
      → tail + length bs < size
      → ((a : ℕ) → (x == a) ≡ false → e a ≡ d a)
      → ((x == b) ≡ true → has x bs ≡ true)
      → logged start tail bs e b ≡ logged start tail bs d b
  logged-eq tail [] x b d e home fits same inside = ground (arith, same b, inside)
  logged-eq tail (y ∷ ys) x b d e home fits same inside = ground (
    arith,
    same (start + tail + 1),
    inside,
    logged-eq (tail + 1) ys x b d e home (omega arith) same,
  )

  -- Writing outside the log blocks in use does not either.
  pub logged-same :
      (tail : ℕ) (bs : List ℕ) (b : ℕ) (d e : Disk)
      → tail + length bs < size
      → e b ≡ d b
      → ((k : ℕ) → tail < k → k < size → e (start + k) ≡ d (start + k))
      → logged start tail bs e b ≡ logged start tail bs d b
  logged-same tail [] b d e fits home same = home
  logged-same tail (y ∷ ys) b d e fits home same = ground (
    arith,
    same (tail + 1),
    logged-same (tail + 1) ys b d e (omega arith) home (λ k lo hi. same k (omega arith) hi),
  )

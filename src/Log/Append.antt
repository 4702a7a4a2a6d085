-- ===== src/Log/Append.antt =====
-- `write_log` of log.c: the loop copies the modified blocks into the log and touches nothing else.
use basic_os.Prelude.{
  ℕ, suc, ◌+◌, ◌≤◌, ◌<◌, ◌≡◌, refl, ◌⊎◌, arith, List, [], ◌∷◌, if◌then◌else◌, length, has, All,
}
use basic_os.Block.{Machine, view}
use basic_os.Block.Ends
use basic_os.Block.Ends.{Ends, returns, Copied}
use basic_os.Log.{log_loop}
use basic_os.Log.Recovers.{logged, IsHome}
use basic_os.Log.Copy.{log_one-Ends}

module _ (start size : ℕ) where
  -- A block that the loop leaves alone from entry `tail` on.
  abbrev pub IsSpared : ℕ → ℕ → Type 0
  IsSpared tail a = (a ≤ start + tail) ⊎ (start + size ≤ a)

  -- What the loop leaves at its end: the log holds what the cache held.
  pub record Appended (tail : ℕ) (bs : List ℕ) (m m' : Machine) : Type 0 where
    pub disk_eq : (a : ℕ) → IsSpared tail a → m'.disk a ≡ m.disk a
    pub view_eq : (a : ℕ) → IsSpared tail a → view m' a ≡ view m a
    pub clean : (a : ℕ) → view m a ≡ m.disk a → view m' a ≡ m'.disk a
    pub logs :
        (b : ℕ)
        → IsHome start size b
        → logged start tail bs m'.disk b ≡ (if has b bs then view m b else m.disk b)

  Appended-cons :
      (tail x : ℕ) (xs : List ℕ) (m m' m'' : Machine)
      → tail + suc (length xs) < size
      → All (IsHome start size) (x ∷ xs)
      → Copied m x (start + tail + 1) m'
      → Appended (tail + 1) xs m' m''
      → Appended tail (x ∷ xs) m m''
  Appended-cons tail x xs m m' m'' fits homes c a = record {
    disk_eq = λ b sp. ground (arith, c.disk_eq b, a.disk_eq b);
    view_eq = λ b sp. ground (arith, c.view_eq b, a.view_eq b);
    clean = λ b e. a.clean b (ground (arith, c.disk_eq b, c.view_eq b));
    logs = λ b home. ground (
      arith,
      a.logs b home,
      c.disk_eq b,
      c.view_eq b,
      c.disk_eq (start + tail + 1),
      a.disk_eq (start + tail + 1),
    );
  }

  pub log_loop-Ends :
      (tail : ℕ) (bs : List ℕ) (m : Machine)
      → tail + length bs < size
      → All (IsHome start size) bs
      → Ends
          (λ _ m'. Appended tail bs m m' × (m.power ≡ m'.power + length bs))
          (λ d. ((a : ℕ) → IsSpared tail a → d a ≡ m.disk a) × (m.power < length bs))
          (log_loop start tail bs m)
  unfolding log_loop
  log_loop-Ends tail [] m fits homes = returns (
    record {
      disk_eq = λ a sp. refl;
      view_eq = λ a sp. refl;
      clean = λ a e. e;
      logs = λ b home. refl;
    },
    omega arith,
  )
  log_loop-Ends tail (x ∷ xs) m fits homes =
      Ends.bind
        (log_one-Ends {Q = λ _ m'. Copied m x (start + tail + 1) m'} m (start + tail + 1) x
          (λ e. (λ a sp. refl, omega arith)) (λ m' c. c))
        (λ _ m' c.
          Ends.mono (log_loop-Ends (tail + 1) xs m' (omega arith) homes.1)
            (λ _ m'' h.
              (Appended-cons tail x xs m m' m'' fits homes c h.0, omega (arith, h.1, c.power_eq)))
            (λ d h. (λ a sp. ground (arith, h.0 a, c.disk_eq a), omega (arith, h.1, c.power_eq))))

-- ===== src/Log/Install.antt =====
-- `install_trans` of log.c: the loop brings every logged block home, and may be cut off anywhere.
use basic_os.Prelude.{
  ℕ, ◌+◌, ◌<◌, ◌≡◌, refl, arith, true, false, List, [], ◌∷◌, length, has, All, IsDistinct,
}
use basic_os.Block.{Disk, Machine, view}
use basic_os.Block.Ends
use basic_os.Block.Ends.{Ends, returns, Copied}
use basic_os.Log.{head_entries, install_loop}
use basic_os.Log.Recovers.{logged, IsHome, Recovers, not-has-log, logged-eq}
use basic_os.Log.Copy.{install_one-Ends}

module _ (start size : ℕ) (target : Disk) where
  -- The invariant of the loop: `rest` are the blocks still to be installed, from `tail` on.
  pub record Installing (tail : ℕ) (rest : List ℕ) (m : Machine) : Type 0 where
    pub recovers : Recovers start size target m.disk
    pub clean : (b : ℕ) → has b rest ≡ false → view m b ≡ m.disk b
    pub todo : (b : ℕ) → IsHome start size b → logged start tail rest m.disk b ≡ target b
    pub within : (b : ℕ) → has b rest ≡ true → has b (head_entries (m.disk start)) ≡ true
    pub distinct : IsDistinct rest
    pub homes : All (IsHome start size) rest
    pub fits : tail + length rest < size

  -- What the loop leaves when it has come to its end.
  pub record Installed (m : Machine) : Type 0 where
    pub recovers : Recovers start size target m.disk
    pub clean : (b : ℕ) → view m b ≡ m.disk b
    pub done : (b : ℕ) → IsHome start size b → m.disk b ≡ target b

  module _ (tail x : ℕ) (xs : List ℕ) (m m' : Machine) (i : Installing tail (x ∷ xs) m)
      (c : Copied m (start + tail + 1) x m') where
    -- The block that is copied home is the one on the disk.
    from_disk : view m (start + tail + 1) ≡ m.disk (start + tail + 1)
    from_disk =
        i.clean _ (
          ground
            (arith, not-has-log start size (x ∷ xs) (tail + 1) i.homes (omega (arith, i.fits))))

    head_kept : m'.disk start ≡ m.disk start
    head_kept = ground (arith, c.disk_eq start, i.homes, i.fits)

    installed_value :
        (b : ℕ) → IsHome start size b → logged start (tail + 1) xs m'.disk b ≡ target b
    installed_value b home = ground (
      arith,
      i.todo b home,
      from_disk,
      c.disk_eq b,
      logged_self xs (tail + 1) b,
      logged-eq start size (tail + 1) xs x b m.disk m'.disk i.homes.0 (omega (arith, i.fits))
          (λ a e. ground (arith, c.disk_eq a)),
      i.distinct.0,
    )
      where
        logged_self :
            (ys : List ℕ) (t b : ℕ) → has b ys ≡ false → logged start t ys m'.disk b ≡ m'.disk b
        logged_self [] t b h = refl
        logged_self (y ∷ ys) t b h = ground (arith, logged_self ys (t + 1) b)

    kept_value :
        (b : ℕ)
        → IsHome start size b
        → logged start 0 (head_entries (m.disk start)) m'.disk b ≡ target b
    kept_value b home = ground (
      arith,
      i.recovers.value b home,
      logged-eq start size 0 (head_entries (m.disk start)) x b m.disk m'.disk i.homes.0
          (omega (arith, i.recovers.fits)) (λ a e. ground (arith, c.disk_eq a)),
      i.within x,
    )

    pub Installing-step : Installing (tail + 1) xs m'
    Installing-step = record {
      recovers = record {
        distinct = rw head_kept i.recovers.distinct;
        homes = rw head_kept i.recovers.homes;
        fits = rw head_kept i.recovers.fits;
        room = rw head_kept i.recovers.room;
        value = rw head_kept kept_value;
      };
      clean = λ b h. ground (arith, c.disk_eq b, c.view_eq b, i.clean b);
      todo = installed_value;
      within = λ b h. rw head_kept (i.within b (ground arith));
      distinct = i.distinct.1;
      homes = i.homes.1;
      fits = omega (arith, i.fits);
    }

  -- The loop ends with every block home if there is power for as many writes; where it is cut off,
  -- the disk recovers to the same contents as before.
  pub install_loop-Ends :
      (tail : ℕ) (rest : List ℕ) (m : Machine)
      → Installing tail rest m
      → Ends
          (λ _ m'. Installed m' × (m.power ≡ m'.power + length rest))
          (λ d. Recovers start size target d × (m.power < length rest))
          (install_loop start tail rest m)
  unfolding install_loop
  install_loop-Ends tail [] m i =
      returns
        (record { recovers = i.recovers; clean = λ b. i.clean b refl; done = i.todo }, omega arith)
  install_loop-Ends tail (x ∷ xs) m i =
      Ends.bind
        (install_one-Ends {Q = λ _ m'. Copied m (start + tail + 1) x m'} m (start + tail + 1) x
          (λ e. (i.recovers, omega arith)) (λ m' c. c))
        (λ _ m' c.
          Ends.mono (install_loop-Ends (tail + 1) xs m' (Installing-step tail x xs m m' i c))
            (λ _ m'' h. (h.0, omega (arith, h.1, c.power_eq)))
            (λ d h. (h.0, omega (arith, h.1, c.power_eq))))

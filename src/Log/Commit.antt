-- ===== src/Log/Commit.antt =====
-- Crash safety of log.c: `commit` is atomic.
use basic_os.Prelude.{
  ℕ, ◌+◌, ◌*◌, ◌≤◌, ◌<◌, ◌≡◌, refl, ap, ◌⊎◌, inl, inr, arith, false, List, [], ◌∷◌, length, ltb,
  Bool-cases,
}
use basic_os.Block.{Disk, Machine, view}
use basic_os.Block.Ends
use basic_os.Block.Ends.{Ends, returns, Copied, view-hold}
use basic_os.Log.{Log, head_entries, write_log, install_trans, commit}
use basic_os.Log.Header.{head_entries-head_words, length-head_words}
use basic_os.Log.Recovers.{logged, IsHome, Recovers, not-has-log, logged-same}
use basic_os.Log.Copy.{write_head-Ends, Headed}
use basic_os.Log.Install.{Installing, Installed, install_loop-Ends}
use basic_os.Log.Append.{Appended, IsSpared, log_loop-Ends}
use basic_os.Log.Ready.{IsReady, Finished, emptied, Finished-cleared}

module _ (l : Log) (m : Machine) (r : IsReady l m) where
  -- As long as the header is empty, the disk stands for the contents before the commit.
  Recovers-old :
      (d : Disk)
      → ((a : ℕ) → IsSpared l.start l.size 0 a → d a ≡ m.disk a)
      → Recovers l.start l.size m.disk d
  Recovers-old d same = record {
    distinct = rw (head, r.empty) tt;
    homes = rw (head, r.empty) tt;
    fits = rw (head, r.empty) (omega (arith, r.fits));
    room = rw (head) room;
    value = λ b home. rw (head, r.empty) (same b (ground arith));
  }
    where
      head : d l.start ≡ m.disk l.start
      head = same l.start (omega arith)

      start_clean : view m l.start ≡ m.disk l.start
      start_clean =
          r.clean l.start
            (ground (arith, not-has-log l.start l.size l.lh 0 r.homes (omega (arith, r.fits))))

      room : l.size ≤ length (m.disk l.start)
      room = rw (← start_clean) r.room

  module _ (m1 m2 : Machine) (a : Appended l.start l.size 0 l.lh m m1) (h : Headed l m1 m2) where
    head_view : view m1 l.start ≡ view m l.start
    head_view = a.view_eq l.start (omega arith)

    head_disk : head_entries (m2.disk l.start) ≡ l.lh
    head_disk = ground (
      arith,
      h.disk_eq l.start,
      head_view,
      head_entries-head_words l.lh (view m l.start) (omega (arith, r.fits, r.room))
          (omega (arith, r.fits, r.small)),
    )

    -- The written header names the whole transaction.
    new_value : (b : ℕ) → IsHome l.start l.size b → logged l.start 0 l.lh m2.disk b ≡ view m b
    new_value b home = ground (
      arith,
      a.logs b home,
      r.clean b,
      logged-same l.start l.size 0 l.lh b m1.disk m2.disk (omega (arith, r.fits))
          (ground (arith, h.disk_eq b, r.fits))
          (λ k lo hi. ground (arith, h.disk_eq (l.start + k))),
    )

    Recovers-new : Recovers l.start l.size (view m) m2.disk
    Recovers-new = record {
      distinct = rw head_disk r.distinct;
      homes = rw head_disk r.homes;
      fits = rw head_disk r.fits;
      room = ground (
        arith,
        h.disk_eq l.start,
        length-head_words l.lh (view m l.start),
        r.room,
        r.fits,
        head_view,
      );
      value = rw head_disk new_value;
    }

    Installing-start : Installing l.start l.size (view m) 0 l.lh m2
    Installing-start = record {
      recovers = Recovers-new;
      clean = λ b out. ground (arith, h.disk_eq b, h.view_eq b, a.clean b, r.clean b);
      todo = new_value;
      within = λ b e. rw head_disk e;
      distinct = r.distinct;
      homes = r.homes;
      fits = omega (arith, r.fits);
    }

-- No other field of the log, and nothing but the log's own blocks and those of `lh`, is changed.
nil_of_length : (bs : List ℕ) → ltb 0 (length bs) ≡ false → bs ≡ []
nil_of_length [] h = refl
nil_of_length (b ∷ bs) h = absurd (ground arith)

module _ (l : Log) (m : Machine) (r : IsReady l m) where
  commit_nothing : l.lh ≡ [] → Finished (view m) l m
  commit_nothing e = record {
    ready = r;
    nothing = e;
    done = λ b home. ground (arith, r.clean b);
    agrees = λ b. ground (arith, r.clean b);
  }

  -- `commit` on a ready log: it ends with every cached block on the disk and an empty log, if there
  -- is power for two writes a block and two of the header. Cut off at any write, it leaves a disk
  -- that stands for all of the transaction or for nothing of it.
  pub commit-Ends :
      Ends
        (λ l' m'. (l' ≡ emptied l) × Finished (view m) l' m')
        (λ d.
          (Recovers l.start l.size m.disk d ⊎ Recovers l.start l.size (view m) d)
          × (m.power < 2 * length l.lh + 2))
        (commit l m)
  unfolding commit write_log install_trans
  commit-Ends = elim (Bool-cases (ltb 0 (length l.lh))) [
    | inl some_blocks ↦ rw some_blocks (
        Ends.bind
          (Ends.mono
            {R = λ _ m1. Appended l.start l.size 0 l.lh m m1 × (m.power ≡ m1.power + length l.lh)}
            (log_loop-Ends l.start l.size 0 l.lh m (omega (arith, r.fits)) r.homes) (λ _ m1 h. h)
            (λ d h. (inl (Recovers-old l m r d h.0), omega (arith, h.1))))
          (λ _ m1 a.
            Ends.bind
              (write_head-Ends {Q = λ _ m2. Headed l m1 m2} m1 l
                (λ e. (inl (Recovers-old l m r m1.disk a.0.disk_eq), omega (arith, a.1, e)))
                (λ m2 h. h))
              (λ _ m2 h.
                Ends.bind
                  (Ends.mono
                    {R = λ _ m3.
                      Installed l.start l.size (view m) m3 × (m2.power ≡ m3.power + length l.lh)}
                    (install_loop-Ends l.start l.size (view m) 0 l.lh m2
                      (Installing-start l m r m1 m2 a.0 h))
                    (λ _ m3 i. i) (λ d i. (inr i.0, omega (arith, i.1, h.power_eq, a.1))))
                  (λ _ m3 i.
                    Ends.bind
                      (write_head-Ends {Q = λ _ m4. Headed (emptied l) m3 m4} m3 (emptied l)
                        (λ e. (inr i.0.recovers, omega (arith, e, i.1, h.power_eq, a.1)))
                        (λ m4 g. g))
                      (λ _ m4 g. returns (
                        refl,
                        Finished-cleared l (view m) m3 m4 i.0 g r.small (omega (arith, r.fits))
                            (rw (i.0.clean l.start) i.0.recovers.room),
                      ))))))
    | inr none_left ↦ rw none_left (
        returns (
          ap (λ bs. record l { lh = bs }) (nil_of_length l.lh none_left),
          commit_nothing (nil_of_length l.lh none_left),
        ))
  ]

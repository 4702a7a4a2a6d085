-- ===== src/Log/Recovery.antt =====
-- Crash safety of log.c: recovery finishes what a commit left, however often the power fails.
use basic_os.Prelude.{ℕ, ◌+◌, ◌≤◌, ◌<◌, ◌^◌, ◌≡◌, refl, arith, false, none, length}
use basic_os.Block.{Disk, Machine, view, dirty, bread, hold}
use basic_os.Block.Ends
use basic_os.Block.Ends.{Ends, returns, Copied, view-hold}
use basic_os.Log.{Log, head_entries, install_trans, read_head, recover_from_log}
use basic_os.Log.Recovers.{Recovers}
use basic_os.Log.Copy.{write_head-Ends, Headed}
use basic_os.Log.Install.{Installing, Installed, install_loop-Ends}
use basic_os.Log.Ready.{Finished, emptied, Finished-cleared}

-- The machine after a restart: nothing is cached.
abbrev pub booted : Disk → ℕ → Machine
booted d p = record { disk = d; cache = λ b. none; power = p }

Installing-booted :
    (l : Log) (target d : Disk) (p : ℕ)
    → Recovers l.start l.size target d
    → Installing l.start l.size target 0
        (head_entries (d l.start))
        (hold (booted d p) l.start (d l.start) false)
unfolding view
Installing-booted l target d p r = record {
  recovers = r;
  clean = λ b out. ground arith;
  todo = r.value;
  within = λ b e. e;
  distinct = r.distinct;
  homes = r.homes;
  fits = omega (arith, r.fits);
}

-- `recover_from_log` after a restart: it ends with the contents that the disk stood for on the disk
-- itself and an empty log, if there is power for a write a block and one of the header. Cut off at any
-- write, it leaves a disk that stands for the same contents, so it can be run again.
pub recover_from_log-Ends :
    (l : Log) (target d : Disk) (p : ℕ)
    → Recovers l.start l.size target d
    → l.size ≤ 2 ^ 31
    → Ends
        (λ l' m'. (l' ≡ emptied l) × Finished target l' m')
        (λ d'. Recovers l.start l.size target d' × (p < length (head_entries (d l.start)) + 1))
        (recover_from_log l (booted d p))
unfolding recover_from_log read_head install_trans bread view dirty
recover_from_log-Ends l target d p r small =
    Ends.bind
      (Ends.mono
        {R = λ _ m1.
          Installed l.start l.size target m1 × (p ≡ m1.power + length (head_entries (d l.start)))}
        (install_loop-Ends l.start l.size target 0 (head_entries (d l.start))
          (hold (booted d p) l.start (d l.start) false) (Installing-booted l target d p r))
        (λ _ m1 h. h) (λ d' h. (h.0, omega (arith, h.1))))
      (λ _ m1 i.
        Ends.bind
          (write_head-Ends {Q = λ _ m2. Headed (emptied l) m1 m2} m1 (emptied l)
            (λ e. (i.0.recovers, omega (arith, e, i.1))) (λ m2 g. g))
          (λ _ m2 g. returns (
            refl,
            Finished-cleared l target m1 m2 i.0 g small (omega (arith, r.fits))
                (rw (i.0.clean l.start) i.0.recovers.room),
          )))

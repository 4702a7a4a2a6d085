-- ===== src/Log/Ready.antt =====
-- The state of the log between commits, and what a commit or a recovery leaves when it is done.
use basic_os.Prelude.{ℕ, ◌≤◌, ◌<◌, ◌^◌, ◌≡◌, refl, arith, false, [], length, has, All, IsDistinct}
use basic_os.Block.{Disk, Machine, view}
use basic_os.Log.{Log, head_entries, head_words}
use basic_os.Log.Header.{head_entries-head_words, length-head_words}
use basic_os.Log.Recovers.{IsHome}
use basic_os.Log.Copy.{Headed}
use basic_os.Log.Install.{Installed}

-- The state of the log between commits: `lh` names distinct blocks outside the log, the header on
-- the disk is empty and has room, and only the blocks of `lh` differ from the disk.
pub record IsReady (l : Log) (m : Machine) : Type 0 where
  pub distinct : IsDistinct l.lh
  pub homes : All (IsHome l.start l.size) l.lh
  pub fits : length l.lh < l.size
  pub small : l.size ≤ 2 ^ 31
  pub room : l.size ≤ length (view m l.start)
  pub empty : head_entries (m.disk l.start) ≡ []
  pub clean : (b : ℕ) → has b l.lh ≡ false → view m b ≡ m.disk b

-- The log with an empty transaction.
abbrev pub emptied : Log → Log
emptied l = record l { lh = [] }

-- What a finished commit or recovery leaves: the home blocks hold `target`, the log is ready and
-- empty, and the cache agrees with the disk.
pub record Finished (target : Disk) (l : Log) (m : Machine) : Type 0 where
  pub ready : IsReady l m
  pub nothing : l.lh ≡ []
  pub done : (b : ℕ) → IsHome l.start l.size b → m.disk b ≡ target b
  pub agrees : (b : ℕ) → view m b ≡ m.disk b

-- The last write of both: the header is cleared.
module _ (l : Log) (target : Disk) (m m' : Machine) (i : Installed l.start l.size target m)
    (h : Headed (emptied l) m m') (small : l.size ≤ 2 ^ 31) (fits : 0 < l.size)
    (room : l.size ≤ length (view m l.start)) where
  cleared_view : view m' l.start ≡ head_words [] (view m l.start)
  cleared_view = ground (arith, h.view_eq l.start)

  cleared_disk : m'.disk l.start ≡ head_words [] (view m l.start)
  cleared_disk = ground (arith, h.disk_eq l.start)

  pub Finished-cleared : Finished target (emptied l) m'
  Finished-cleared = record {
    ready = record {
      distinct = tt;
      homes = tt;
      fits = fits;
      small = small;
      room = rw cleared_view (omega (arith, length-head_words [] (view m l.start)));
      empty =
          rw cleared_disk (head_entries-head_words [] (view m l.start) (omega arith) (omega arith));
      clean = λ b e. agrees b;
    };
    nothing = refl;
    done = λ b home. ground (arith, h.disk_eq b, i.done b home);
    agrees = agrees;
  }
    where
      agrees : (b : ℕ) → view m' b ≡ m'.disk b
      agrees b = ground (arith, h.disk_eq b, h.view_eq b, i.clean b)

-- ===== src/Sleeplock.antt =====
-- xv6-public/sleeplock.c: locks that a process holds while it sleeps.
-- The spin lock inside makes each operation, up to its `sleep`, one step. Pids are not 0.
pub mod Exclusive
use basic_os.Prelude.{ℕ, Bool, true, false, ◌&&◌, Option, none, some, ◌==◌, if◌then◌else◌}

pub record Sleeplock : Type 0 where
  pub locked : Bool
  pub pid : ℕ

unfoldable pub initsleeplock : Sleeplock
initsleeplock = record { locked = false; pid = 0 }

-- One round of the loop of `acquiresleep` by the process `pid`; `none` is the `sleep`.
unfoldable pub acquiresleep : ℕ → Sleeplock → Option Sleeplock
acquiresleep pid l = if l.locked then none else some (record l { locked = true; pid = pid })

-- `releasesleep`, which wakes those that sleep on the lock.
pub releasesleep : Sleeplock → Sleeplock
releasesleep l = record l { locked = false; pid = 0 }

pub holdingsleep : ℕ → Sleeplock → Bool
holdingsleep pid l = l.locked && (l.pid == pid)

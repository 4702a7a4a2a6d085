-- ===== src/Tests/Journal.antt =====
-- The theorems on log.c at small logs.
use basic_os.Prelude.{
  ℕ, ◌+◌, ◌*◌, ◌<◌, ◌≡◌, refl, ◌⊎◌, inr, arith, true, false, none, some, [], ◌∷◌, length, update,
}
use basic_os.Block.{Disk, Machine, view, ok, panic, hold, set_data, ◌>>◌}
use basic_os.Block.Ends.{Ends}
use basic_os.Log.{Log, head_words, head_entries, commit, recover_from_log, log_write, begin_op}
use basic_os.Log.Recovers.{Recovers, logged}
use basic_os.Log.Ready.{IsReady, Finished, emptied}
use basic_os.Log.Header.{head_entries-head_words}
use basic_os.Log.Commit.{commit-Ends}
use basic_os.Log.Recovery.{booted, recover_from_log-Ends}
use basic_os.Log.Admission.{
  Sys, sys, Reach, here, next, begins, IsReservedSys, Reach-IsReserved, log_write_admitted,
}
use basic_os.Log.Overflow.{log_write_overflow}
use basic_os.Log.Write.{logged_in, log_write-IsReady, Modified, modified, HasRoom}

head_entries-head_words_example :
    head_entries (head_words (7 ∷ 9 ∷ []) (0 ∷ 0 ∷ 0 ∷ 0 ∷ [])) ≡ 7 ∷ 9 ∷ []
head_entries-head_words_example =
    head_entries-head_words (7 ∷ 9 ∷ []) (0 ∷ 0 ∷ 0 ∷ 0 ∷ []) (omega arith) (omega arith)

-- A log of four blocks from block 2 on, with block 10 in the transaction.
abbrev blank : Disk
blank b = 0 ∷ 0 ∷ 0 ∷ 0 ∷ []

abbrev one_logged : Log
one_logged = record { start = 2; size = 4; outstanding = 1; committing = false; lh = 10 ∷ [] }

abbrev ten_changed : Machine
ten_changed = record {
  disk = blank;
  cache = update (λ b. none) 10 (some (record { words = 5 ∷ 5 ∷ []; dirty = true }));
  power = 3;
}

one_logged-IsReady : IsReady one_logged ten_changed
unfolding view head_entries
one_logged-IsReady = record {
  distinct = (refl, tt);
  homes = (inr (omega arith), tt);
  fits = omega arith;
  small = omega arith;
  room = omega arith;
  empty = refl;
  clean = λ b h. ground (arith, h);
}

commit-Ends_example :
    Ends
      (λ l' m'. (l' ≡ emptied one_logged) × Finished (view ten_changed) l' m')
      (λ d.
        (Recovers 2 4 blank d ⊎ Recovers 2 4 (view ten_changed) d)
        × (ten_changed.power < 2 * length one_logged.lh + 2))
      (commit one_logged ten_changed)
commit-Ends_example = commit-Ends one_logged ten_changed one_logged-IsReady

-- A disk whose header names block 10, with its new words in block 3.
abbrev cut_off : Disk
cut_off = update (update blank 2 (1 ∷ 10 ∷ 0 ∷ 0 ∷ [])) 3 (5 ∷ 5 ∷ [])

abbrev meant : Disk
meant = logged 2 0 (10 ∷ []) cut_off

cut_off-Recovers : Recovers 2 4 meant cut_off
unfolding head_entries
cut_off-Recovers = record {
  distinct = (refl, tt);
  homes = (inr (omega arith), tt);
  fits = omega arith;
  room = omega arith;
  value = λ b home. refl;
}

recover_from_log-Ends_example :
    Ends
      (λ l' m'. (l' ≡ emptied one_logged) × Finished meant l' m')
      (λ d'. Recovers 2 4 meant d' × (1 < length (head_entries (cut_off 2)) + 1))
      (recover_from_log one_logged (booted cut_off 1))
recover_from_log-Ends_example =
    recover_from_log-Ends one_logged meant cut_off 1 cut_off-Recovers (omega arith)

log_write-IsReady_example :
    ((set_data 11 (6 ∷ []) >> log_write one_logged 11) ten_changed
      ≡ ok (logged_in one_logged 11) (modified one_logged ten_changed 11 (6 ∷ [])))
    × Modified one_logged ten_changed 11
        (6 ∷ [])
        (logged_in one_logged 11)
        (modified one_logged ten_changed 11 (6 ∷ []))
log_write-IsReady_example =
    log_write-IsReady one_logged ten_changed 11 (6 ∷ []) one_logged-IsReady (inr (omega arith)) room
  where
    room : HasRoom one_logged
    room = record {
      below_max = omega arith;
      below_size = omega arith;
      in_op = (omega arith, omega arith);
    }

-- A log that is large enough, and one of LOGSIZE blocks as mkfs makes it, both idle.
abbrev idle_log : ℕ → Log
idle_log n = record { start = 2; size = n; outstanding = 0; committing = false; lh = [] }

abbrev clean_machine : Machine
clean_machine = record { disk = blank; cache = λ b. none; power = 0 }

abbrev idle_sys : Sys
idle_sys = sys (idle_log 31) clean_machine []

abbrev one_running : Sys
one_running = sys (record (idle_log 31) { outstanding = 1 }) clean_machine (0 ∷ [])

idle_sys-IsReserved : IsReservedSys 31 idle_sys
idle_sys-IsReserved = record {
  counted = refl;
  idle = refl;
  room = omega arith;
  few = omega arith;
  sized = refl;
}

begun : Reach idle_sys one_running
unfolding begin_op
begun = next here (begins refl refl)

Reach-IsReserved_example : IsReservedSys 31 one_running
Reach-IsReserved_example = Reach-IsReserved 31 idle_sys-IsReserved begun

log_write_admitted_example :
    log_write one_running.log 10 clean_machine
    ≡ ok (logged_in one_running.log 10) (hold clean_machine 10 (view clean_machine 10) true)
log_write_admitted_example =
    log_write_admitted 31 [] 0 [] 10 (omega arith) idle_sys-IsReserved begun refl (omega arith)

log_write_overflow_example :
    (t : Sys) × Reach (sys (idle_log 30) clean_machine []) t
    × (t.used ≡ 10 ∷ 10 ∷ 9 ∷ [])
    × ((b : ℕ) → log_write t.log b t.machine ≡ panic)
log_write_overflow_example = log_write_overflow (idle_log 30) clean_machine refl refl refl refl

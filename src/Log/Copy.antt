-- ===== src/Log/Copy.antt =====
-- One round of the loops of `install_trans` and `write_log`, and the write of the header.
use basic_os.Prelude.{ℕ, suc, ◌≡◌, arith, ◌==◌, if◌then◌else◌}
use basic_os.Block.{Disk, Machine, bread, set_data, view}
use basic_os.Block.Ends.{Ends, Copied, bwrite-Ends}
use basic_os.Log.{Log, install_one, log_one, write_head, head_words}

module _ {Q : Unit {0} → Machine → Type 0} {C : Disk → Type 0} (m : Machine) where
  -- A round of `install_trans` copies a block, if there is power for a write.
  pub install_one-Ends :
      (from home : ℕ)
      → (m.power ≡ 0 → C m.disk)
      → ((m' : Machine) → Copied m from home m' → Q tt m')
      → Ends Q C (install_one from home m)
  unfolding install_one bread set_data view
  install_one-Ends from home c q = bwrite-Ends _ home c (λ k e.
      q _ (record { disk_eq = λ a. ground arith; view_eq = λ a. ground arith; power_eq = e }))

  -- A round of `write_log` does too, the other way round.
  pub log_one-Ends :
      (to home : ℕ)
      → (m.power ≡ 0 → C m.disk)
      → ((m' : Machine) → Copied m home to m' → Q tt m')
      → Ends Q C (log_one to home m)
  unfolding log_one bread set_data view
  log_one-Ends to home c q = bwrite-Ends _ to c (λ k e.
      q _ (record { disk_eq = λ a. ground arith; view_eq = λ a. ground arith; power_eq = e }))

-- What `write_head` leaves.
pub record Headed (l : Log) (m m' : Machine) : Type 0 where
  pub disk_eq :
      (a : ℕ) → m'.disk a ≡ (if l.start == a then head_words l.lh (view m l.start) else m.disk a)
  pub view_eq :
      (a : ℕ) → view m' a ≡ (if l.start == a then head_words l.lh (view m l.start) else view m a)
  pub power_eq : m.power ≡ suc m'.power

pub write_head-Ends :
    {Q : Unit {0} → Machine → Type 0} {C : Disk → Type 0} (m : Machine) (l : Log)
    → (m.power ≡ 0 → C m.disk)
    → ((m' : Machine) → Headed l m m' → Q tt m')
    → Ends Q C (write_head l m)
unfolding write_head bread set_data view
write_head-Ends m l c q =
    bwrite-Ends _ l.start c (λ k e.
      q _ (record { disk_eq = λ a. ground arith; view_eq = λ a. ground arith; power_eq = e }))

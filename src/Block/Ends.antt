-- ===== src/Block/Ends.antt =====
-- How a run ends: with a result and a machine, or with the disk that a power failure leaves.
use basic_os.Prelude.{ℕ, zero, suc, ◌≡◌, refl, arith, ◌==◌, if◌then◌else◌}
use basic_os.Block.{
  Words, Disk, Machine, Run, ok, crash, Cmd, and_then, view, hold, written, write_powered, bwrite,
}

-- The run does not panic; `Q` holds of what it returns, and `C` of the disk where it was cut off.
pub data Ends {A : Type 0} (Q : A → Machine → Type 0) (C : Disk → Type 0) : Run A → Type 0 where
  returns : {a : A} {m : Machine} → Q a m → Ends Q C (ok a m)
  crashes : {d : Disk} → C d → Ends Q C (crash d)

module _ {A B : Type 0} {Q : A → Machine → Type 0} {R : B → Machine → Type 0}
    {C : Disk → Type 0} where
  pub bind :
      {r : Run A} {k : A → Cmd B}
      → Ends Q C r
      → ((a : A) (m : Machine) → Q a m → Ends R C (k a m))
      → Ends R C (and_then r k)
  bind (returns p) next = next _ _ p
  bind (crashes c) next = crashes c

module _ {A : Type 0} {Q R : A → Machine → Type 0} {C E : Disk → Type 0} where
  pub mono :
      {r : Run A}
      → Ends Q C r
      → ((a : A) (m : Machine) → Q a m → R a m)
      → ((d : Disk) → C d → E d)
      → Ends R E r
  mono (returns p) f g = returns (f _ _ p)
  mono (crashes c) f g = crashes (g _ c)

pub view-hold :
    (m : Machine) (b : ℕ) (w : Words) (f : _) (a : ℕ)
    → view (hold m b w f) a ≡ (if b == a then w else view m a)
unfolding view
view-hold m b w f a = ground arith

pub view-written : (m : Machine) (b p a : ℕ) → view (written m b p) a ≡ view m a
unfolding view
view-written m b p a = ground arith

write_powered-Ends :
    {Q : Unit {0} → Machine → Type 0} {C : Disk → Type 0} (p : ℕ) (m : Machine) (b : ℕ)
    → (p ≡ 0 → C m.disk)
    → ((k : ℕ) → p ≡ suc k → Q tt (written m b k))
    → Ends Q C (write_powered p m b)
write_powered-Ends zero m b c q = crashes (c refl)
write_powered-Ends (suc p) m b c q = returns (q p refl)

-- A write is done if there is power for it, and cut off before it starts otherwise.
pub bwrite-Ends :
    {Q : Unit {0} → Machine → Type 0} {C : Disk → Type 0} (m : Machine) (b : ℕ)
    → (m.power ≡ 0 → C m.disk)
    → ((k : ℕ) → m.power ≡ suc k → Q tt (written m b k))
    → Ends Q C (bwrite b m)
unfolding bwrite
bwrite-Ends m b c q = write_powered-Ends m.power m b c q

-- What a copy of one block over another leaves.
pub record Copied (m : Machine) (from to : ℕ) (m' : Machine) : Type 0 where
  pub disk_eq : (a : ℕ) → m'.disk a ≡ (if to == a then view m from else m.disk a)
  pub view_eq : (a : ℕ) → view m' a ≡ (if to == a then view m from else view m a)
  pub power_eq : m.power ≡ suc m'.power

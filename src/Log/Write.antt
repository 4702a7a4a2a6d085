-- ===== src/Log/Write.antt =====
-- `log_write` of log.c: absorption, and what a modified block is worth before the commit.
use basic_os.Prelude.{
  ℕ, ◌+◌, ◌≤◌, ◌<◌, ◌^◌, ◌≡◌, refl, inl, inr, arith, true, false, ◌||◌, List, [], ◌∷◌, ◌++◌, ◌==◌,
  if◌then◌else◌, length, has, All, IsDistinct, Bool-cases, length-append,
}
use basic_os.Block.{Words, Machine, ok, view, ◌>>◌, set_data, pin, dirty, hold}
use basic_os.Log.{Log, log_write, absorb, log_size}
use basic_os.Log.Recovers.{IsHome}
use basic_os.Log.Ready.{IsReady}

has-append_one : (bs : List ℕ) (b a : ℕ) → has a (bs ++ (b ∷ [])) ≡ (has a bs || (b == a))
has-append_one [] b a = ground arith
has-append_one (x ∷ bs) b a = ground (arith, has-append_one bs b a)

IsDistinct-append_one :
    (bs : List ℕ) (b : ℕ) → IsDistinct bs → has b bs ≡ false → IsDistinct (bs ++ (b ∷ []))
IsDistinct-append_one [] b d out = (refl, tt)
IsDistinct-append_one (x ∷ bs) b d out =
    (ground (arith, has-append_one bs b x, d.0), IsDistinct-append_one bs b d.1 (ground arith))

All-append_one : (P : ℕ → Type 0) (bs : List ℕ) (b : ℕ) → All P bs → P b → All P (bs ++ (b ∷ []))
All-append_one P [] b a p = (p, tt)
All-append_one P (x ∷ bs) b a p = (a.0, All-append_one P bs b a.1 p)

pub has-absorb : (bs : List ℕ) (b a : ℕ) → has a (absorb bs b) ≡ (has a bs || (b == a))
has-absorb bs b a = elim (Bool-cases (has b bs)) [
  | inl inside ↦ rw inside (ground arith)
  | inr out ↦ rw out (has-append_one bs b a)
]

pub IsDistinct-absorb : (bs : List ℕ) (b : ℕ) → IsDistinct bs → IsDistinct (absorb bs b)
IsDistinct-absorb bs b d = elim (Bool-cases (has b bs)) [
  | inl inside ↦ rw inside d
  | inr out ↦ rw out (IsDistinct-append_one bs b d out)
]

pub All-absorb : (P : ℕ → Type 0) (bs : List ℕ) (b : ℕ) → All P bs → P b → All P (absorb bs b)
All-absorb P bs b a p = elim (Bool-cases (has b bs)) [
  | inl inside ↦ rw inside a
  | inr out ↦ rw out (All-append_one P bs b a p)
]

pub length-absorb :
    (bs : List ℕ) (b : ℕ)
    → (length bs ≤ length (absorb bs b)) × (length (absorb bs b) ≤ length bs + 1)
length-absorb bs b = ground (arith, length-append bs (b ∷ []))

-- The guards of `log_write`, with room for one more block.
pub record HasRoom (l : Log) : Type 0 where
  pub below_max : length l.lh < log_size
  pub below_size : length l.lh + 1 < l.size
  pub in_op : (0 < l.outstanding) × (l.outstanding < 2 ^ 31)

abbrev pub logged_in : Log → ℕ → Log
logged_in l b = record l { lh = absorb l.lh b }

pub log_write_ok :
    (l : Log) (b : ℕ) (m : Machine)
    → HasRoom l
    → log_write l b m ≡ ok (logged_in l b) (hold m b (view m b) true)
unfolding log_write pin
log_write_ok l b m g = ground arith

-- The log's own view of what `log_write` leaves.
pub record Modified (l : Log) (m : Machine) (b : ℕ) (w : Words) (l' : Log) (m' : Machine)
    : Type 0 where
  pub ready : IsReady l' m'
  pub entries : (a : ℕ) → has a l'.lh ≡ (has a l.lh || (b == a))
  pub bounds : (length l.lh ≤ length l'.lh) × (length l'.lh ≤ length l.lh + 1)
  pub view_eq : (a : ℕ) → view m' a ≡ (if b == a then w else view m a)
  pub disk_eq : (a : ℕ) → m'.disk a ≡ m.disk a
  pub pinned : dirty m' b ≡ true

module _ (l : Log) (m : Machine) (b : ℕ) (w : Words) where
  abbrev pub modified : Machine
  modified = hold (hold m b w (dirty m b)) b (view (hold m b w (dirty m b)) b) true

  Modified-modified :
      IsReady l m
      → IsHome l.start l.size b
      → length l.lh + 1 < l.size
      → Modified l m b w (logged_in l b) modified
  unfolding view dirty
  Modified-modified r home fits = record {
    ready = record {
      distinct = IsDistinct-absorb l.lh b r.distinct;
      homes = All-absorb (IsHome l.start l.size) l.lh b r.homes home;
      fits = omega (arith, length-absorb l.lh b);
      small = r.small;
      room = ground (arith, r.room);
      empty = r.empty;
      clean = λ a out. ground (arith, has-absorb l.lh b a, r.clean a);
    };
    entries = has-absorb l.lh b;
    bounds = length-absorb l.lh b;
    view_eq = λ a. ground arith;
    disk_eq = λ a. refl;
    pinned = ground arith;
  }

  -- New contents for a home block, then `log_write`, in a ready log with room: no panic, and the log
  -- is ready. The block is pinned and named in the log once; readers see the new contents of it and
  -- the old ones of every other block; nothing has gone to the disk.
  pub log_write-IsReady :
      IsReady l m
      → IsHome l.start l.size b
      → HasRoom l
      → ((set_data b w >> log_write l b) m ≡ ok (logged_in l b) modified)
        × Modified l m b w (logged_in l b) modified
  unfolding set_data
  log_write-IsReady r home g = (log_write_ok l b _ g, Modified-modified r home g.below_size)

-- ===== src/Tests/Disks.antt =====
-- The theorems on the disk's queue at small runs.
use basic_os.Prelude.{◌≡◌, refl, arith, true, false, [], ◌∷◌, none, some, update}
use basic_os.Ide.{Request, Disk, outputs, idestart, finished, ideintr, iderw, is_done}
use basic_os.Ide.Order.{Reach, idle, asks, interrupt, IsOrdered, Reach-IsOrdered}
use basic_os.Ide.Serve.{serve, serve-is_done}

-- A read of block 70000 of disk 1
abbrev wanted : Request
wanted = record { dev = 1; blockno = 70000; valid = false; dirty = false; contents = [] }

abbrev asked_one : Disk
asked_one = record {
  queue = 7 ∷ [];
  bufs = λ b. wanted;
  sent = (7, outputs wanted) ∷ [];
  woken = [];
}

abbrev asked_two : Disk
asked_two = record asked_one { queue = 7 ∷ 9 ∷ [] }

abbrev one_done : Disk
one_done = record {
  queue = 9 ∷ [];
  bufs = update (λ b. wanted) 7 (finished (some (1 ∷ [])) wanted);
  sent = (7, outputs wanted) ∷ (9, outputs wanted) ∷ [];
  woken = 7 ∷ [];
}

asked_one-Reach : Reach (7 ∷ []) asked_one
unfolding iderw idestart
asked_one-Reach = asks true true 7 refl (idle (λ b. wanted)) refl

asked_two-Reach : Reach (7 ∷ 9 ∷ []) asked_two
unfolding iderw idestart
asked_two-Reach = asks true true 9 refl asked_one-Reach refl

one_done-Reach : Reach (7 ∷ 9 ∷ []) one_done
unfolding ideintr idestart
one_done-Reach = interrupt (some (1 ∷ [])) asked_two-Reach refl

Reach-IsOrdered_example : IsOrdered (7 ∷ 9 ∷ []) one_done
Reach-IsOrdered_example = Reach-IsOrdered (7 ∷ 9 ∷ []) one_done one_done-Reach

serve-is_done_example :
    (d' : Disk) × (serve (some [] ∷ none ∷ []) asked_two ≡ some d') × (is_done 9 d' ≡ true)
serve-is_done_example =
    serve-is_done (some [] ∷ none ∷ []) 1 9 (7 ∷ 9 ∷ []) asked_two refl (λ k c e. omega arith) refl
      refl

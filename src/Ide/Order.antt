-- ===== src/Ide/Order.antt =====
-- The order of requests: they are started and finished one at a time, in the order of their `iderw`.
use mathlib.Core.List.{append-nil, append_assoc}
use mathlib.Core.Path.{subst}
use basic_os.Prelude.{
  ℕ, ◌≡◌, refl, sym, ap, ap₂, ◌∙◌, arith, inl, inr, Bool, true, false, not, ◌&&◌, ◌||◌, Bool-cases,
  ◌==◌, leb, if◌then◌else◌, List, [], ◌∷◌, ◌++◌, Option, none, some, has, update,
}
use basic_os.Ide.{
  fs_size, Request, Disk, Output, outputs, idestart, finished, intr_at, ideintr, is_first, enqueue,
  iderw,
}

-- Runs of the driver from an idle disk, with the buffers of the calls of `iderw` so far. The lock of a
-- buffer keeps it from a second call while it waits; whoever holds the lock may change it.
pub data Reach : List ℕ → Disk → Type 0 where
  idle : (bufs : ℕ → Request) → Reach [] (record { queue = []; bufs = bufs; sent = []; woken = [] })
  changes :
      (b : ℕ) (r : Request) {asked : List ℕ} {d : Disk}
      → has b d.queue ≡ false
      → Reach asked d
      → Reach asked (record d { bufs = update d.bufs b r })
  asks :
      (held have_disk1 : Bool) (b : ℕ) {asked : List ℕ} {d d' : Disk}
      → has b d.queue ≡ false
      → Reach asked d
      → iderw held have_disk1 b d ≡ some d'
      → Reach (asked ++ b ∷ []) d'
  interrupt :
      (input : Option (List ℕ)) {asked : List ℕ} {d d' : Disk}
      → Reach asked d
      → ideintr input d ≡ some d'
      → Reach asked d'

abbrev pub first : List ℕ → List ℕ
first [] = []
first (b ∷ bs) = b ∷ []

abbrev pub started : List (ℕ × List Output) → List ℕ
started [] = []
started ((b, os) ∷ s) = b ∷ started s

pub record IsOrdered (asked : List ℕ) (d : Disk) : Type 0 where
  pub finished_in_turn : asked ≡ d.woken ++ d.queue
  pub started_in_turn : started d.sent ≡ d.woken ++ first d.queue

started-append :
    (s : List (ℕ × List Output)) (b : ℕ) (os : List Output)
    → started (s ++ (b, os) ∷ []) ≡ started s ++ b ∷ []
started-append [] b os = refl
started-append (x ∷ s) b os = ap (λ t. x.0 ∷ t) (started-append s b os)

-- What a start of a buffer at the head of the queue comes to
idestart-IsOrdered :
    (asked : List ℕ) (b : ℕ) (bs : List ℕ) (d d' : Disk)
    → d.queue ≡ b ∷ bs
    → asked ≡ d.woken ++ d.queue
    → started d.sent ≡ d.woken
    → idestart b d ≡ some d'
    → IsOrdered asked d'
unfolding idestart
idestart-IsOrdered asked b bs d d' q f s e = elim (Bool-cases (leb fs_size (d.bufs b).blockno)) [
  | inl l ↦ absurd (ground (arith, e, l))
  | inr l ↦
      let w : record d { sent = d.sent ++ (b, outputs (d.bufs b)) ∷ [] } ≡ d' =
        ground (arith, e, l) in
      subst (IsOrdered asked) w (record {
        finished_in_turn = f;
        started_in_turn =
            started-append d.sent b (outputs (d.bufs b)) ∙ ap₂ (λ x y. x ++ y) s (sym (ap first q));
      })
]

is_first-later :
    (b c : ℕ) (bs : List ℕ) → has b (c ∷ bs) ≡ false → is_first b ((c ∷ bs) ++ b ∷ []) ≡ false
is_first-later b c bs h = ground (arith, h)

enqueue-IsOrdered :
    (b : ℕ) (asked qs : List ℕ) (d d' : Disk)
    → d.queue ≡ qs
    → has b qs ≡ false
    → IsOrdered asked d
    → (if is_first b (qs ++ b ∷ [])
        then idestart b (record d { queue = qs ++ b ∷ [] })
        else some (record d { queue = qs ++ b ∷ [] }))
      ≡ some d'
    → IsOrdered (asked ++ b ∷ []) d'
enqueue-IsOrdered b asked [] d d' q n v e =
    let same : (b == b) ≡ true = ground arith in
    let e' =
      sym (
        ap
          (λ t.
            if t
            then idestart b (record d { queue = b ∷ [] })
            else some (record d { queue = b ∷ [] }))
          same)
      ∙ e in
    let a : asked ≡ d.woken = v.finished_in_turn ∙ ap (λ x. d.woken ++ x) q ∙ append-nil d.woken in
    idestart-IsOrdered (asked ++ b ∷ []) b [] (record d { queue = b ∷ [] }) d' refl
      (ap (λ x. x ++ b ∷ []) a)
      (v.started_in_turn ∙ ap (λ x. d.woken ++ first x) q ∙ append-nil d.woken) e'
enqueue-IsOrdered b asked (c ∷ bs) d d' q n v e =
    let later = is_first-later b c bs n in
    let g : Disk = record d { queue = (c ∷ bs) ++ b ∷ [] } in
    let e' = sym (ap (λ t. if t then idestart b g else some g) later) ∙ e in
    let w : g ≡ d' = ground (arith, e') in
    subst (IsOrdered (asked ++ b ∷ [])) w (record {
      finished_in_turn =
          ap (λ x. x ++ b ∷ []) (v.finished_in_turn ∙ ap (λ x. d.woken ++ x) q)
          ∙ append_assoc d.woken (c ∷ bs) (b ∷ []);
      started_in_turn = v.started_in_turn ∙ ap (λ x. d.woken ++ first x) q;
    })

iderw-IsOrdered :
    (held have_disk1 : Bool) (b : ℕ) (asked : List ℕ) (d d' : Disk)
    → has b d.queue ≡ false
    → IsOrdered asked d
    → iderw held have_disk1 b d ≡ some d'
    → IsOrdered (asked ++ b ∷ []) d'
unfolding iderw
iderw-IsOrdered held have_disk1 b asked d d' n v e =
    let go = λ (t : Bool). if t then none else enqueue b d in
    elim (Bool-cases (
      not held
      || (((d.bufs b).valid && not (d.bufs b).dirty)
          || (not ((d.bufs b).dev == 0) && not have_disk1)))) [
            | inl p ↦ absurd (ground (arith, sym (ap go p) ∙ e))
            | inr p ↦ enqueue-IsOrdered b asked d.queue d d' refl n v (sym (ap go p) ∙ e)
          ]

intr_at-IsOrdered :
    (input : Option (List ℕ)) (asked qs : List ℕ) (d d' : Disk)
    → d.queue ≡ qs
    → IsOrdered asked d
    → intr_at input qs d ≡ some d'
    → IsOrdered asked d'
intr_at-IsOrdered input asked [] d d' q v e =
    let w : d ≡ d' = ground (arith, e) in subst (IsOrdered asked) w v
intr_at-IsOrdered input asked (b ∷ []) d d' q v e =
    let w : record d {
      queue = [];
      bufs = update d.bufs b (finished input (d.bufs b));
      woken = d.woken ++ b ∷ [];
    }
        ≡ d' =
      ground (arith, e) in
    subst (IsOrdered asked) w (record {
      finished_in_turn =
          v.finished_in_turn ∙ ap (λ x. d.woken ++ x) q ∙ sym (append-nil (d.woken ++ b ∷ []));
      started_in_turn =
          v.started_in_turn ∙ ap (λ x. d.woken ++ first x) q ∙ sym (append-nil (d.woken ++ b ∷ []));
    })
intr_at-IsOrdered input asked (b ∷ c ∷ cs) d d' q v e =
    let g : Disk = record d {
      queue = c ∷ cs;
      bufs = update d.bufs b (finished input (d.bufs b));
      woken = d.woken ++ b ∷ [];
    } in
    idestart-IsOrdered asked c cs g d' refl
      (v.finished_in_turn ∙ ap (λ x. d.woken ++ x) q ∙ sym (append_assoc d.woken (b ∷ []) (c ∷ cs)))
      (v.started_in_turn ∙ ap (λ x. d.woken ++ first x) q) e

-- In each run of the driver from an idle disk, the buffers of the calls of `iderw` so far, in turn,
-- are those that were woken and then those in the queue; and the requests that were sent to the
-- controller, each once and in turn, are those that were woken and then the head of the queue, if
-- there is one.
pub Reach-IsOrdered : (asked : List ℕ) (d : Disk) → Reach asked d → IsOrdered asked d
unfolding ideintr
Reach-IsOrdered asked d (idle bufs) = record { finished_in_turn = refl; started_in_turn = refl }
Reach-IsOrdered asked d (changes b r n h) =
    let v = Reach-IsOrdered _ _ h in
    record { finished_in_turn = v.finished_in_turn; started_in_turn = v.started_in_turn }
Reach-IsOrdered asked d (asks held have_disk1 b n h e) =
    iderw-IsOrdered held have_disk1 b _ _ _ n (Reach-IsOrdered _ _ h) e
Reach-IsOrdered asked d (interrupt input h e) =
    intr_at-IsOrdered input _ _ _ _ refl (Reach-IsOrdered _ _ h) e

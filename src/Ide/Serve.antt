-- ===== src/Ide/Serve.antt =====
-- Interrupts end the wait of `iderw`.
use mathlib.Core.Path.{subst}
use basic_os.Prelude.{
  ℕ, zero, suc, ◌+◌, ◌<◌, ◌≡◌, refl, sym, ap, ◌∙◌, arith, true, false, not, ◌&&◌, ◌==◌, leb, List,
  [], ◌∷◌, ◌++◌, Option, none, some, length, get_elem?, update,
}
use basic_os.Ide.{
  fs_size, Request, Disk, outputs, idestart, start_first, finished, intr_at, ideintr, is_done,
}

-- The interrupts of the disk, with what is read in each
abbrev pub serve : List (Option (List ℕ)) → Disk → Option Disk
serve [] d = some d
serve (input ∷ inputs) d = elim (ideintr input d) [ none ↦ none | some d' ↦ serve inputs d' ]

-- The blocks of all requests are on the disk.
abbrev pub IsOnDisk : List ℕ → (ℕ → Request) → Type 0
IsOnDisk bs bufs = (k c : ℕ) → get_elem? bs k ≡ some c → (bufs c).blockno < fs_size

finished-valid :
    (input : Option (List ℕ)) (r : Request)
    → ((finished input r).valid && not (finished input r).dirty) ≡ true
finished-valid none r = refl
finished-valid (some block) r = refl

finished-blockno : (input : Option (List ℕ)) (r : Request) → (finished input r).blockno ≡ r.blockno
finished-blockno none r = refl
finished-blockno (some block) r = refl

abbrev Started : List ℕ → (ℕ → Request) → Option Disk → Type 0
Started bs bufs r = (d : Disk) × (r ≡ some d) × (d.queue ≡ bs) × (d.bufs ≡ bufs)

start_first-Started :
    (d : Disk) (bs : List ℕ)
    → d.queue ≡ bs
    → IsOnDisk bs d.bufs
    → Started bs d.bufs (start_first bs d)
unfolding idestart
start_first-Started d [] q h = (d, refl, q, refl)
start_first-Started d (c ∷ bs) q h =
    let l : leb fs_size (d.bufs c).blockno ≡ false = ground (arith, h 0 c refl) in
    (record d { sent = d.sent ++ (c, outputs (d.bufs c)) ∷ [] }, rw l refl, q, refl)

kept :
    (bufs : ℕ → Request) (input : Option (List ℕ)) (b c : ℕ)
    → (update bufs b (finished input (bufs b)) c).blockno ≡ (bufs c).blockno
kept bufs input b c = ground (arith, finished-blockno input (bufs b))

intr_at-Started :
    (input : Option (List ℕ)) (b : ℕ) (bs : List ℕ) (d : Disk)
    → IsOnDisk (b ∷ bs) d.bufs
    → Started bs (update d.bufs b (finished input (d.bufs b))) (intr_at input (b ∷ bs) d)
intr_at-Started input b bs d h =
    start_first-Started
      (record d {
        queue = bs;
        bufs = update d.bufs b (finished input (d.bufs b));
        woken = d.woken ++ b ∷ [];
      })
      bs refl (λ k c e. subst (λ n. n < fs_size) (sym (kept d.bufs input b c)) (h (suc k) c e))

serve-cons :
    (input : Option (List ℕ)) (inputs : List (Option (List ℕ))) (d d' : Disk)
    → ideintr input d ≡ some d'
    → serve (input ∷ inputs) d ≡ serve inputs d'
serve-cons input inputs d d' e = rw (serve, e) refl

ideintr_at :
    (input : Option (List ℕ)) (qs : List ℕ) (d : Disk)
    → d.queue ≡ qs
    → ideintr input d ≡ intr_at input qs d
unfolding ideintr
ideintr_at input qs d q = ap (λ x. intr_at input x d) q

done_here :
    (bufs : ℕ → Request) (input : Option (List ℕ)) (c b : ℕ)
    → c ≡ b
    → ((update bufs c (finished input (bufs c)) b).valid
        && not (update bufs c (finished input (bufs c)) b).dirty)
      ≡ true
done_here bufs input c b e =
    let q : (c == b) ≡ true = ground (arith, e) in rw q (finished-valid input (bufs c))

-- If the blocks of all requests in the queue are on the disk, then after as many interrupts as get to
-- the request at a place of the queue, whatever the controller answers, nothing has panicked, and the
-- buffer of that request is as the loop of `iderw` waits for it.
pub serve-is_done :
    (inputs : List (Option (List ℕ))) (k b : ℕ) (qs : List ℕ) (d : Disk)
    → d.queue ≡ qs
    → IsOnDisk qs d.bufs
    → get_elem? qs k ≡ some b
    → length inputs ≡ k + 1
    → (d' : Disk) × (serve inputs d ≡ some d') × (is_done b d' ≡ true)
serve-is_done [] k b qs d q h e l = absurd (omega (arith, l))
serve-is_done (input ∷ inputs) k b [] d q h e l = absurd (ground (arith, e))
serve-is_done (input ∷ []) zero b (c ∷ bs) d q h e l =
    let w = intr_at-Started input c bs d h in
    (
      w.0,
      serve-cons input [] d w.0 (ideintr_at input (c ∷ bs) d q ∙ w.1),
      ap (λ f. (f b).valid && not (f b).dirty) w.3 ∙ done_here d.bufs input c b (ground (arith, e)),
    )
serve-is_done (input ∷ y ∷ inputs) zero b (c ∷ bs) d q h e l = absurd (omega (arith, l))
serve-is_done (input ∷ inputs) (suc k) b (c ∷ bs) d q h e l =
    let w = intr_at-Started input c bs d h in
    let o : IsOnDisk bs w.0.bufs = λ j a f.
      subst (λ n. n < fs_size) (sym (ap (λ g. (g a).blockno) w.3 ∙ kept d.bufs input c a))
        (h (suc j) a f) in
    let r = serve-is_done inputs k b bs w.0 w.2 o e (omega (arith, l)) in
    (r.0, serve-cons input inputs d w.0 (ideintr_at input (c ∷ bs) d q ∙ w.1) ∙ r.1, r.2)

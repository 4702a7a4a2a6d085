-- ===== src/CString/Move.antt =====
-- `memmove` of string.c copies the region as it was, whether or not source and target overlap.
use basic_os.Prelude.{
  ℕ, zero, suc, ◌+◌, ◌-◌, ◌≡◌, arith, ◌&&◌, ltb, ◌<◌, ◌≤◌, ◌⊎◌, if◌then◌else◌, update, Bool-cases,
  inl, inr, ap, ◌∙◌,
}
use basic_os.CString.{Memory, move_down, move_up, memmove}
use basic_os.CString.Set.{in_range}

-- An element of the source, reached from the next one and from the end.
m-shift :
    (d s a : ℕ) (m : Memory)
    → (d < a → m (s + 1 + (a - (d + 1))) ≡ m (s + (a - d))) × (m s ≡ m (s + (d - d)))
m-shift d s a m = (λ h. ap m (omega arith), ap m (omega arith))

m-last : (d s n : ℕ) (m : Memory) → m (s + n) ≡ m (s + (d + n - d))
m-last d s n m = ap m (omega arith)

-- Upwards: the target does not begin inside the source.
move_up_lem :
    (n d s : ℕ) (m : Memory) (a : ℕ)
    → (d ≤ s) ⊎ (s + n ≤ d)
    → move_up n d s m a ≡ (if in_range d n a then m (s + (a - d)) else m a)
unfolding move_up
move_up_lem zero d s m a h = ground arith
move_up_lem (suc n) d s m a h =
    move_up_lem n (d + 1) (s + 1) (update m d (m s)) a (ground arith)
    ∙ ground (arith, m-shift d s a m)

-- Downwards: the source begins below the target.
move_down_lem :
    (n d s : ℕ) (m : Memory) (a : ℕ)
    → s < d
    → move_down n (d + n) (s + n) m a ≡ (if in_range d n a then m (s + (a - d)) else m a)
unfolding move_down
move_down_lem zero d s m a h = ground arith
move_down_lem (suc n) d s m a h =
    let e : d + suc n - 1 ≡ d + n = omega arith in
    let f : s + suc n - 1 ≡ s + n = omega arith in
    rw (e, f)
      (move_down_lem n d s (update m (d + n) (m (s + n))) a h ∙ ground (arith, m-last d s n m))

-- After `memmove` every byte of the target is the byte that the source held before the call, also
-- where the two regions overlap, and no byte outside the target is changed.
pub memmove_lem :
    (dst src n : ℕ) (m : Memory) (a : ℕ)
    → memmove dst src n m a ≡ (if in_range dst n a then m (src + (a - dst)) else m a)
unfolding memmove
memmove_lem dst src n m a = elim (Bool-cases (ltb src dst && ltb dst (src + n))) [
  | inl inside ↦ rw inside (move_down_lem n dst src m a (ground arith))
  | inr clear ↦ rw clear (move_up_lem n dst src m a (ground arith))
]

-- ===== src/CString/Set.antt =====
-- `memset` of string.c: the word-wise and the byte-wise path store the same.
use basic_os.Prelude.{
  Bool-cases, inl, inr, ◌∙◌, ◌/◌, ℕ, zero, suc, ◌+◌, ◌*◌, ◌%◌, ◌≡◌, refl, arith, Bool, true, ◌&&◌,
  ltb, leb, ◌<◌, ◌==◌, if◌then◌else◌, update, ==_iff,
}
use basic_os.Prelude.{for_all, for_all-lt}
use basic_os.CString.{memset, Memory, stosb, store_word, stosl, splat}

-- Address `a` lies in the `n` bytes from `s` on.
abbrev pub in_range : ℕ → ℕ → ℕ → Bool
in_range s n a = leb s a && ltb a (s + n)

splat_table : for_all (λ b. splat b == b * 16843009) 256 ≡ true
unfolding splat for_all
splat_table = refl

splat-mul : (b : ℕ) → b < 256 → splat b ≡ b * 16843009
splat-mul b h = (==_iff _ _).0 (for_all-lt _ 256 h splat_table)

stosb_lem :
    (n s c : ℕ) (m : Memory) (a : ℕ) → stosb n s c m a ≡ (if in_range s n a then c % 256 else m a)
unfolding stosb
stosb_lem zero s c m a = ground arith
stosb_lem (suc n) s c m a = ground (arith, stosb_lem n (s + 1) c (update m s (c % 256)) a)

store_word-splat :
    (s b : ℕ) (m : Memory) (a : ℕ)
    → b < 256
    → store_word s (splat b) m a ≡ (if in_range s 4 a then b else m a)
unfolding store_word
store_word-splat s b m a h = ground (arith, splat-mul b h)

stosl-splat :
    (n s b : ℕ) (m : Memory) (a : ℕ)
    → b < 256
    → stosl n s (splat b) m a ≡ (if in_range s (4 * n) a then b else m a)
unfolding stosl
stosl-splat zero s b m a h = ground arith
stosl-splat (suc n) s b m a h =
    ground (arith, stosl-splat n (s + 4) b (store_word s (splat b) m) a, store_word-splat s b m a)

-- After `memset` every byte of the region is the low byte of `c`, on the word-wise path as on the
-- other, and no byte outside the region is changed.
pub memset_lem :
    (s c n : ℕ) (m : Memory) (a : ℕ) → memset s c n m a ≡ (if in_range s n a then c % 256 else m a)
unfolding memset
memset_lem s c n m a = elim (Bool-cases ((s % 4 == 0) && (n % 4 == 0))) [
  | inl words ↦ rw words (stosl-splat (n / 4) s (c % 256) m a (omega arith) ∙ ground arith)
  | inr bytes ↦ rw bytes (stosb_lem n s c m a)
]

-- ===== src/CString/Copy.antt =====
-- `strncpy` and `safestrcpy` of string.c: what they store, where they stop, and what they spare.
use basic_os.Prelude.{
  ℕ, zero, suc, ◌+◌, ◌-◌, ◌≡◌, ◌≢◌, ◌⊎◌, refl, sym, arith, false, ltb, ◌==◌, ◌<◌, ◌≤◌,
  if◌then◌else◌, Bool-cases, inl, inr, ap, ◌∙◌, update,
}
use basic_os.CString.{Memory, safe_loop, safestrcpy, strncpy, zero_fill}
use basic_os.CString.Set.{in_range}

-- The `n` bytes read from `t` on and the bytes `s` to `s + n` lie apart.
abbrev pub AreApart : ℕ → ℕ → ℕ → Type 0
AreApart s t n = (t + n ≤ s) ⊎ (s + n < t)

safe_loop-spared :
    (n s t : ℕ) (m : Memory) (a : ℕ) → in_range s (n + 1) a ≡ false → safe_loop n s t m a ≡ m a
unfolding safe_loop
safe_loop-spared zero s t m a h = ground arith
safe_loop-spared (suc n) s t m a h =
    ground (arith, safe_loop-spared n (s + 1) (t + 1) (update m s (m t)) a)

-- The string at `s` is the one at `t`, cut off before index `n`, and `k` is its length.
pub record IsCut (m m' : Memory) (s t n k : ℕ) : Type 0 where
  pub within : k ≤ n
  pub ended : m' (s + k) ≡ 0
  pub copied : (j : ℕ) → j < k → m' (s + j) ≡ m (t + j)
  pub nonzero : (j : ℕ) → j < k → m (t + j) ≢ 0
  pub reason : (k ≡ n) ⊎ (m (t + k) ≡ 0)

IsCut-suc :
    (m m' : Memory) (s t n k : ℕ)
    → m t ≢ 0
    → m' s ≡ m t
    → ((j : ℕ) → j < n → update m s (m t) (t + 1 + j) ≡ m (t + 1 + j))
    → (k < n → update m s (m t) (t + 1 + k) ≡ m (t + 1 + k))
    → IsCut (update m s (m t)) m' (s + 1) (t + 1) n k
    → IsCut m m' s t (suc n) (suc k)
IsCut-suc m m' s t n k first at_s same same_k c = record {
  within = omega (arith, c.within);
  ended = ap m' (omega arith) ∙ c.ended;
  copied = copied;
  nonzero = nonzero;
  reason = elim (Bool-cases (ltb k n)) [
    | inl more ↦ elim c.reason [
      | inl e ↦ inl (omega (arith, e))
      | inr z ↦ inr (ap m (omega arith) ∙ sym (same_k (ground arith)) ∙ z)
    ]
    | inr last ↦ inl (ground (arith, c.within))
  ];
}
  where
    copied : (j : ℕ) → j < suc k → m' (s + j) ≡ m (t + j)
    copied zero h = ap m' (omega arith) ∙ at_s ∙ ap m (omega arith)
    copied (suc j) h =
        ap m' (omega arith)
        ∙ c.copied j (omega arith)
        ∙ same j (omega (arith, c.within))
        ∙ ap m (omega arith)

    nonzero : (j : ℕ) → j < suc k → m (t + j) ≢ 0
    nonzero zero h z = first (ap m (omega arith) ∙ z)
    nonzero (suc j) h z =
        c.nonzero j (omega arith) (same j (omega (arith, c.within)) ∙ ap m (omega arith) ∙ z)

update_ne : (a b v : ℕ) (f : Memory) → a ≢ b → f b ≡ update f a v b
update_ne a b v f h = ground arith

safe_loop-IsCut :
    (n s t : ℕ) (m : Memory) → AreApart s t n → (k : ℕ) × IsCut m (safe_loop n s t m) s t n k
unfolding safe_loop
safe_loop-IsCut zero s t m apart = (
  0,
  record {
    within = omega arith;
    ended = ground arith;
    copied = λ j h. absurd (omega arith);
    nonzero = λ j h. absurd (omega arith);
    reason = inl refl;
  },
)
safe_loop-IsCut (suc n) s t m apart = elim (Bool-cases (m t == 0)) [
  | inl end ↦ (
    0,
    record {
      within = omega arith;
      ended = ground arith;
      copied = λ j h. absurd (omega arith);
      nonzero = λ j h. absurd (omega arith);
      reason = inr (let z : m t ≡ 0 = ground arith in ap m (omega arith) ∙ z);
    },
  )
  | inr more ↦
      let (k, c) = safe_loop-IsCut n (s + 1) (t + 1) (update m s (m t)) (ground arith) in
      (
        suc k,
        rw (update_self s (m t) m, more)
            (IsCut-suc m _ s t n k (ground arith)
              (safe_loop-spared n (s + 1) (t + 1) (update m s (m t)) s (ground arith)
                ∙ update_self s (m t) m)
              (λ j h. ground arith) (λ h. ground arith) c),
      )
]
  where
    update_self : (a v : ℕ) (f : Memory) → update f a v a ≡ v
    update_self a v f = ground arith

-- `safestrcpy` with a positive count `n + 1` from a region apart from the target: the target holds a
-- string that ends within its `n + 1` bytes, the one at `t`, cut off after `n` characters if it is
-- longer; nothing outside the target is changed.
pub safestrcpy_lem :
    (n s t : ℕ) (m : Memory)
    → AreApart s t n
    → ((k : ℕ) × IsCut m (safestrcpy s t (suc n) m) s t n k)
      × ((a : ℕ) → in_range s (suc n) a ≡ false → safestrcpy s t (suc n) m a ≡ m a)
unfolding safestrcpy
safestrcpy_lem n s t m apart =
    (safe_loop-IsCut n s t m apart, λ a h. safe_loop-spared n s t m a (ground arith))

zero_fill_lem :
    (n s : ℕ) (m : Memory) (a : ℕ) → zero_fill n s m a ≡ (if in_range s n a then 0 else m a)
unfolding zero_fill
zero_fill_lem zero s m a = ground arith
zero_fill_lem (suc n) s m a = ground (arith, zero_fill_lem n (s + 1) (update m s 0) a)

-- A character of the source, reached from the next one.
m-shift :
    (s t a : ℕ) (m : Memory)
    → (s < a → m (t + 1 + (a - (s + 1))) ≡ m (t + (a - s))) × (m t ≡ m (t + (s - s)))
m-shift s t a m = (λ h. ap m (omega arith), ap m (omega arith))

-- `strncpy` of a string that has `k` characters among its first `n`, from a region apart from the
-- target: the characters are copied, the rest of the `n` bytes is filled with NULs, and no other byte is
-- changed.
pub strncpy_lem :
    (n s t k : ℕ) (m : Memory) (a : ℕ)
    → (t + n ≤ s) ⊎ (s + n ≤ t)
    → k ≤ n
    → ((j : ℕ) → j < k → m (t + j) ≢ 0)
    → (k < n → m (t + k) ≡ 0)
    → strncpy s t n m a
      ≡ (if in_range s k a then m (t + (a - s)) else if in_range s n a then 0 else m a)
unfolding strncpy
strncpy_lem zero s t k m a apart le before end = ground arith
strncpy_lem (suc n) s t zero m a apart le before end =
    let e : m t ≡ 0 = ap m (omega arith) ∙ end (omega arith) in
    ground (arith, e, zero_fill_lem n (s + 1) (update m s (m t)) a)
strncpy_lem (suc n) s t (suc k) m a apart le before end =
    let first : m t ≢ 0 = λ z. before 0 (omega arith) (ap m (omega arith) ∙ z) in
    let ih =
      strncpy_lem n (s + 1) (t + 1) k (update m s (m t)) a (ground arith) (omega arith)
        (λ j h z.
          before (suc j) (omega arith)
            (ap m (omega arith) ∙ update_ne s (t + 1 + j) (m t) m (omega arith) ∙ z))
        (λ h.
          sym (update_ne s (t + 1 + k) (m t) m (omega arith))
          ∙ ap m (omega arith)
          ∙ end (omega arith)) in
    ground (arith, first, ih, m-shift s t a m)

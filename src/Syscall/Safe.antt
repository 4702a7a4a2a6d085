-- ===== src/Syscall/Safe.antt =====
-- The arguments that syscall.c accepts lie in the memory of the process.
use basic_os.Prelude.{
  ℕ, zero, suc, ◌+◌, ◌-◌, ◌*◌, ◌%◌, ◌^◌, ◌≤◌, ◌<◌, ◌≡◌, ◌≢◌, ◌⊎◌, ◌↔◌, inl, inr, refl, ap, ◌∙◌,
  arith, none, some, ◌==◌, leb, Bool-cases, Option-cases,
}
use basic_os.Syscall.{fetchint, scan_str, fetchstr, argint, checked_ptr, argptr}

-- A process ends below the kernel, at 2 ^ 31.
module _ (sz : ℕ) (user : sz ≤ 2 ^ 31) (word byte : ℕ → ℕ) where
  -- `fetchint` returns the word at an address exactly if all its four bytes are in the process.
  pub fetchint_iff :
      (addr v : ℕ)
      → addr < 2 ^ 32
      → (fetchint sz word addr ≡ some v) ↔ ((addr + 4 ≤ sz) × (v ≡ word addr))
  unfolding fetchint
  fetchint_iff addr v h = ground arith

  -- In a process of at most 2 ^ 31 bytes whose memory holds 32-bit words, if `argptr` returns a pointer to
  -- `size` bytes, then the bytes are all in the process, without a wrap of the pointer and the size in
  -- sum. The pointer is the word at the address of the argument on the user's stack, which is taken
  -- modulo 2 ^ 32, and that word is in the process too.
  pub argptr_lem :
      (esp n size : ℕ) {p : ℕ}
      → ((addr : ℕ) → word addr < 2 ^ 32)
      → argptr sz word esp n size ≡ some p
      → (p + size ≤ sz)
        × (p < sz)
        × ((esp + 4 + 4 * n) % 2 ^ 32 + 4 ≤ sz)
        × (p ≡ word ((esp + 4 + 4 * n) % 2 ^ 32))
  unfolding argptr argint
  argptr_lem esp n size {p} words h =
      let at = (esp + 4 + 4 * n) % 2 ^ 32 in
      elim (Option-cases (fetchint sz word at)) [
        | inl missing ↦ absurd (ground (arith, missing, h))
        | inr (v, found) ↦
            let (inside, is_word) = (fetchint_iff at v (omega arith)).0 found in
            let checked : checked_ptr sz size v ≡ some p = ground (arith, found, h) in
            ground (arith, words at)
      ]

  scan_str_lem :
      (addr len left : ℕ)
      → ((j : ℕ) → j < len → byte (addr + j) ≢ 0)
      → ((scan_str sz byte addr len left ≡ none) × ((j : ℕ) → j < len + left → byte (addr + j) ≢ 0))
        ⊎ ((k : ℕ) × (scan_str sz byte addr len left ≡ some k)
            × (k < len + left)
            × (byte (addr + k) ≡ 0)
            × ((j : ℕ) → j < k → byte (addr + j) ≢ 0))
  scan_str_lem addr len zero before = inl (refl, λ j lt. before j (omega arith))
  scan_str_lem addr len (suc left) before = elim (Bool-cases (byte (addr + len) == 0)) [
    | inl end ↦ inr (len, rw end refl, omega arith, ground (arith, end), before)
    | inr char ↦ rw char (elim (scan_str_lem addr (len + 1) left (longer (ground (arith, char)))) [
      | inl (e, all) ↦ inl (e, λ j lt. all j (omega arith))
      | inr (k, e, lt, z, all) ↦ inr (k, e, omega arith, z, all)
    ])
  ]
    where
      longer : byte (addr + len) ≢ 0 → (j : ℕ) → j < len + 1 → byte (addr + j) ≢ 0
      longer ne j lt e = elim (Bool-cases (j == len)) [
        | inl same ↦ ne (ap (λ k. byte (addr + k)) (ground (arith, same)) ∙ e)
        | inr other ↦ before j (ground (arith, other)) e
      ]

  -- `fetchstr` returns the length of the string at an address if the string, with the NUL that ends it,
  -- is in the process, and fails exactly if there is no NUL from there to the end of the process.
  pub fetchstr_lem :
      (addr : ℕ)
      → ((fetchstr sz byte addr ≡ none) × ((j : ℕ) → addr + j < sz → byte (addr + j) ≢ 0))
        ⊎ ((k : ℕ) × (fetchstr sz byte addr ≡ some k)
            × (addr + k < sz)
            × (byte (addr + k) ≡ 0)
            × ((j : ℕ) → j < k → byte (addr + j) ≢ 0))
  unfolding fetchstr
  fetchstr_lem addr = elim (Bool-cases (leb sz addr)) [
    | inl outside ↦ inl (rw outside refl, λ j lt. absurd (ground (arith, outside, lt)))
    | inr inside ↦
        rw inside (elim (scan_str_lem addr 0 (sz - addr) (λ j lt. absurd (omega arith))) [
          | inl (e, all) ↦ inl (e, λ j lt. all j (omega arith))
          | inr (k, e, lt, z, all) ↦ inr (k, e, omega arith, z, all)
        ])
  ]

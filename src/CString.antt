-- ===== src/CString.antt =====
-- xv6-public/string.c over a memory of bytes.
-- An address is a number and the regions that a call is given do not wrap round the address space.
-- A result of type `int` is its bit pattern below 2 ^ 32.
pub mod Set
pub mod Move
pub mod Compare
pub mod Copy
use Prim.Native.Nat.{bit_or}
use basic_os.Prelude.{
  ℕ, zero, suc, ◌+◌, ◌-◌, ◌*◌, ◌/◌, ◌%◌, ◌^◌, Bool, true, false, ◌&&◌, not, Option, none, some, ltb,
  leb, ◌==◌, if◌then◌else◌, update,
}

abbrev pub Memory : Type 0
Memory = ℕ → ℕ

-- The store instruction of x86.h's `stosb`: `n` copies of a byte.
pub stosb : ℕ → ℕ → ℕ → Memory → Memory
stosb zero dst c m = m
stosb (suc n) dst c m = stosb n (dst + 1) c (update m dst (c % 256))

-- A 32-bit store, least byte first.
unfoldable pub store_word : ℕ → ℕ → Memory → Memory
store_word dst w m =
    update
      (update (update (update m dst (w % 256)) (dst + 1) (w / 2 ^ 8 % 256)) (dst + 2)
        (w / 2 ^ 16 % 256))
      (dst + 3) (w / 2 ^ 24 % 256)

-- The same for words: `stosl`.
pub stosl : ℕ → ℕ → ℕ → Memory → Memory
stosl zero dst w m = m
stosl (suc n) dst w m = stosl n (dst + 4) w (store_word dst w m)

-- `(c<<24)|(c<<16)|(c<<8)|c` for a byte `c`
pub splat : ℕ → ℕ
splat c = bit_or (bit_or (bit_or (c * 2 ^ 24) (c * 2 ^ 16)) (c * 2 ^ 8)) c

pub memset : ℕ → ℕ → ℕ → Memory → Memory
memset dst c n m =
    if (dst % 4 == 0) && (n % 4 == 0)
    then stosl (n / 4) dst (splat (c % 2 ^ 8)) m
    else stosb n dst c m

-- `*s1 - *s2` as an `int`
abbrev pub sub_int : ℕ → ℕ → ℕ
sub_int a b = (a + 2 ^ 32 - b) % 2 ^ 32

pub memcmp : Memory → ℕ → ℕ → ℕ → ℕ
memcmp m s1 s2 zero = 0
memcmp m s1 s2 (suc n) =
    if not (m s1 == m s2) then sub_int (m s1) (m s2) else memcmp m (s1 + 1) (s2 + 1) n

-- The two loops of `memmove`: downwards from the ends, and upwards.
pub move_down : ℕ → ℕ → ℕ → Memory → Memory
move_down zero d s m = m
move_down (suc n) d s m = move_down n (d - 1) (s - 1) (update m (d - 1) (m (s - 1)))

pub move_up : ℕ → ℕ → ℕ → Memory → Memory
move_up zero d s m = m
move_up (suc n) d s m = move_up n (d + 1) (s + 1) (update m d (m s))

pub memmove : ℕ → ℕ → ℕ → Memory → Memory
memmove dst src n m =
    if ltb src dst && ltb dst (src + n)
    then move_down n (dst + n) (src + n) m
    else move_up n dst src m

pub memcpy : ℕ → ℕ → ℕ → Memory → Memory
memcpy dst src n m = memmove dst src n m

pub strncmp : Memory → ℕ → ℕ → ℕ → ℕ
strncmp m p q zero = 0
strncmp m p q (suc n) =
    if not (m p == 0) && (m p == m q) then strncmp m (p + 1) (q + 1) n else sub_int (m p) (m q)

-- The second loop of `strncpy`.
pub zero_fill : ℕ → ℕ → Memory → Memory
zero_fill zero s m = m
zero_fill (suc n) s m = zero_fill n (s + 1) (update m s 0)

-- The first loop, which hands the second the rounds that are left. `n` is not negative; a
-- negative one makes no round, like 0.
pub strncpy : ℕ → ℕ → ℕ → Memory → Memory
strncpy s t zero m = m
strncpy s t (suc n) m =
    let m' = update m s (m t) in
    let rest = strncpy (s + 1) (t + 1) n m' in if m' s == 0 then zero_fill n (s + 1) m' else rest

-- The loop of `safestrcpy` with `n - 1` rounds left, and the NUL behind it.
pub safe_loop : ℕ → ℕ → ℕ → Memory → Memory
safe_loop zero s t m = update m s 0
safe_loop (suc n) s t m =
    let m' = update m s (m t) in
    let rest = safe_loop n (s + 1) (t + 1) m' in if m' s == 0 then update m' (s + 1) 0 else rest

pub safestrcpy : ℕ → ℕ → ℕ → Memory → Memory
safestrcpy s t zero m = m
safestrcpy s t (suc n) m = safe_loop n s t m

-- The loop of `strlen` from index `n`; `none` when the fuel is used up.
pub strlen_from : ℕ → Memory → ℕ → ℕ → Option ℕ
strlen_from zero m s n = none
strlen_from (suc fuel) m s n =
    let rest = strlen_from fuel m s (n + 1) in if m (s + n) == 0 then some n else rest

pub strlen : ℕ → Memory → ℕ → Option ℕ
strlen fuel m s = strlen_from fuel m s 0

-- ===== src/Strings.antt =====
-- kernel/string.c: `memset`, `memmove`, `strncpy`, `safestrcpy` and `strlen` over the bytes of memory.
--
-- An address is a number, and an object does not reach round the end of the address space. A byte
-- is the number below 256 that it holds.
pub mod Move
pub mod Copy
mod Tests
use tdt4186_lab.Base.{
  ℕ, zero, suc, ◌+◌, ◌-◌, ◌%◌, Bool, true, false, ◌&&◌, ◌==◌, ltb, leb, if◌then◌else◌, update,
}

abbrev pub Bytes : Type 0
Bytes = ℕ → ℕ

-- The loop of `memset` over `left` more bytes.
pub memset : (dst c left : ℕ) → Bytes → Bytes
memset dst c zero m = m
memset dst c (suc left) m = memset (dst + 1) c left (update m dst (c % 256))

-- `while(n-- > 0) *--d = *--s`
pub copy_down : (n s d : ℕ) → Bytes → Bytes
copy_down zero s d m = m
copy_down (suc n) s d m = copy_down n (s - 1) (d - 1) (update m (d - 1) (m (s - 1)))

-- `while(n-- > 0) *d++ = *s++`
pub copy_up : (n s d : ℕ) → Bytes → Bytes
copy_up zero s d m = m
copy_up (suc n) s d m = copy_up n (s + 1) (d + 1) (update m d (m s))

unfoldable pub memmove : (dst src n : ℕ) → Bytes → Bytes
unfolding copy_down copy_up
memmove dst src n m =
    if n == 0
    then m
    else if ltb src dst && ltb dst (src + n)
    then copy_down n (src + n) (dst + n) m
    else copy_up n src dst m

-- The second loop of `strncpy`.
pub fill_zero : (n s : ℕ) → Bytes → Bytes
fill_zero zero s m = m
fill_zero (suc n) s m = fill_zero n (s + 1) (update m s 0)

-- `strncpy(s, t, n)`: each round copies a byte, and a NUL ends the first loop.
pub strncpy : (n s t : ℕ) → Bytes → Bytes
unfolding fill_zero
strncpy zero s t m = m
strncpy (suc n) s t m =
    let copied = update m s (m t) in
    elim (m t) [ zero ↦ fill_zero n (s + 1) copied | suc c ↦ strncpy n (s + 1) (t + 1) copied ]

-- The loop of `safestrcpy` with at most `n` bytes to copy, and the store of the NUL behind it.
pub copy_then_nul : (n s t : ℕ) → Bytes → Bytes
copy_then_nul zero s t m = update m s 0
copy_then_nul (suc n) s t m =
    let copied = update m s (m t) in
    elim (m t) [ zero ↦ update copied (s + 1) 0 | suc c ↦ copy_then_nul n (s + 1) (t + 1) copied ]

pub safestrcpy : (n s t : ℕ) → Bytes → Bytes
unfolding copy_then_nul
safestrcpy zero s t m = m
safestrcpy (suc n) s t m = copy_then_nul n s t m

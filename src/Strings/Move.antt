-- ===== src/Strings/Move.antt =====
-- kernel/string.c: `memmove` on overlapping objects.
use tdt4186_lab.Base.{
  ℕ, zero, suc, ◌+◌, ◌-◌, ◌≤◌, ◌≡◌, ◌⊎◌, ◌∙◌, ◌&&◌, ltb, leb, if◌then◌else◌, update, arith,
}
use tdt4186_lab.Strings.{Bytes, memmove, copy_up, copy_down}

-- The bytes at `src` of the memory before, at the `n` addresses from `dst` on.
abbrev pub moved : (dst src n : ℕ) → Bytes → Bytes
moved dst src n m a = if leb dst a && ltb a (dst + n) then m (src + (a - dst)) else m a

copy_up-moved :
    (n s d : ℕ) (m : Bytes) (a : ℕ) → (d ≤ s) ⊎ (s + n ≤ d) → copy_up n s d m a ≡ moved d s n m a
unfolding copy_up
copy_up-moved zero s d m a apart = ground arith
copy_up-moved (suc n) s d m a apart =
    let rest = copy_up-moved n (s + 1) (d + 1) (update m d (m s)) a (ground arith) in
    rest ∙ grind arith

copy_down-moved :
    (n s d : ℕ) (m : Bytes) (a : ℕ) → s ≤ d → copy_down n (s + n) (d + n) m a ≡ moved d s n m a
unfolding copy_down
copy_down-moved zero s d m a below = ground arith
copy_down-moved (suc n) s d m a below =
    let rest = copy_down-moved n s d (update m (d + n) (m (s + n))) a below in
    let s_last : s + suc n - 1 ≡ s + n = omega arith in
    let d_last : d + suc n - 1 ≡ d + n = omega arith in rw (s_last, d_last) (rest ∙ grind arith)

-- After `memmove(dst, src, n)` the `n` bytes from `dst` on are those that were at `src` before, and
-- no other byte has changed, however the two objects overlap.
pub memmove_lem : (dst src n : ℕ) (m : Bytes) (a : ℕ) → memmove dst src n m a ≡ moved dst src n m a
unfolding memmove
memmove_lem dst src n m a =
    ground (arith, copy_up-moved n src dst m a, copy_down-moved n src dst m a)

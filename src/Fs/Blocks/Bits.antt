-- ===== src/Fs/Blocks/Bits.antt =====
-- Bits of a number, set and cleared one at a time.
use tdt4186_lab.Base.{
  ℕ, zero, suc, ◌+◌, ◌-◌, ◌*◌, ◌/◌, ◌%◌, ◌≤◌, ◌<◌, ◌≡◌, ◌∙◌, ◌==◌, if◌then◌else◌, arith, ◌≢◌,
}
use tdt4186_lab.Fs.Blocks.{bit, pow2}

pub bit_set : (k j x : ℕ) → bit k x ≡ 0 → bit j (x + pow2 k) ≡ (if j == k then 1 else bit j x)
unfolding bit pow2
bit_set zero zero x h = ground (arith, h)
bit_set zero (suc j) x h =
    let same : (x + 1) / 2 ≡ x / 2 = omega (arith, h) in rw same (ground arith)
bit_set (suc k) zero x h =
    let same : (x + 2 * pow2 k) % 2 ≡ x % 2 = omega arith in rw same (ground arith)
bit_set (suc k) (suc j) x h =
    let same : (x + 2 * pow2 k) / 2 ≡ x / 2 + pow2 k = omega arith in
    rw same (bit_set k j (x / 2) h ∙ ground arith)

pub pow2-le : (k x : ℕ) → bit k x ≢ 0 → pow2 k ≤ x
unfolding bit pow2
pow2-le zero x h = omega (arith, h)
pow2-le (suc k) x h = omega (arith, pow2-le k (x / 2) h)

pub bit_clear : (k j x : ℕ) → bit k x ≢ 0 → bit j (x - pow2 k) ≡ (if j == k then 0 else bit j x)
unfolding bit pow2
bit_clear zero zero x h = ground (arith, h)
bit_clear zero (suc j) x h =
    let same : (x - 1) / 2 ≡ x / 2 = omega (arith, h) in rw same (ground arith)
bit_clear (suc k) zero x h =
    let le = pow2-le k (x / 2) h in
    let same : (x - 2 * pow2 k) % 2 ≡ x % 2 = omega arith in rw same (ground arith)
bit_clear (suc k) (suc j) x h =
    let le = pow2-le k (x / 2) h in
    let same : (x - 2 * pow2 k) / 2 ≡ x / 2 - pow2 k = omega arith in
    rw same (bit_clear k j (x / 2) h ∙ ground arith)

pub bit_small : (k x : ℕ) → bit k x < 2
unfolding bit
bit_small zero x = omega arith
bit_small (suc k) x = bit_small k (x / 2)

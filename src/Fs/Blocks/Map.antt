-- ===== src/Fs/Blocks/Map.antt =====
-- kernel/fs.c: what `balloc` and `bfree` do to the free map and to the blocks.
use tdt4186_lab.Base.{
  ℕ, ◌+◌, ◌-◌, ◌/◌, ◌%◌, ◌<◌, ◌≡◌, ◌≢◌, ◌⊎◌, refl, sym, subst, ap, ◌∙◌, false, ◌==◌, if◌then◌else◌,
  List, [], ◌∷◌, ◌++◌, has, Result, ok, panic, arith, Bool-cases, inl, inr,
}
use tdt4186_lab.Fs.Blocks.{
  Superblock, Blocks, bits_per_block, store, log_write, bit, pow2, bzero, bitmap_block, take_block,
  balloc_from, balloc, bfree,
}
use tdt4186_lab.Fs.Blocks.Bits.{bit_set, bit_clear}
use tdt4186_lab.Fs.Blocks.Alloc.{map_bit, InUse, MapInUse, Full, balloc_from-ends}

module _ (sb : Superblock) where
  -- Block `b` changes hands in the free map, and no block but the `others` is written.
  pub record Changed (s t : Blocks) (b value : ℕ) (others : List ℕ) : Type 0 where
    pub map : (a : ℕ) → a < sb.size → map_bit sb t a ≡ (if a == b then value else map_bit sb s a)
    pub frame : (c : ℕ) → has c others ≡ false → t.content c ≡ s.content c
    pub logs : t.logged ≡ others ++ s.logged

  -- A new value of the byte that has the bit of block `b`.
  map_bit-store :
      (s : Blocks) (b value v a : ℕ)
      → ((j : ℕ)
          → bit j v ≡ (
              if j == b % bits_per_block % 8
              then value
              else bit j (s.content (bitmap_block sb b) (b % bits_per_block / 8))))
      → map_bit sb (store (bitmap_block sb b) (b % bits_per_block / 8) v s) a
        ≡ (if a == b then value else map_bit sb s a)
  map_bit-store s b value v a bits =
      let bit_a = bits (a % bits_per_block % 8) in ground (arith, bit_a)

  -- A free block, taken: it was the first free one, and is zero now.
  pub record Given (s : Blocks) (r : ℕ × Blocks) : Type 0 where
    pub below : r.0 < sb.size
    pub free : map_bit sb s r.0 ≡ 0
    pub first : (a : ℕ) → a < r.0 → InUse sb s a
    pub changed : Changed s r.1 r.0 1 (r.0 ∷ bitmap_block sb r.0 ∷ [])
    pub zeroed : (i : ℕ) → r.1.content r.0 i ≡ 0

  take_block-Given :
      (s : Blocks) (b : ℕ)
      → MapInUse sb s
      → b < sb.size
      → map_bit sb s b ≡ 0
      → ((a : ℕ) → a < b → InUse sb s a)
      → Given s (b, take_block sb (b - b % bits_per_block) (b % bits_per_block) s)
  unfolding take_block bzero
  take_block-Given s b map_used below free first =
      let whole : b - b % bits_per_block + b % bits_per_block ≡ b = omega arith in
      let index : (b - b % bits_per_block) / bits_per_block ≡ b / bits_per_block = omega arith in
      let bp = bitmap_block sb b in
      let k = b % bits_per_block % 8 in
      let v = s.content bp (b % bits_per_block / 8) + pow2 k in
      let apart : (a : ℕ) → a < sb.size → bitmap_block sb a ≢ b =
        λ a h e. map_used a h (ap (map_bit sb s) e ∙ free) in
      rw (index, whole)
        record {
          below = below;
          free = free;
          first = first;
          changed = record {
            map = λ a h.
                let kept = apart a h in
                ground (
                  arith,
                  map_bit-store s b 1 v a
                      (λ j. bit_set k j (s.content bp (b % bits_per_block / 8)) free),
                );
            frame = λ c h. ground arith;
            logs = refl;
          };
          zeroed = λ i. ground arith;
        }

  -- On a disk whose free map is itself in use, `balloc` either returns the first free block, which it
  -- marks as in use and fills with zeros, changing the free map for no other block, writing no other
  -- block than these two, and logging both; or all blocks are in use, and it returns 0 and changes
  -- nothing.
  pub balloc_ends : (s : Blocks) → MapInUse sb s → Given s (balloc sb s) ⊎ Full sb s (balloc sb s)
  unfolding balloc
  balloc_ends s map_used =
      elim (balloc_from-ends sb (sb.size / bits_per_block + 1) 0 s refl (omega arith)
        λ a h. absurd (omega (arith, h))) [
          | inr full ↦ inr full
          | inl t ↦
              let b = (balloc_from sb (sb.size / bits_per_block + 1) 0 s).0 in
              let g = take_block-Given s b map_used t.below t.free t.first in
              inl (subst (Given s) (ap (λ u. (b, u)) (sym t.after)) g)
        ]

  pub record Freed (s : Blocks) (b : ℕ) (result : Result Blocks) : Type 0 where
    pub after : Blocks
    pub returns : result ≡ ok after
    pub changed : Changed s after b 0 (bitmap_block sb b ∷ [])

  -- `bfree` of a block that is in use marks it as free, changes the free map for no other block, and
  -- writes no block but that of the free map, which it logs; of a free block, it panics.
  pub bfree_ends :
      (s : Blocks) (b : ℕ)
      → (InUse sb s b × Freed s b (bfree sb b s))
        ⊎ ((map_bit sb s b ≡ 0) × (bfree sb b s ≡ panic "freeing free block"))
  unfolding bfree
  bfree_ends s b = elim (Bool-cases (map_bit sb s b == 0)) [
    | inl e ↦ inr (ground arith, rw (e, bfree) refl)
    | inr e ↦
        let busy : InUse sb s b = ground arith in
        let bp = bitmap_block sb b in
        let k = b % bits_per_block % 8 in
        let byte = s.content bp (b % bits_per_block / 8) in
        inl (
          busy,
          record {
            after = log_write bp (store bp (b % bits_per_block / 8) (byte - pow2 k) s);
            returns = rw (e, bfree) refl;
            changed = record {
              map = λ a h. map_bit-store s b 0 (byte - pow2 k) a λ j. bit_clear k j byte busy;
              frame = λ c h. ground arith;
              logs = refl;
            };
          },
        )
  ]

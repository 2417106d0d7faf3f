-- ===== src/Fs/Blocks/Alloc.antt =====
-- kernel/fs.c: which block `balloc` hands out, and what it and `bfree` do to the free map.
use tdt4186_lab.Base.{
  ℕ, zero, suc, ◌+◌, ◌-◌, ◌*◌, ◌/◌, ◌%◌, ◌≤◌, ◌<◌, ◌≡◌, ◌≢◌, ◌⊎◌, refl, sym, subst, ap, ◌∙◌, ◌==◌,
  ltb, Option, none, some, arith, Bool-cases, Option-cases, inl, inr,
}
use tdt4186_lab.Fs.Blocks.{
  Superblock, Blocks, bits_per_block, bit, bitmap_block, scan, take_block, balloc_from,
}

from_first : (P : ℕ → Type 0) (i : ℕ) → P i → ((j : ℕ) → i + 1 ≤ j → P j) → (j : ℕ) → i ≤ j → P j
from_first P i first rest j l = elim (Bool-cases (j == i)) [
  | inl e ↦ let same : j ≡ i = ground arith in rw same first
  | inr e ↦ rest j (ground arith)
]

module _ (sb : Superblock) where
  -- The bit of block `b` in the free map.
  abbrev pub map_bit : Blocks → ℕ → ℕ
  map_bit s b =
      bit (b % bits_per_block % 8) (s.content (bitmap_block sb b) (b % bits_per_block / 8))

  abbrev pub InUse : Blocks → ℕ → Type 0
  InUse s b = map_bit s b ≢ 0

  -- The blocks of the free map are in use themselves.
  abbrev pub MapInUse : Blocks → Type 0
  MapInUse s = (b : ℕ) → b < sb.size → InUse s (bitmap_block sb b)

  abbrev Scanned : (d : ℕ → ℕ) (b left bi : ℕ) → Option ℕ → Type 0
  Scanned d b left bi none =
      (j : ℕ) → bi ≤ j → j < bi + left → b + j < sb.size → bit (j % 8) (d (j / 8)) ≢ 0
  Scanned d b left bi (some i) =
      (bi ≤ i)
      × (i < bi + left)
      × (b + i < sb.size)
      × (bit (i % 8) (d (i / 8)) ≡ 0)
      × ((j : ℕ) → bi ≤ j → j < i → bit (j % 8) (d (j / 8)) ≢ 0)

  one_more :
      (d : ℕ → ℕ) (b left bi : ℕ) (o : Option ℕ)
      → bit (bi % 8) (d (bi / 8)) ≢ 0
      → Scanned d b left (bi + 1) o
      → Scanned d b (suc left) bi o
  one_more d b left bi none busy rest =
      from_first (λ j. j < bi + suc left → b + j < sb.size → bit (j % 8) (d (j / 8)) ≢ 0) bi
        (λ h m. busy) λ j l h m. rest j l (omega arith) m
  one_more d b left bi (some i) busy (l, h, m, e, rest) = (
    omega arith,
    omega arith,
    m,
    e,
    from_first (λ j. j < i → bit (j % 8) (d (j / 8)) ≢ 0) bi (λ h. busy) λ j k n. rest j k n,
  )

  scan-Scanned : (d : ℕ → ℕ) (b left bi : ℕ) → Scanned d b left bi (scan sb d b left bi)
  unfolding scan
  scan-Scanned d b zero bi = λ j l h m. absurd (omega (arith, l, h))
  scan-Scanned d b (suc left) bi = elim (Bool-cases (ltb (b + bi) sb.size)) [
    | inr out ↦ rw (out, scan) λ j l h m. absurd (ground (arith, l, h, m, out))
    | inl fits ↦ elim (Bool-cases (bit (bi % 8) (d (bi / 8)) == 0)) [
      | inl clear ↦
          rw (fits, clear, scan)
            (
              omega arith,
              omega arith,
              ground arith,
              ground arith,
              λ j l h. absurd (omega (arith, l, h)),
            )
      | inr busy ↦
          rw (fits, busy, scan)
            (one_more d b left bi (scan sb d b left (bi + 1)) (ground arith)
              (scan-Scanned d b left (bi + 1)))
    ]
  ]

  map_bit_at :
      (s : Blocks) (b j : ℕ)
      → b % bits_per_block ≡ 0
      → j < bits_per_block
      → map_bit s (b + j) ≡ bit (j % 8) (s.content (bitmap_block sb b) (j / 8))
  map_bit_at s b j aligned small =
      let offset : (b + j) % bits_per_block ≡ j = omega arith in
      let index : (b + j) / bits_per_block ≡ b / bits_per_block = omega arith in
      rw (offset, index) refl

  -- Blocks behind the base of a bitmap block, given for those before it and by the bits of it.
  both_parts :
      (s : Blocks) (b end : ℕ)
      → b % bits_per_block ≡ 0
      → end ≤ bits_per_block
      → ((a : ℕ) → a < b → a < sb.size → InUse s a)
      → ((j : ℕ)
          → 0 ≤ j
          → j < end
          → b + j < sb.size
          → bit (j % 8) (s.content (bitmap_block sb b) (j / 8)) ≢ 0)
      → (a : ℕ) → a < b + end
      → a < sb.size
      → InUse s a
  both_parts s b end aligned small below bits a h m = elim (Bool-cases (ltb a b)) [
    | inl e ↦ below a (ground arith) m
    | inr e ↦
        let same : a ≡ b + (a - b) = ground arith in
        let busy = bits (a - b) (omega arith) (omega arith) (omega arith) in
        λ z.
          busy
            (sym (map_bit_at s b (a - b) aligned (omega arith)) ∙ (ap (map_bit s) (sym same) ∙ z))
  ]

  -- What a call of `balloc` comes to.
  pub record Took (s : Blocks) (r : ℕ × Blocks) : Type 0 where
    pub below : r.0 < sb.size
    pub free : map_bit s r.0 ≡ 0
    pub first : (a : ℕ) → a < r.0 → InUse s a
    pub after : r.1 ≡ take_block sb (r.0 - r.0 % bits_per_block) (r.0 % bits_per_block) s

  pub record Full (s : Blocks) (r : ℕ × Blocks) : Type 0 where
    pub none_free : (a : ℕ) → a < sb.size → InUse s a
    pub zero_block : r.0 ≡ 0
    pub unchanged : r.1 ≡ s

  pub balloc_from-ends :
      (rounds b : ℕ) (s : Blocks)
      → b % bits_per_block ≡ 0
      → sb.size < b + rounds * bits_per_block
      → ((a : ℕ) → a < b → a < sb.size → InUse s a)
      → Took s (balloc_from sb rounds b s) ⊎ Full s (balloc_from sb rounds b s)
  unfolding balloc_from
  balloc_from-ends zero b s aligned enough below =
      inr
        (record { none_free = λ a h. below a (omega arith) h; zero_block = refl; unchanged = refl })
  balloc_from-ends (suc rounds) b s aligned enough below = elim (Bool-cases (ltb b sb.size)) [
    | inr out ↦
        rw (out, balloc_from)
          (inr (record {
            none_free = λ a h. below a (ground (arith, h)) h;
            zero_block = refl;
            unchanged = refl;
          }))
    | inl fits ↦
        let found = scan-Scanned (s.content (bitmap_block sb b)) b bits_per_block 0 in
        elim (Option-cases (scan sb (s.content (bitmap_block sb b)) b bits_per_block 0)) [
          | inl e ↦
              let bits =
                subst (Scanned (s.content (bitmap_block sb b)) b bits_per_block 0) e found in
              rw (fits, e, balloc_from)
                (balloc_from-ends rounds (b + bits_per_block) s (omega arith) (omega arith) λ a h m.
                  both_parts s b bits_per_block aligned (omega arith) below
                    (λ j l k n. bits j l (omega arith) n) a h m)
          | inr (bi, e) ↦
              let (l, h, m, clear, first) =
                subst (Scanned (s.content (bitmap_block sb b)) b bits_per_block 0) e found in
              let offset : (b + bi) % bits_per_block ≡ bi = omega arith in
              let base : b + bi - bi ≡ b = omega arith in
              rw (fits, e, balloc_from)
                (inl (record {
                  below = m;
                  free = map_bit_at s b bi aligned (omega arith) ∙ clear;
                  first = λ a k.
                      both_parts s b bi aligned (omega arith) below (λ j n o p. first j n o) a k
                        (omega arith);
                  after = rw (offset, base) refl;
                }))
        ]
  ]

-- ===== src/Fs/Blocks.antt =====
-- kernel/fs.c: `bzero`, `balloc` and `bfree`.
--
-- `content b i` is byte `i` of block `b` as the buffer cache shows it, so a `bread` and the `brelse`
-- that ends it do not appear. `logged` has the blocks that `log_write` was called for, last one
-- first.
pub mod Bits
pub mod Alloc
pub mod Map
mod Tests
use tdt4186_lab.Base.{
  ℕ, zero, suc, ◌+◌, ◌-◌, ◌*◌, ◌/◌, ◌%◌, Bool, true, false, ◌==◌, ltb, if◌then◌else◌, Option, none,
  some, List, [], ◌∷◌, update, Result, ok, panic,
}

-- `BSIZE` and `BPB`
abbrev pub block_size : ℕ
block_size = 1024

abbrev pub bits_per_block : ℕ
bits_per_block = 8192

-- The fields of `struct superblock` that fs.c reads.
pub record Superblock : Type 0 where
  pub size : ℕ
  pub ninodes : ℕ
  pub inodestart : ℕ
  pub bmapstart : ℕ

pub record Blocks : Type 0 where
  pub content : ℕ → ℕ → ℕ
  pub logged : List ℕ

abbrev pub store : (b i v : ℕ) → Blocks → Blocks
store b i v s = record s { content = update s.content b (update (s.content b) i v) }

abbrev pub log_write : ℕ → Blocks → Blocks
log_write b s = record s { logged = b ∷ s.logged }

-- `1 << k`, and bit `k` of `x`: it is 0 just if `x & (1 << k)` is.
unfoldable pub pow2 : ℕ → ℕ
pow2 zero = 1
pow2 (suc k) = 2 * pow2 k

unfoldable pub bit : ℕ → ℕ → ℕ
bit zero x = x % 2
bit (suc k) x = bit k (x / 2)

pub bzero : ℕ → Blocks → Blocks
bzero b s = log_write b (record s { content = update s.content b (λ i. 0) })

module _ (sb : Superblock) where
  -- `BBLOCK(b, sb)`
  abbrev pub bitmap_block : ℕ → ℕ
  bitmap_block b = b / bits_per_block + sb.bmapstart

  -- The inner loop of `balloc` over a bitmap block that starts with block `b`, from bit `bi` on. A
  -- clear bit `k` is set by adding `1 << k`.
  pub scan : (d : ℕ → ℕ) (b left bi : ℕ) → Option ℕ
  unfolding bit
  scan d b zero bi = none
  scan d b (suc left) bi =
      let rest = scan d b left (bi + 1) in
      if ltb (b + bi) sb.size
      then (if bit (bi % 8) (d (bi / 8)) == 0 then some bi else rest)
      else none

  pub take_block : (b bi : ℕ) → Blocks → Blocks
  unfolding pow2 bzero
  take_block b bi s =
      let bp = bitmap_block b in
      bzero (b + bi) (log_write bp (store bp (bi / 8) (s.content bp (bi / 8) + pow2 (bi % 8)) s))

  -- The outer loop of `balloc`, from block `b` on; 0 if there is no free block.
  pub balloc_from : (rounds b : ℕ) → Blocks → ℕ × Blocks
  unfolding scan take_block
  balloc_from zero b s = (0, s)
  balloc_from (suc rounds) b s = elim (ltb b sb.size) [
    | false ↦ (0, s)
    | true ↦ elim (scan (s.content (bitmap_block b)) b bits_per_block 0) [
      | some bi ↦ (b + bi, take_block b bi s)
      | none ↦ balloc_from rounds (b + bits_per_block) s
    ]
  ]

  -- Each round is about `BPB` blocks, so that there are at most `size / BPB + 1` rounds.
  unfoldable pub balloc : Blocks → ℕ × Blocks
  unfolding balloc_from
  balloc s = balloc_from (sb.size / bits_per_block + 1) 0 s

  -- A set bit `k` is cleared by subtracting `1 << k`.
  unfoldable pub bfree : ℕ → Blocks → Result Blocks
  unfolding bit pow2
  bfree b s =
      let bp = bitmap_block b in
      let bi = b % bits_per_block in
      let byte = s.content bp (bi / 8) in
      if bit (bi % 8) byte == 0
      then panic "freeing free block"
      else ok (log_write bp (store bp (bi / 8) (byte - pow2 (bi % 8)) s))

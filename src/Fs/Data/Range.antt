-- ===== src/Fs/Data/Range.antt =====
-- kernel/fs.c: the bytes of a content, and the pieces of a range in blocks.
use tdt4186_lab.Base.{ℕ, ◌+◌, ◌-◌, ◌/◌, ◌%◌, ◌≤◌, ◌<◌, ◌≡◌, ◌≢◌, inl, inr, ltb, arith, Bool-cases}
use tdt4186_lab.Fs.Blocks.{Blocks, block_size}
use tdt4186_lab.Fs.Inodes.{Inode}
use tdt4186_lab.Fs.Content.Mapping.{address}
use tdt4186_lab.Fs.Data.{piece, max_size}

-- Byte `k` of the content of the inode.
abbrev pub file_byte : Inode → Blocks → ℕ → ℕ
file_byte p s k = s.content (address p (k / block_size) s) (k % block_size)

-- The inode has a block for each byte below `n`.
pub record HasBlocks (p : Inode) (s : Blocks) (n : ℕ) : Type 0 where
  pub bound : n ≤ max_size
  pub has : (k : ℕ) → k < n → address p (k / block_size) s ≢ 0

-- How far a piece reaches: not beyond the block, and to its end if more is left.
pub record Piece (off left k : ℕ) : Type 0 where
  pub pos : 0 < k
  pub le : k ≤ left
  pub block : (j : ℕ) → j < k → (off + j) / block_size ≡ off / block_size
  pub offset : (j : ℕ) → j < k → (off + j) % block_size ≡ off % block_size + j

pub piece-Piece : (off left : ℕ) → 0 < left → Piece off left (piece off left)
piece-Piece off left more = elim (Bool-cases (ltb left (block_size - off % block_size))) [
  | inl e ↦
      let fits : left < block_size - off % block_size = ground (arith, e) in
      rw e record {
        pos = more;
        le = omega arith;
        block = λ j h. omega (arith, fits, h);
        offset = λ j h. omega (arith, fits, h);
      }
  | inr e ↦
      let beyond : block_size - off % block_size ≤ left = ground (arith, e) in
      rw e record {
        pos = omega arith;
        le = beyond;
        block = λ j h. omega (arith, h);
        offset = λ j h. omega (arith, h);
      }
]

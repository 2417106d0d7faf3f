-- ===== src/Fs/Content.antt =====
-- kernel/fs.c: `bmap` and `itrunc`, the blocks that hold the content of an inode.
--
-- The inode is the copy in memory, under its sleep-lock. A block read by `bread` is its content.
pub mod Mapping
pub mod Indirect
pub mod Bmap
pub mod Trunc
pub mod Found
mod Tests
use tdt4186_lab.Base.{
  ℕ, zero, suc, ◌+◌, ◌-◌, ◌*◌, Bool, true, false, ◌==◌, ltb, if◌then◌else◌, Option, none, some,
  update, Result, ok, panic,
}
use tdt4186_lab.Fs.Blocks.{Superblock, Blocks, log_write, balloc, bfree}
use tdt4186_lab.Fs.Inodes.{Inode, store_le, load_words, iupdate}

-- `NDIRECT` and `NINDIRECT`
abbrev pub num_direct : ℕ
num_direct = 12

abbrev pub num_indirect : ℕ
num_indirect = 256

-- What `bmap` leaves: the address, or 0, the inode and the disk.
pub record Mapped : Type 0 where
  pub addr : ℕ
  pub inode : Inode
  pub blocks : Blocks

abbrev pub with_addr : (k a : ℕ) → Inode → Inode
with_addr k a p = record p { addrs = update p.addrs k a }

-- `ip->addrs[k]` after `balloc` gave block `a`, or 0.
abbrev pub allocated : (k : ℕ) → Inode → ℕ × Blocks → Mapped
allocated k p (a, t) = record {
  addr = a;
  inode = if a == 0 then p else with_addr k a p;
  blocks = t;
}

-- Entry `n` of the indirect block after `balloc` gave block `b`, or 0.
abbrev pub entered : (n : ℕ) → Mapped → ℕ × Blocks → Mapped
entered n m (b, t) = record m {
  addr = b;
  blocks = if b == 0 then t else log_write m.addr (store_le 4 m.addr (4 * n) b t);
}

module _ (sb : Superblock) where
  -- `ip->addrs[k]`, allocated if it is 0.
  pub own_block : (k : ℕ) → Inode → Blocks → Mapped
  unfolding balloc
  own_block k p s =
      if p.addrs k == 0
      then allocated k p (balloc sb s)
      else record { addr = p.addrs k; inode = p; blocks = s }

  -- Entry `n` of the indirect block that `own_block` found, allocated if it is 0.
  pub listed_block : (n : ℕ) → Mapped → Mapped
  unfolding balloc store_le load_words
  listed_block n m =
      let a = load_words (m.blocks.content m.addr) 0 n in
      if m.addr == 0
      then m
      else if a == 0
      then entered n m (balloc sb m.blocks)
      else record m { addr = a }

  unfoldable pub bmap : Inode → (bn : ℕ) → Blocks → Result Mapped
  unfolding own_block listed_block
  bmap p bn s =
      if ltb bn num_direct
      then ok (own_block bn p s)
      else if ltb (bn - num_direct) num_indirect
      then ok (listed_block (bn - num_direct) (own_block num_direct p s))
      else panic "bmap: out of range"

  -- The loop of `itrunc` over the direct blocks from `i` on.
  pub free_direct : (left i : ℕ) → Inode → Blocks → Result (Inode × Blocks)
  unfolding bfree
  free_direct zero i p s = ok (p, s)
  free_direct (suc left) i p s =
      if p.addrs i == 0 then free_direct left (i + 1) p s else elim (bfree sb (p.addrs i) s) [
        | panic m ↦ panic m
        | ok t ↦ free_direct left (i + 1) (with_addr i 0 p) t
      ]

  -- Its loop over the entries of the indirect block, with content `d`, from `j` on.
  pub free_listed : (d : ℕ → ℕ) → (left j : ℕ) → Blocks → Result Blocks
  unfolding bfree load_words
  free_listed d zero j s = ok s
  free_listed d (suc left) j s =
      if load_words d 0 j == 0
      then free_listed d left (j + 1) s
      else elim (bfree sb (load_words d 0 j) s) [
        | panic m ↦ panic m
        | ok t ↦ free_listed d left (j + 1) t
      ]

  -- The indirect block and the blocks that it lists.
  pub free_indirect : Inode → Blocks → Result (Inode × Blocks)
  free_indirect p s =
      let b = p.addrs num_direct in
      if b == 0 then ok (p, s) else elim (free_listed (s.content b) num_indirect 0 s) [
        | panic m ↦ panic m
        | ok t ↦ elim (bfree sb b t) [ panic m ↦ panic m | ok u ↦ ok (with_addr num_direct 0 p, u) ]
      ]

  pub itrunc : Inode → Blocks → Result (Inode × Blocks)
  itrunc p s = elim (free_direct num_direct 0 p s) [
    | panic m ↦ panic m
    | ok (q, t) ↦ elim (free_indirect q t) [
      | panic m ↦ panic m
      | ok (r, u) ↦ let end_of_it = record r { size = 0 } in ok (end_of_it, iupdate sb end_of_it u)
    ]
  ]

-- ===== src/Fs/Content/Tests.antt =====
-- kernel/fs.c: an inode on a disk of twenty blocks, of which five are in use.
use tdt4186_lab.Base.{
  ℕ, ◌≡◌, ◌≢◌, ◌<◌, refl, sym, ap, ◌∙◌, ◌==◌, if◌then◌else◌, some, true, [], inr, inl, ◌∷◌, has,
  Bool-cases, Result, ok, panic, arith,
}
use tdt4186_lab.Fs.Blocks.{Superblock, Blocks, bitmap_block, bit, balloc, bfree}
use tdt4186_lab.Fs.Blocks.Alloc.{map_bit}
use tdt4186_lab.Fs.Inodes.{Inode, load_words, store_le, store_words, iupdate}
use tdt4186_lab.Fs.Content.{Mapped, bmap, free_direct, free_listed, free_indirect, itrunc}
use tdt4186_lab.Fs.Content.Mapping.{Usable, Busy, Listed}
use tdt4186_lab.Fs.Content.Bmap.{BmapEnds, bmap_ends}
use tdt4186_lab.Fs.Content.Trunc.{nonzero, owned, Truncated, itrunc_ends}

abbrev sb : Superblock
sb = record { size = 20; ninodes = 16; inodestart = 2; bmapstart = 3 }

-- Block 3 is the free map, and block 4 an indirect block without an entry.
abbrev disk : Blocks
disk = record { content = λ b i. if b == 3 then (if i == 0 then 31 else 0) else 0; logged = [] }

abbrev file : Inode
file = record {
  dev = 1;
  inum = 2;
  ref = 1;
  owner = some 7;
  valid = true;
  type = 2;
  major = 0;
  minor = 0;
  nlink = 1;
  size = 0;
  addrs = λ k. if k == 12 then 4 else 0;
}

block_of_map : (b : ℕ) → b < 20 → bitmap_block sb b ≡ 3
block_of_map b h = omega (arith, h)

map_is_used : map_bit sb disk 3 ≢ 0
unfolding bit
map_is_used = omega arith

disk-Usable : Usable sb disk
disk-Usable = record {
  map_used = λ b h z. map_is_used (ap (map_bit sb disk) (sym (block_of_map b h)) ∙ z);
  map_below = λ b h. omega (arith, block_of_map b h);
}

file-Listed : Listed sb file disk
unfolding bit
file-Listed = inr record {
  below = omega arith;
  used = omega arith;
  apart = λ b h e. absurd (omega (arith, block_of_map b h, e));
}

bmap_ends_example : BmapEnds sb file 13 disk (bmap sb file 13 disk)
bmap_ends_example = bmap_ends sb file 13 disk (omega arith) disk-Usable file-Listed

abbrev addr_of : Result Mapped → ℕ
addr_of (ok m) = m.addr
addr_of (panic m) = 0

first_block : addr_of (bmap sb file 13 disk) ≡ 5
unfolding bmap balloc
first_block = refl

abbrev addr_again : Result Mapped → ℕ
unfolding bmap
addr_again (ok m) = addr_of (bmap sb m.inode 13 m.blocks)
addr_again (panic m) = 0

same_block : addr_again (bmap sb file 13 disk) ≡ 5
unfolding bmap balloc store_le load_words addr_again
same_block = refl

abbrev bits_of : Result (Inode × Blocks) → ℕ
bits_of (ok (p, s)) = s.content 3 0
bits_of (panic m) = 0

freed_block : bits_of (itrunc sb file disk) ≡ 15
unfolding itrunc free_direct free_indirect free_listed bfree load_words iupdate store_words
freed_block = refl

-- A file with block 1 beside its indirect block.
abbrev two_blocks : Inode
two_blocks = record file { addrs = λ k. if k == 0 then 1 else if k == 12 then 4 else 0 }

blocks_of_it : owned sb two_blocks disk ≡ 1 ∷ 4 ∷ []
unfolding nonzero load_words
blocks_of_it = refl

one_or_four : (a : ℕ) → has a (1 ∷ 4 ∷ []) ≡ true → Busy sb disk a
unfolding bit
one_or_four a h = elim (Bool-cases (a == 1)) [
  | inl e ↦
      let here : a ≡ 1 = ground arith in
      rw here record {
        below = omega arith;
        used = omega arith;
        apart = λ b l e. absurd (omega (arith, block_of_map b l, e));
      }
  | inr e ↦
      let here : a ≡ 4 = ground (arith, h, e) in
      rw here record {
        below = omega arith;
        used = omega arith;
        apart = λ b l e. absurd (omega (arith, block_of_map b l, e));
      }
]

itrunc_ends_example : Truncated sb two_blocks disk (itrunc sb two_blocks disk)
itrunc_ends_example =
    itrunc_ends sb two_blocks disk (rw blocks_of_it (refl, (refl, tt)))
      (λ a h. one_or_four a (rw blocks_of_it at h))
      λ a h e. absurd (omega (arith, block_of_map a h, e))

both_freed : bits_of (itrunc sb two_blocks disk) ≡ 13
unfolding itrunc free_direct free_indirect free_listed bfree load_words iupdate store_words
both_freed = refl

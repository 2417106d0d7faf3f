-- ===== src/Fs/Content/Found.antt =====
-- kernel/fs.c: `bmap` of a block that the inode has.
use tdt4186_lab.Base.{
  ℕ, ◌+◌, ◌-◌, ◌<◌, ◌≡◌, ◌≢◌, inl, inr, refl, true, false, ◌==◌, ltb, ok, arith, Bool-cases,
}
use tdt4186_lab.Fs.Blocks.{Superblock, Blocks}
use tdt4186_lab.Fs.Inodes.{Inode, load_words}
use tdt4186_lab.Fs.Content.{num_direct, num_indirect, own_block, listed_block, bmap}
use tdt4186_lab.Fs.Content.Mapping.{address}

-- It changes nothing.
pub bmap_found :
    (sb : Superblock) (p : Inode) (bn : ℕ) (s : Blocks)
    → bn < num_direct + num_indirect
    → address p bn s ≢ 0
    → bmap sb p bn s ≡ ok (record { addr = address p bn s; inode = p; blocks = s })
unfolding bmap own_block listed_block address load_words
bmap_found sb p bn s less some_block = elim (Bool-cases (ltb bn num_direct)) [
  | inl e ↦
      let there : (p.addrs bn == 0) ≡ false = ground (arith, e, some_block) in
      rw (bmap, e, own_block, there, address) refl
  | inr e ↦
      let in_range : ltb (bn - num_direct) num_indirect ≡ true = ground (arith, e, less) in
      let indirect : (p.addrs num_direct == 0) ≡ false = ground (arith, e, some_block) in
      let there : (load_words (s.content (p.addrs num_direct)) 0 (bn - num_direct) == 0) ≡ false =
        ground (arith, e, some_block, indirect) in
      let own : own_block sb num_direct p s
          ≡ record { addr = p.addrs num_direct; inode = p; blocks = s } =
        rw (own_block, indirect) refl in
      rw (bmap, e, in_range, own, listed_block, address) (rw (indirect, there) refl)
]

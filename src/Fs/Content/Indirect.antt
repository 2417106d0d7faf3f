-- ===== src/Fs/Content/Indirect.antt =====
-- kernel/fs.c: the addresses that `bmap` finds and makes in the indirect block.
use tdt4186_lab.Base.{
  ℕ, zero, suc, ◌+◌, ◌-◌, ◌*◌, ◌/◌, ◌%◌, ◌^◌, ◌<◌, ◌≡◌, ◌≢◌, inl, inr, refl, sym, ap, ◌∙◌, true,
  false, ◌==◌, ltb, if◌then◌else◌, arith, Bool-cases,
}
use tdt4186_lab.Fs.Blocks.{Superblock, Blocks, bits_per_block, log_write, bitmap_block, bit}
use tdt4186_lab.Fs.Blocks.Alloc.{map_bit}
use tdt4186_lab.Fs.Inodes.{Inode, store_le, load_le, load_words}
use tdt4186_lab.Fs.Inodes.OnDisk.{store_le_frame, load_le_cong, load_le-store_le, word_small}
use tdt4186_lab.Fs.Content.{num_direct}
use tdt4186_lab.Fs.Content.Mapping.{address, address_direct, Usable, Busy}

pub load_le_zero : (n : ℕ) (d : ℕ → ℕ) (i : ℕ) → ((j : ℕ) → d j ≡ 0) → load_le n d i ≡ 0
unfolding load_le
load_le_zero zero d i z = refl
load_le_zero (suc n) d i z = omega (arith, z i, load_le_zero n d (i + 1) z)

pub load_words-store_le :
    (b n v : ℕ) (s : Blocks) (j : ℕ)
    → v < 2 ^ 32
    → load_words ((store_le 4 b (4 * n) v s).content b) 0 j
      ≡ (if j == n then v else load_words (s.content b) 0 j)
unfolding load_words
load_words-store_le b n v s j small = elim (Bool-cases (j == n)) [
  | inl e ↦
      let same : j ≡ n = ground arith in
      let at : 0 + 4 * n ≡ 4 * n = omega arith in
      rw (e, same)
        (ap (load_le 4 ((store_le 4 b (4 * n) v s).content b)) at
          ∙ load_le-store_le 4 b (4 * n) v s (word_small v small))
  | inr e ↦
      let differs : j ≢ n = ground (arith, e) in
      rw e (
        load_le_cong 4 ((store_le 4 b (4 * n) v s).content b) (s.content b) (0 + 4 * j)
          λ x p q. store_le_frame 4 b (4 * n) v s b x (inr (ground (arith, differs))))
]

pub address_unlisted :
    (p : Inode) (j : ℕ) (s : Blocks)
    → ltb j num_direct ≡ false
    → p.addrs num_direct ≡ 0
    → address p j s ≡ 0
unfolding address
address_unlisted p j s far none_listed = rw (far, none_listed) refl

pub address_listed :
    (p : Inode) (j : ℕ) (s : Blocks)
    → ltb j num_direct ≡ false
    → p.addrs num_direct ≢ 0
    → address p j s ≡ load_words (s.content (p.addrs num_direct)) 0 (j - num_direct)
unfolding address
address_listed p j s far listed = ground (arith, far, listed)

-- Entry `bn - 12` of the indirect block, written.
pub address-entry :
    (p : Inode) (bn v : ℕ) (s : Blocks) (j : ℕ)
    → ltb bn num_direct ≡ false
    → p.addrs num_direct ≢ 0
    → v < 2 ^ 32
    → let b = p.addrs num_direct in
      address p j (log_write b (store_le 4 b (4 * (bn - num_direct)) v s))
      ≡ (if j == bn then v else address p j s)
address-entry p bn v s j far listed small =
    let b = p.addrs num_direct in
    let t = log_write b (store_le 4 b (4 * (bn - num_direct)) v s) in
    elim (Bool-cases (ltb j num_direct)) [
      | inl near ↦
          let differs : (j == bn) ≡ false = ground (arith, near, far) in
          let less : j < num_direct = ground (arith, near) in
          rw differs (address_direct p j t less ∙ sym (address_direct p j s less))
      | inr away ↦
          address_listed p j t away listed
          ∙ (load_words-store_le b (bn - num_direct) v s (j - num_direct) small
              ∙ elim (Bool-cases (j == bn)) [
                | inl e ↦
                    let same : (j - num_direct == bn - num_direct) ≡ true = ground (arith, e) in
                    rw (e, same) refl
                | inr e ↦
                    let apart : (j - num_direct == bn - num_direct) ≡ false =
                      ground (arith, e, away, far) in
                    rw (e, apart) (sym (address_listed p j s away listed))
              ])
    ]

module _ (sb : Superblock) where
  -- Writing into a block that has no part of the free map.
  pub map_bit-entry :
      (s : Blocks) (b i v a : ℕ)
      → Busy sb s b
      → a < sb.size
      → map_bit sb (log_write b (store_le 4 b i v s)) a ≡ map_bit sb s a
  map_bit-entry s b i v a busy h =
      ap (bit (a % bits_per_block % 8)) (
        store_le_frame 4 b i v s (bitmap_block sb a) (a % bits_per_block / 8)
          (inl (busy.apart a h)))

  pub entry-Usable :
      (s : Blocks) (b i v : ℕ)
      → Busy sb s b
      → Usable sb s
      → Usable sb (log_write b (store_le 4 b i v s))
  entry-Usable s b i v busy u = record {
    map_used = λ a h e.
        u.map_used a h (sym (map_bit-entry s b i v (bitmap_block sb a) busy (u.map_below a h)) ∙ e);
    map_below = u.map_below;
  }

  pub entry-Busy :
      (s : Blocks) (b i v : ℕ) → Busy sb s b → Busy sb (log_write b (store_le 4 b i v s)) b
  entry-Busy s b i v busy = record {
    below = busy.below;
    used = λ e. busy.used (sym (map_bit-entry s b i v b busy busy.below) ∙ e);
    apart = busy.apart;
  }

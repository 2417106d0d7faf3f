-- ===== src/Fs/Data/Writing.antt =====
-- kernel/fs.c: the content of an inode after `writei` in blocks that it has.
use tdt4186_lab.Base.{
  ℕ, ◌+◌, ◌-◌, ◌/◌, ◌%◌, ◌≤◌, ◌<◌, ◌≡◌, ◌≢◌, ◌⊎◌, inl, inr, refl, ap, ◌∙◌, Bool, true, false, ◌==◌,
  ◌&&◌, ltb, leb, if◌then◌else◌, update, arith, Bool-cases,
}
use tdt4186_lab.Fs.Blocks.{Superblock, Blocks, block_size, log_write}
use tdt4186_lab.Fs.Inodes.{Inode, load_words, inode_block}
use tdt4186_lab.Fs.Content.{num_direct}
use tdt4186_lab.Fs.Content.Mapping.{address}
use tdt4186_lab.Fs.Data.{max_size}
use tdt4186_lab.Fs.Data.Range.{file_byte}

-- `MAXFILE`
abbrev pub max_blocks : ℕ
max_blocks = 268

-- The blocks of an inode are different, and none is its indirect block or has the inode itself.
pub record Laid (sb : Superblock) (p : Inode) (s : Blocks) : Type 0 where
  pub differ :
      (i j : ℕ)
      → i < max_blocks
      → j < max_blocks
      → i ≢ j
      → address p i s ≢ 0
      → address p i s ≢ address p j s
  pub listed : (i : ℕ) → i < max_blocks → address p i s ≢ 0 → address p i s ≢ p.addrs num_direct
  pub inode_apart : (i : ℕ) → i < max_blocks → address p i s ≢ inode_block sb p.inum
  pub inode_unlisted : p.addrs num_direct ≢ inode_block sb p.inum

-- What `get` leaves: the bytes of `source` where it succeeds, and in any case no others changed.
pub record Gets (source : ℕ → ℕ) (get : (src n o : ℕ) → (ℕ → ℕ) → Bool × (ℕ → ℕ)) : Type 0 where
  pub copied :
      (src n o : ℕ) (d : ℕ → ℕ)
      → (get src n o d).0 ≡ true
      → (i : ℕ)
      → (get src n o d).1 i ≡ (if leb o i && ltb i (o + n) then source (src + (i - o)) else d i)
  pub frame : (src n o : ℕ) (d : ℕ → ℕ) (i : ℕ) → (i < o) ⊎ (o + n ≤ i) → (get src n o d).1 i ≡ d i

abbrev pub with_content : (b : ℕ) → (ℕ → ℕ) → Blocks → Blocks
with_content b d s = record s { content = update s.content b d }

-- A block that is not the indirect one holds no addresses.
pub address_kept :
    (p : Inode) (j : ℕ) (s t : Blocks)
    → t.content (p.addrs num_direct) ≡ s.content (p.addrs num_direct)
    → address p j t ≡ address p j s
unfolding address load_words
address_kept p j s t same = rw same refl

-- `log_write` changes no byte.
pub logged_address :
    (p : Inode) (b j : ℕ) (s : Blocks) → address p j (log_write b s) ≡ address p j s
unfolding address load_words
logged_address p b j s = refl

pub logged_byte :
    (p : Inode) (b k : ℕ) (s : Blocks) → file_byte p (log_write b s) k ≡ file_byte p s k
logged_byte p b k s = ap (λ a. s.content a (k % block_size)) (logged_address p b (k / block_size) s)

pub Laid-log_write :
    (sb : Superblock) (p : Inode) (b : ℕ) (s : Blocks) → Laid sb p s → Laid sb p (log_write b s)
unfolding address load_words
Laid-log_write sb p b s l = record {
  differ = l.differ;
  listed = l.listed;
  inode_apart = l.inode_apart;
  inode_unlisted = l.inode_unlisted;
}

equal_test : (a b : ℕ) → a ≡ b → (a == b) ≡ true
equal_test a b e = ground (arith, e)

module _ (sb : Superblock) (p : Inode) (s : Blocks) (laid : Laid sb p s) where
  -- A block of the inode gets content `d`.
  pub stored_address :
      (bn : ℕ) (d : ℕ → ℕ) (j : ℕ)
      → bn < max_blocks
      → address p bn s ≢ 0
      → address p j (with_content (address p bn s) d s) ≡ address p j s
  stored_address bn d j less there = address_kept p j s (with_content (address p bn s) d s) (
      let apart = laid.listed bn less there in
      let other : (p.addrs num_direct == address p bn s) ≡ false = ground (arith, apart) in
      rw other refl)

  pub stored_byte :
      (bn : ℕ) (d : ℕ → ℕ) (k : ℕ)
      → k < max_size
      → bn < max_blocks
      → address p bn s ≢ 0
      → file_byte p (with_content (address p bn s) d s) k
        ≡ (if k / block_size == bn then d (k % block_size) else file_byte p s k)
  stored_byte bn d k small less there =
      let b = address p bn s in
      let bk = k / block_size in
      ap (λ a. update s.content b d a (k % block_size)) (stored_address bn d bk less there)
      ∙ elim (Bool-cases (bk == bn)) [
        | inl e ↦
            let here : (address p bk s == b) ≡ true =
              equal_test (address p bk s) b (ap (λ j. address p j s) (ground (arith, e))) in
            rw (here, e) refl
        | inr e ↦
            let apart = laid.differ bn bk less (omega (arith, small)) (ground (arith, e)) there in
            let other : (address p bk s == b) ≡ false = ground (arith, apart) in rw (other, e) refl
      ]

  pub stored-Laid :
      (bn : ℕ) (d : ℕ → ℕ)
      → bn < max_blocks
      → address p bn s ≢ 0
      → Laid sb p (with_content (address p bn s) d s)
  stored-Laid bn d less there =
      let same = λ (j : ℕ). stored_address bn d j less there in
      record {
        differ = λ i j hi hj n. rw (same i, same j) (laid.differ i j hi hj n);
        listed = λ i hi. rw (same i) (laid.listed i hi);
        inode_apart = λ i hi. rw (same i) (laid.inode_apart i hi);
        inode_unlisted = laid.inode_unlisted;
      }

-- ===== src/Fs/Inodes/OnDisk.antt =====
-- kernel/fs.c: what `iupdate` writes, `ilock` reads back.
use tdt4186_lab.Base.{
  ℕ, zero, suc, ◌+◌, ◌-◌, ◌*◌, ◌/◌, ◌%◌, ◌^◌, ◌≤◌, ◌<◌, ◌≡◌, ◌≢◌, ◌⊎◌, inl, inr, refl, sym, ap, ap₂,
  ◌∙◌, true, ◌==◌, ltb, arith, Bool-cases,
}
use tdt4186_lab.Fs.Blocks.{Superblock, Blocks, store}
use tdt4186_lab.Fs.Inodes.{
  Inode, store_le, load_le, store_words, load_words, num_addrs, inode_block, inode_offset, iupdate,
  read_inode,
}

-- Byte `j` of block `c` is none of the `n` bytes of block `b` from `i` on.
abbrev pub Outside : (c j b i n : ℕ) → Type 0
Outside c j b i n = (c ≢ b) ⊎ ((j < i) ⊎ (i + n ≤ j))

pub store_le_frame :
    (n b i v : ℕ) (s : Blocks) (c j : ℕ)
    → Outside c j b i n
    → (store_le n b i v s).content c j ≡ s.content c j
unfolding store_le
store_le_frame zero b i v s c j out = refl
store_le_frame (suc n) b i v s c j out =
    store_le_frame n b (i + 1) (v / 256) (store b i (v % 256) s) c j (ground (arith, out))
    ∙ ground (arith, out)

store_words_frame :
    (n b i : ℕ) (w : ℕ → ℕ) (k : ℕ) (s : Blocks) (c j : ℕ)
    → Outside c j b i (4 * n)
    → (store_words n b i w k s).content c j ≡ s.content c j
unfolding store_words
store_words_frame zero b i w k s c j out = refl
store_words_frame (suc n) b i w k s c j out =
    store_words_frame n b (i + 4) w (k + 1) (store_le 4 b i (w k) s) c j (ground (arith, out))
    ∙ store_le_frame 4 b i (w k) s c j (ground (arith, out))

pub load_le_cong :
    (n : ℕ) (d e : ℕ → ℕ) (i : ℕ)
    → ((j : ℕ) → i ≤ j → j < i + n → d j ≡ e j)
    → load_le n d i ≡ load_le n e i
unfolding load_le
load_le_cong zero d e i same = refl
load_le_cong (suc n) d e i same =
    ap₂ (λ x y. x + 256 * y) (same i (omega arith) (omega arith))
      (load_le_cong n d e (i + 1) λ j l h. same j (omega arith) (omega arith))

pub bytes : ℕ → ℕ
bytes zero = 1
bytes (suc n) = 256 * bytes n

pub load_le-store_le :
    (n b i v : ℕ) (s : Blocks) → v < bytes n → load_le n ((store_le n b i v s).content b) i ≡ v
unfolding store_le load_le bytes
load_le-store_le zero b i v s small = omega (arith, small)
load_le-store_le (suc n) b i v s small =
    let t = store b i (v % 256) s in
    let first : (store_le n b (i + 1) (v / 256) t).content b i ≡ v % 256 =
      store_le_frame n b (i + 1) (v / 256) t b i (inr (inl (omega arith))) ∙ ground arith in
    let rest = load_le-store_le n b (i + 1) (v / 256) t (omega arith) in omega (arith, first, rest)

pub word_small : (x : ℕ) → x < 2 ^ 32 → x < bytes 4
unfolding bytes
word_small x h = omega (arith, h)

half_small : (x : ℕ) → x < 2 ^ 16 → x < bytes 2
unfolding bytes
half_small x h = omega (arith, h)

load_le-store_words :
    (n b i : ℕ) (w : ℕ → ℕ) (k j : ℕ) (s : Blocks)
    → k ≤ j
    → j < k + n
    → ((x : ℕ) → w x < 2 ^ 32)
    → load_le 4 ((store_words n b i w k s).content b) (i + 4 * (j - k)) ≡ w j
unfolding store_words
load_le-store_words zero b i w k j s l h small = absurd (omega (arith, l, h))
load_le-store_words (suc n) b i w k j s l h small = elim (Bool-cases (j == k)) [
  | inl e ↦
      let same : j ≡ k = ground arith in
      let at : i + 4 * (j - k) ≡ i = omega (arith, same) in
      let t = store_le 4 b i (w k) s in
      let after = (store_words n b (i + 4) w (k + 1) t).content b in
      let kept : load_le 4 after i ≡ load_le 4 (t.content b) i =
        load_le_cong 4 after (t.content b) i
          λ x p q. store_words_frame n b (i + 4) w (k + 1) t b x (inr (inl (omega arith))) in
      ap (load_le 4 after) at
      ∙ (kept ∙ (load_le-store_le 4 b i (w k) s (word_small (w k) (small k)) ∙ ap w (sym same)))
  | inr e ↦
      let at : i + 4 * (j - k) ≡ i + 4 + 4 * (j - (k + 1)) = ground arith in
      let t = store_le 4 b i (w k) s in
      ap (load_le 4 ((store_words n b (i + 4) w (k + 1) t).content b)) at
      ∙ load_le-store_words n b (i + 4) w (k + 1) j t (ground arith) (omega arith) small
]

-- The fields of an inode fit into their places on the disk: `short` and `uint`.
pub record Fits (p : Inode) : Type 0 where
  pub type : p.type < 2 ^ 16
  pub major : p.major < 2 ^ 16
  pub minor : p.minor < 2 ^ 16
  pub nlink : p.nlink < 2 ^ 16
  pub size : p.size < 2 ^ 32
  pub addrs : (k : ℕ) → p.addrs k < 2 ^ 32

pub record ReadBack (p q : Inode) : Type 0 where
  pub type : q.type ≡ p.type
  pub major : q.major ≡ p.major
  pub minor : q.minor ≡ p.minor
  pub nlink : q.nlink ≡ p.nlink
  pub size : q.size ≡ p.size
  pub addrs : (k : ℕ) → k < num_addrs → q.addrs k ≡ p.addrs k

-- A field that was stored before `m` bytes elsewhere in the block.
load_le-store_le_apart :
    (n b i m o v : ℕ) (s : Blocks)
    → (i + n ≤ o) ⊎ (o + m ≤ i)
    → load_le n ((store_le m b o v s).content b) i ≡ load_le n (s.content b) i
load_le-store_le_apart n b i m o v s apart =
    load_le_cong n ((store_le m b o v s).content b) (s.content b) i
      λ j l h. store_le_frame m b o v s b j (ground (arith, apart))

load_le-store_words_apart :
    (n b i m o : ℕ) (w : ℕ → ℕ) (s : Blocks)
    → i + n ≤ o
    → load_le n ((store_words m b o w 0 s).content b) i ≡ load_le n (s.content b) i
load_le-store_words_apart n b i m o w s apart =
    load_le_cong n ((store_words m b o w 0 s).content b) (s.content b) i
      λ j l h. store_words_frame m b o w 0 s b j (inr (inl (omega arith)))

module _ (sb : Superblock) where
  iupdate-ReadBack :
      (p q : Inode) (s : Blocks)
      → Fits p
      → q.inum ≡ p.inum
      → ReadBack p (read_inode sb (iupdate sb p s) q)
  unfolding iupdate read_inode load_words
  iupdate-ReadBack p q s f same =
      let b = inode_block sb p.inum in
      let o = inode_offset sb p.inum in
      let s1 = store_le 2 b o p.type s in
      let s2 = store_le 2 b (o + 2) p.major s1 in
      let s3 = store_le 2 b (o + 4) p.minor s2 in
      let s4 = store_le 2 b (o + 6) p.nlink s3 in
      let s5 = store_le 4 b (o + 8) p.size s4 in
      let past_words = λ (n i : ℕ) (h : i + n ≤ o + 12).
        load_le-store_words_apart n b i 13 (o + 12) p.addrs s5 h in
      let past_size =
        λ (i : ℕ) (h : i + 2 ≤ o + 8). load_le-store_le_apart 2 b i 4 (o + 8) p.size s4 (inl h) in
      let past_nlink =
        λ (i : ℕ) (h : i + 2 ≤ o + 6). load_le-store_le_apart 2 b i 2 (o + 6) p.nlink s3 (inl h) in
      let past_minor =
        λ (i : ℕ) (h : i + 2 ≤ o + 4). load_le-store_le_apart 2 b i 2 (o + 4) p.minor s2 (inl h) in
      let past_major =
        λ (i : ℕ) (h : i + 2 ≤ o + 2). load_le-store_le_apart 2 b i 2 (o + 2) p.major s1 (inl h) in
      rw same record {
        type =
            past_words 2 o (omega arith)
            ∙ (past_size o (omega arith)
                ∙ (past_nlink o (omega arith)
                    ∙ (past_minor o (omega arith)
                        ∙ (past_major o (omega arith)
                            ∙ load_le-store_le 2 b o p.type s (half_small p.type f.type)))));
        major =
            past_words 2 (o + 2) (omega arith)
            ∙ (past_size (o + 2) (omega arith)
                ∙ (past_nlink (o + 2) (omega arith)
                    ∙ (past_minor (o + 2) (omega arith)
                        ∙ load_le-store_le 2 b (o + 2) p.major s1 (half_small p.major f.major))));
        minor =
            past_words 2 (o + 4) (omega arith)
            ∙ (past_size (o + 4) (omega arith)
                ∙ (past_nlink (o + 4) (omega arith)
                    ∙ load_le-store_le 2 b (o + 4) p.minor s2 (half_small p.minor f.minor)));
        nlink =
            past_words 2 (o + 6) (omega arith)
            ∙ (past_size (o + 6) (omega arith)
                ∙ load_le-store_le 2 b (o + 6) p.nlink s3 (half_small p.nlink f.nlink));
        size =
            past_words 4 (o + 8) (omega arith)
            ∙ load_le-store_le 4 b (o + 8) p.size s4 (word_small p.size f.size);
        addrs = λ k h.
            let stored = load_le-store_words 13 b (o + 12) p.addrs 0 k s5 (omega arith) h f.addrs in
            let inside : ltb k num_addrs ≡ true = ground (arith, h) in
            let index : k - 0 ≡ k = omega arith in
            rw inside (
              ap
                (λ j.
                  load_le 4 ((store_words 13 b (o + 12) p.addrs 0 s5).content b) (o + 12 + 4 * j))
                (sym index)
              ∙ stored);
      }

  elsewhere :
      (m n j : ℕ)
      → m ≢ n
      → inode_offset sb m ≤ j
      → j < inode_offset sb m + 64
      → Outside (inode_block sb m) j (inode_block sb n) (inode_offset sb n) 64
  elsewhere m n j ne l h = elim (Bool-cases (m / 16 == n / 16)) [
    | inl e ↦ inr (ground (arith, ne, l, h, e))
    | inr e ↦ inl (ground (arith, e))
  ]

  pub iupdate_frame :
      (p : Inode) (s : Blocks) (c j : ℕ)
      → Outside c j (inode_block sb p.inum) (inode_offset sb p.inum) 64
      → (iupdate sb p s).content c j ≡ s.content c j
  unfolding iupdate
  iupdate_frame p s c j out =
      let b = inode_block sb p.inum in
      let o = inode_offset sb p.inum in
      let s1 = store_le 2 b o p.type s in
      let s2 = store_le 2 b (o + 2) p.major s1 in
      let s3 = store_le 2 b (o + 4) p.minor s2 in
      let s4 = store_le 2 b (o + 6) p.nlink s3 in
      let s5 = store_le 4 b (o + 8) p.size s4 in
      store_words_frame 13 b (o + 12) p.addrs 0 s5 c j (ground (arith, out))
      ∙ (store_le_frame 4 b (o + 8) p.size s4 c j (ground (arith, out))
          ∙ (store_le_frame 2 b (o + 6) p.nlink s3 c j (ground (arith, out))
              ∙ (store_le_frame 2 b (o + 4) p.minor s2 c j (ground (arith, out))
                  ∙ (store_le_frame 2 b (o + 2) p.major s1 c j (ground (arith, out))
                      ∙ store_le_frame 2 b o p.type s c j (ground (arith, out))))))

  iupdate_others :
      (p q : Inode) (s : Blocks)
      → q.inum ≢ p.inum
      → ReadBack (read_inode sb s q) (read_inode sb (iupdate sb p s) q)
  unfolding read_inode load_words
  iupdate_others p q s ne =
      let b = inode_block sb q.inum in
      let o = inode_offset sb q.inum in
      let after = (iupdate sb p s).content b in
      let kept : (j : ℕ) → o ≤ j → j < o + 64 → after j ≡ s.content b j =
        λ j l h. iupdate_frame p s b j (elsewhere q.inum p.inum j ne l h) in
      let field = λ (n i : ℕ) (l : o ≤ i) (h : i + n ≤ o + 64).
        load_le_cong n after (s.content b) i
          λ j m k. kept j (omega (arith, l, m)) (omega (arith, h, k)) in
      record {
        type = field 2 o (omega arith) (omega arith);
        major = field 2 (o + 2) (omega arith) (omega arith);
        minor = field 2 (o + 4) (omega arith) (omega arith);
        nlink = field 2 (o + 6) (omega arith) (omega arith);
        size = field 4 (o + 8) (omega arith) (omega arith);
        addrs = λ k h.
            let inside : ltb k num_addrs ≡ true = ground (arith, h) in
            rw inside (field 4 (o + 12 + 4 * k) (omega arith) (omega (arith, h)));
      }

  -- `iupdate` of an inode whose fields fit into those on the disk: what `ilock` then reads for an entry
  -- with the same inode number is the type, the device numbers, the link count, the size and the block
  -- addresses that were written; for an entry with any other number it is what it was before.
  pub read_inode-iupdate :
      (p q : Inode) (s : Blocks)
      → Fits p
      → ((q.inum ≡ p.inum) × ReadBack p (read_inode sb (iupdate sb p s) q))
        ⊎ ((q.inum ≢ p.inum) × ReadBack (read_inode sb s q) (read_inode sb (iupdate sb p s) q))
  read_inode-iupdate p q s f = elim (Bool-cases (q.inum == p.inum)) [
    | inl e ↦ let same : q.inum ≡ p.inum = ground arith in inl (same, iupdate-ReadBack p q s f same)
    | inr e ↦ let ne : q.inum ≢ p.inum = ground arith in inr (ne, iupdate_others p q s ne)
  ]

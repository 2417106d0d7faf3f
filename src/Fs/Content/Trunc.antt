-- ===== src/Fs/Content/Trunc.antt =====
-- kernel/fs.c: the blocks that `itrunc` frees.
use tdt4186_lab.Base.{
  ℕ, zero, suc, ◌+◌, ◌/◌, ◌%◌, ◌≤◌, ◌<◌, ◌≡◌, ◌≢◌, inl, inr, refl, ap, ◌∙◌, true, ◌==◌,
  prefix-Distinct, has-append, ◌&&◌, ltb, leb, if◌then◌else◌, List, [], ◌∷◌, ◌++◌, has, Distinct,
  Result, ok, panic, arith, Bool-cases, Result-cases,
}
use tdt4186_lab.Fs.Blocks.{Superblock, Blocks, bfree, bit, bits_per_block, bitmap_block}
use tdt4186_lab.Fs.Blocks.Alloc.{map_bit, InUse}
use tdt4186_lab.Fs.Blocks.Map.{bfree_ends}
use tdt4186_lab.Fs.Inodes.{Inode, load_words, inode_block, iupdate}
use tdt4186_lab.Fs.Inodes.OnDisk.{iupdate_frame}
use tdt4186_lab.Fs.Content.{
  num_direct, num_indirect, with_addr, free_direct, free_listed, free_indirect, itrunc,
}
use tdt4186_lab.Fs.Content.Mapping.{Busy}

module _ (sb : Superblock) where
  -- `bfree` of each block on a list.
  unfoldable pub free_all : List ℕ → Blocks → Result Blocks
  free_all [] s = ok s
  free_all (x ∷ xs) s = elim (bfree sb x s) [ panic m ↦ panic m | ok t ↦ free_all xs t ]

  record AllFreed (xs : List ℕ) (s : Blocks) : Type 0 where
    after : Blocks
    returns : free_all xs s ≡ ok after
    map : (a : ℕ) → a < sb.size → map_bit sb after a ≡ (if has a xs then 0 else map_bit sb s a)
    frame :
        (c : ℕ) → ((a : ℕ) → a < sb.size → bitmap_block sb a ≢ c) → after.content c ≡ s.content c

  all_freed :
      (xs : List ℕ) (s : Blocks)
      → Distinct xs
      → ((a : ℕ) → has a xs ≡ true → (a < sb.size) × InUse sb s a)
      → AllFreed xs s
  unfolding free_all
  all_freed [] s d used = record {
    after = s;
    returns = refl;
    map = λ a h. refl;
    frame = λ c h. refl;
  }
  all_freed (x ∷ xs) s d used =
      let (below, busy) = used x (ground arith) in
      elim (bfree_ends sb s x) [
        | inr (free, bad) ↦ absurd (busy free)
        | inl (in_use, f) ↦
            let rest = all_freed xs f.after d.1 λ a h.
              let (a_below, a_busy) = used a (ground (arith, h)) in
              let now = f.changed.map a a_below in
              let differs : a ≢ x =
                λ e. let twice : has x xs ≡ true = rw e at h in ground (arith, twice, d.0) in
              (a_below, ground (arith, now, differs, a_busy)) in
            record {
              after = rest.after;
              returns = rw (f.returns, free_all) (rest.returns);
              map = λ a h.
                  let now = f.changed.map a h in
                  let later = rest.map a h in ground (arith, now, later);
              frame = λ c h.
                  let other = h x below in
                  rest.frame c h ∙ f.changed.frame c (ground (arith, other));
            }
      ]

  -- The nonzero ones of `left` numbers from the `i`-th on.
  unfoldable pub nonzero : (ℕ → ℕ) → (left i : ℕ) → List ℕ
  nonzero w zero i = []
  nonzero w (suc left) i =
      let rest = nonzero w left (i + 1) in if w i == 0 then rest else w i ∷ rest

  free_listed_all :
      (d : ℕ → ℕ) (left j : ℕ) (s : Blocks)
      → free_listed sb d left j s ≡ free_all (nonzero (load_words d 0) left j) s
  unfolding free_listed free_all nonzero
  free_listed_all d zero j s = refl
  free_listed_all d (suc left) j s = elim (Bool-cases (load_words d 0 j == 0)) [
    | inl e ↦ rw (e, free_listed, nonzero) (free_listed_all d left (j + 1) s)
    | inr e ↦ elim (Result-cases (bfree sb (load_words d 0 j) s)) [
      | inr (t, q) ↦ rw (e, free_listed, nonzero, q, free_all) (free_listed_all d left (j + 1) t)
      | inl (m, q) ↦ rw (e, free_listed, nonzero, q, free_all) refl
    ]
  ]

  nonzero_cong :
      (w v : ℕ → ℕ) (left i : ℕ)
      → ((k : ℕ) → i ≤ k → w k ≡ v k)
      → nonzero w left i ≡ nonzero v left i
  unfolding nonzero
  nonzero_cong w v zero i same = refl
  nonzero_cong w v (suc left) i same =
      rw (same i (omega arith), nonzero_cong w v left (i + 1) λ k l. same k (omega arith)) refl

  -- The direct blocks, each freed, and their addresses cleared.
  record Cleared (left i : ℕ) (p : Inode) (s t : Blocks) : Type 0 where
    inode : Inode
    returns : free_direct sb left i p s ≡ ok (inode, t)
    addrs : (k : ℕ) → inode.addrs k ≡ (if leb i k && ltb k (i + left) then 0 else p.addrs k)
    same_inum : inode.inum ≡ p.inum

  free_direct-Cleared :
      (left i : ℕ) (p : Inode) (s t : Blocks)
      → free_all (nonzero p.addrs left i) s ≡ ok t
      → Cleared left i p s t
  unfolding free_direct free_all nonzero
  free_direct-Cleared zero i p s t h = record {
    inode = p;
    returns = ground (arith, h);
    addrs = λ k. ground arith;
    same_inum = refl;
  }
  free_direct-Cleared (suc left) i p s t h = elim (Bool-cases (p.addrs i == 0)) [
    | inl e ↦
        let c = free_direct-Cleared left (i + 1) p s t (rw (e, nonzero) at h) in
        record {
          inode = c.inode;
          returns = rw (e, free_direct) (c.returns);
          addrs = λ k. elim (Bool-cases (k == i)) [
            | inl f ↦ let here : k ≡ i = ground arith in ground (arith, c.addrs i, here, e, f)
            | inr f ↦ ground (arith, c.addrs k, f)
          ];
          same_inum = c.same_inum;
        }
    | inr e ↦ elim (Result-cases (bfree sb (p.addrs i) s)) [
      | inl (m, q) ↦ let bad : panic m ≡ ok t = rw (e, nonzero, q, free_all) at h in cc
      | inr (u, q) ↦
          let cleared = with_addr i 0 p in
          let same : nonzero p.addrs left (i + 1) ≡ nonzero cleared.addrs left (i + 1) =
            nonzero_cong p.addrs cleared.addrs left (i + 1) λ k l. ground arith in
          let rest : free_all (nonzero p.addrs left (i + 1)) u ≡ ok t =
            rw (e, nonzero, q, free_all) at h in
          let c = free_direct-Cleared left (i + 1) cleared u t (rw same at rest) in
          record {
            inode = c.inode;
            returns = rw (e, q, free_direct) (c.returns);
            addrs = λ k. elim (Bool-cases (k == i)) [
              | inl f ↦ ground (arith, c.addrs k, f)
              | inr f ↦ ground (arith, c.addrs k, f)
            ];
            same_inum = c.same_inum;
          }
    ]
  ]

  free_all_append :
      (xs ys : List ℕ) (s t : Blocks)
      → free_all (xs ++ ys) s ≡ ok t
      → (u : Blocks) × (free_all xs s ≡ ok u) × (free_all ys u ≡ ok t)
  unfolding free_all
  free_all_append [] ys s t h = (s, refl, h)
  free_all_append (x ∷ xs) ys s t h = elim (Result-cases (bfree sb x s)) [
    | inl (m, q) ↦ let bad : panic m ≡ ok t = rw (q, free_all) at h in cc
    | inr (v, q) ↦
        let (u, first, rest) = free_all_append xs ys v t (rw (q, free_all) at h) in
        (u, rw (q, free_all) first, rest)
  ]

  free_one : (x : ℕ) (s t : Blocks) → free_all (x ∷ []) s ≡ ok t → bfree sb x s ≡ ok t
  unfolding free_all
  free_one x s t h = elim (Result-cases (bfree sb x s)) [
    | inl (m, q) ↦ let bad : panic m ≡ ok t = rw (q, free_all) at h in cc
    | inr (v, q) ↦ q ∙ (rw (q, free_all) at h)
  ]

  -- The inode without its indirect block.
  abbrev unlisted : Inode → Inode
  unlisted q = if q.addrs num_direct == 0 then q else with_addr num_direct 0 q

  unlisted_lem :
      (q : Inode)
      → ((unlisted q).inum ≡ q.inum)
        × ((k : ℕ) → (unlisted q).addrs k ≡ (if k == num_direct then 0 else q.addrs k))
  unlisted_lem q = elim (Bool-cases (q.addrs num_direct == 0)) [
    | inl e ↦ rw e (
      refl,
      λ k. elim (Bool-cases (k == num_direct)) [
        | inl f ↦ let here : k ≡ num_direct = ground arith in rw (f, here) (ground (arith, e))
        | inr f ↦ rw f refl
      ],
    )
    | inr e ↦ rw e (refl, λ k. refl)
  ]

  -- What the indirect block `b` lists, and `b` itself.
  abbrev pub through : (b : ℕ) → Blocks → List ℕ
  through b s =
      if b == 0 then [] else nonzero (load_words (s.content b) 0) num_indirect 0 ++ (b ∷ [])

  -- All blocks of an inode.
  abbrev pub owned : Inode → Blocks → List ℕ
  owned p s = nonzero p.addrs num_direct 0 ++ through (p.addrs num_direct) s

  free_indirect_lem :
      (p : Inode) (s t : Blocks)
      → free_all (through (p.addrs num_direct) s) s ≡ ok t
      → free_indirect sb p s ≡ ok (unlisted p, t)
  unfolding free_indirect free_all
  free_indirect_lem p s t h =
      let b = p.addrs num_direct in
      elim (Bool-cases (b == 0)) [
        | inl e ↦
            let same : ok s ≡ ok t = rw (e, free_all) at h in
            rw (e, free_indirect) (ap (λ r. elim r [ panic m ↦ panic m | ok u ↦ ok (p, u) ]) same)
        | inr e ↦
            let (u, first, rest) =
              free_all_append (nonzero (load_words (s.content b) 0) num_indirect 0) (b ∷ []) s t
                (rw e at h) in
            let listed = free_listed_all (s.content b) num_indirect 0 s ∙ first in
            rw (e, free_indirect, listed, free_one b u t rest) refl
      ]

  pub record Truncated (p : Inode) (s : Blocks) (result : Result (Inode × Blocks)) : Type 0 where
    pub inode : Inode
    pub blocks : Blocks
    pub returns : result ≡ ok (inode, iupdate sb inode blocks)
    pub inum : inode.inum ≡ p.inum
    pub size : inode.size ≡ 0
    pub addrs : (k : ℕ) → inode.addrs k ≡ (if leb k num_direct then 0 else p.addrs k)
    pub map :
        (a : ℕ)
        → a < sb.size
        → map_bit sb (iupdate sb inode blocks) a ≡ (if has a (owned p s) then 0 else map_bit sb s a)

  -- The direct blocks are freed before the indirect block is read, which stays as it is.
  list_stays :
      (p : Inode) (s u : Blocks)
      → Distinct (owned p s)
      → ((a : ℕ) → has a (owned p s) ≡ true → Busy sb s a)
      → free_all (nonzero p.addrs num_direct 0) s ≡ ok u
      → through (p.addrs num_direct) u ≡ through (p.addrs num_direct) s
  list_stays p s u d busy first =
      let b = p.addrs num_direct in
      let direct = nonzero p.addrs num_direct 0 in
      let f = all_freed direct s (prefix-Distinct direct (through b s) d) λ a h.
        let held = busy a (ground (arith, h, has-append a direct (through b s))) in
        (held.below, held.used) in
      elim (Bool-cases (b == 0)) [
        | inl e ↦ rw e refl
        | inr e ↦
            let entries = nonzero (load_words (s.content b) 0) num_indirect 0 in
            let last : has b (entries ++ (b ∷ [])) ≡ true =
              has-append b entries (b ∷ []) ∙ ground arith in
            let mine : has b (owned p s) ≡ true =
              has-append b direct (through b s) ∙ rw (e, last) (ground arith) in
            let same : u.content b ≡ s.content b =
              let is : f.after ≡ u = cc in rw is at (f.frame b ((busy b mine).apart)) in
            rw (e, same) refl
      ]

  -- The inode on the disk is no part of the free map.
  map_bit_updated :
      (q : Inode) (t : Blocks) (a : ℕ)
      → bitmap_block sb a ≢ inode_block sb q.inum
      → map_bit sb (iupdate sb q t) a ≡ map_bit sb t a
  map_bit_updated q t a apart =
      ap (bit (a % bits_per_block % 8))
        (iupdate_frame sb q t (bitmap_block sb a) (a % bits_per_block / 8) (inl apart))

  -- If the blocks of an inode, direct ones, those that its indirect block lists and that block, are
  -- all different and in use, none has a part of the free map, and neither has the block of the inode
  -- itself, then `itrunc` returns, with the inode, without an address or a size, written to the disk;
  -- and on that disk these blocks are free, and each other block is as free as before.
  pub itrunc_ends :
      (p : Inode) (s : Blocks)
      → Distinct (owned p s)
      → ((a : ℕ) → has a (owned p s) ≡ true → Busy sb s a)
      → ((a : ℕ) → a < sb.size → bitmap_block sb a ≢ inode_block sb p.inum)
      → Truncated p s (itrunc sb p s)
  unfolding itrunc
  itrunc_ends p s d busy apart =
      let b = p.addrs num_direct in
      let direct = nonzero p.addrs num_direct 0 in
      let f = all_freed (owned p s) s d λ a h. let held = busy a h in (held.below, held.used) in
      let (u, first, rest) = free_all_append direct (through b s) s f.after (f.returns) in
      let c = free_direct-Cleared num_direct 0 p s u first in
      let kept : c.inode.addrs num_direct ≡ b = c.addrs num_direct in
      let stays = list_stays p s u d busy first in
      let after : free_all (through (c.inode.addrs num_direct) u) u ≡ ok f.after =
        rw (kept, stays) rest in
      let second = free_indirect_lem c.inode u f.after after in
      let left : Inode = record (unlisted c.inode) { size = 0 } in
      let same_inum : left.inum ≡ p.inum = (unlisted_lem c.inode).0 ∙ c.same_inum in
      record {
        inode = left;
        blocks = f.after;
        returns = rw (c.returns, itrunc, second) refl;
        inum = same_inum;
        size = refl;
        addrs = λ k. (unlisted_lem c.inode).1 k ∙ ground (arith, c.addrs k);
        map = λ a h. map_bit_updated left f.after a (rw same_inum (apart a h)) ∙ f.map a h;
      }

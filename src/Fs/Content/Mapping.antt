-- ===== src/Fs/Content/Mapping.antt =====
-- kernel/fs.c: the addresses that `bmap` finds and makes.
use tdt4186_lab.Base.{
  ℕ, ◌-◌, ◌<◌, ◌≡◌, ◌≢◌, ◌⊎◌, inl, inr, refl, sym, ap, ◌∙◌, false, ◌==◌, ltb, if◌then◌else◌, arith,
  Bool-cases,
}
use tdt4186_lab.Fs.Blocks.{Superblock, Blocks, balloc, bitmap_block}
use tdt4186_lab.Fs.Blocks.Alloc.{map_bit, InUse, MapInUse}
use tdt4186_lab.Fs.Blocks.Map.{Given, balloc_ends}
use tdt4186_lab.Fs.Inodes.{Inode, load_words}
use tdt4186_lab.Fs.Content.{num_direct, Mapped, with_addr, allocated, own_block}

-- The address of block `bn` of the inode on the disk, 0 if there is none.
unfoldable pub address : Inode → (bn : ℕ) → Blocks → ℕ
unfolding load_words
address p bn s =
    if ltb bn num_direct
    then p.addrs bn
    else let b = p.addrs num_direct in
      if b == 0 then 0 else load_words (s.content b) 0 (bn - num_direct)

pub address_direct : (p : Inode) (k : ℕ) (s : Blocks) → k < num_direct → address p k s ≡ p.addrs k
unfolding address
address_direct p k s less = ground (arith, less)

address-with_addr :
    (k a : ℕ) (p : Inode) (s : Blocks) (j : ℕ)
    → k < num_direct
    → address (with_addr k a p) j s ≡ (if j == k then a else address p j s)
unfolding address load_words
address-with_addr k a p s j less = elim (Bool-cases (j == k)) [
  | inl e ↦ let same : j ≡ k = ground arith in ground (arith, less, e, same)
  | inr e ↦
      let apart : (num_direct == k) ≡ false = ground (arith, less) in rw (e, address, apart) refl
]

-- The blocks of the free map are blocks of the disk, and marked as in use.
pub record Usable (sb : Superblock) (s : Blocks) : Type 0 where
  pub map_used : MapInUse sb s
  pub map_below : (b : ℕ) → b < sb.size → bitmap_block sb b < sb.size

-- A block that is in use and has no part of the free map.
pub record Busy (sb : Superblock) (s : Blocks) (b : ℕ) : Type 0 where
  pub below : b < sb.size
  pub used : InUse sb s b
  pub apart : (a : ℕ) → a < sb.size → bitmap_block sb a ≢ b

-- The inode has no indirect block, or it is in use.
abbrev pub Listed : Superblock → Inode → Blocks → Type 0
Listed sb p s = (p.addrs num_direct ≡ 0) ⊎ Busy sb s (p.addrs num_direct)

module _ (sb : Superblock) where
  -- What `balloc` leaves as it was, and what it gives.
  pub record Served (s : Blocks) (b : ℕ) (t : Blocks) : Type 0 where
    pub usable : Usable sb t
    pub keeps : (a : ℕ) → Busy sb s a → Busy sb t a × (t.content a ≡ s.content a)
    pub frees : (a : ℕ) → a < sb.size → map_bit sb t a ≡ 0 → map_bit sb s a ≡ 0
    pub gives : (b ≡ 0) ⊎ (Busy sb t b × (map_bit sb s b ≡ 0) × ((i : ℕ) → t.content b i ≡ 0))

  first_free-Served : (s t : Blocks) (b : ℕ) → Usable sb s → Given sb s (b, t) → Served s b t
  first_free-Served s t b u g =
      let apart : (a : ℕ) → a < sb.size → bitmap_block sb a ≢ b =
        λ a h e. u.map_used a h (ap (map_bit sb s) e ∙ g.free) in
      let still : (a : ℕ) → a < sb.size → InUse sb s a → InUse sb t a =
        λ a h used. let now = g.changed.map a h in ground (arith, now, used) in
      record {
        usable = record {
          map_used = λ a h. still (bitmap_block sb a) (u.map_below a h) (u.map_used a h);
          map_below = u.map_below;
        };
        keeps = λ a busy.
            let differs : a ≢ b = λ e. busy.used (ap (map_bit sb s) e ∙ g.free) in
            let other = busy.apart b g.below in
            (
              record {
                below = busy.below;
                used = still a busy.below busy.used;
                apart = busy.apart;
              },
              g.changed.frame a (ground (arith, differs, other)),
            );
        frees = λ a h free. let now = g.changed.map a h in ground (arith, now, free);
        gives = inr (
          record {
            below = g.below;
            used = let now = g.changed.map b g.below in ground (arith, now);
            apart = apart;
          },
          g.free,
          g.zeroed,
        );
      }

  pub balloc-Served : (s : Blocks) → Usable sb s → Served s (balloc sb s).0 (balloc sb s).1
  balloc-Served s u = elim (balloc_ends sb s u.map_used) [
    | inl g ↦ first_free-Served s (balloc sb s).1 (balloc sb s).0 u g
    | inr full ↦ rw (full.unchanged) record {
      usable = u;
      keeps = λ a busy. (busy, refl);
      frees = λ a h free. free;
      gives = inl (full.zero_block);
    }
  ]

  -- The inode after `bmap` of block `bn`: its address is that of the result, and the other blocks
  -- have the addresses that they had. A new address is that of a block that was free.
  pub record Maps (p : Inode) (bn : ℕ) (s : Blocks) (m : Mapped) : Type 0 where
    pub addresses :
        (j : ℕ) → address m.inode j m.blocks ≡ (if j == bn then m.addr else address p j s)
    pub usable : Usable sb m.blocks
    pub listed : Listed sb m.inode m.blocks
    pub origin : (address p bn s ≡ m.addr) ⊎ ((address p bn s ≡ 0) × (map_bit sb s m.addr ≡ 0))

  -- What is read through the indirect block stays if the block does.
  pub addresses_kept :
      (p : Inode) (s t : Blocks) (b : ℕ)
      → Served s b t
      → Listed sb p s
      → Listed sb p t × ((j : ℕ) → address p j t ≡ address p j s)
  unfolding address load_words
  addresses_kept p s t b v l = elim l [
    | inl none_listed ↦ (inl none_listed, λ j. rw (none_listed, address) refl)
    | inr busy ↦
        let (still, same) = v.keeps (p.addrs num_direct) busy in
        (inr still, λ j. rw (same, address) refl)
  ]

  allocated-Maps :
      (k b : ℕ) (p : Inode) (s t : Blocks)
      → k < num_direct
      → p.addrs k ≡ 0
      → Served s b t
      → Listed sb p s
      → Maps p k s (allocated k p (b, t))
  allocated-Maps k b p s t less absent v l =
      let (l1, same) = addresses_kept p s t b v l in
      let before : address p k s ≡ 0 = address_direct p k s less ∙ absent in
      elim (Bool-cases (b == 0)) [
        | inl e ↦
            let zero_block : b ≡ 0 = ground arith in
            rw e record {
              addresses = λ j. elim (Bool-cases (j == k)) [
                | inl f ↦
                    let here : j ≡ k = ground arith in
                    rw (f, here) (same k ∙ (before ∙ sym zero_block))
                | inr f ↦ rw f (same j)
              ];
              usable = v.usable;
              listed = l1;
              origin = inl (before ∙ sym zero_block);
            }
        | inr e ↦ elim v.gives [
          | inl z ↦ absurd (ground (arith, e, z))
          | inr (busy, free, zeroed) ↦
              let apart : (num_direct == k) ≡ false = ground (arith, less) in
              rw e record {
                addresses = λ j.
                    address-with_addr k b p t j less
                    ∙ elim (Bool-cases (j == k)) [ inl f ↦ rw f refl | inr f ↦ rw f (same j) ];
                usable = v.usable;
                listed = rw apart l1;
                origin = inr (before, free);
              }
        ]
      ]

  pub own_direct-Maps :
      (k : ℕ) (p : Inode) (s : Blocks)
      → k < num_direct
      → Usable sb s
      → Listed sb p s
      → Maps p k s (own_block sb k p s)
  unfolding own_block
  own_direct-Maps k p s less u l = elim (Bool-cases (p.addrs k == 0)) [
    | inr e ↦
        rw (e, own_block)
          record {
            addresses = λ j. elim (Bool-cases (j == k)) [
              | inl f ↦ let here : j ≡ k = ground arith in rw (f, here) (address_direct p k s less)
              | inr f ↦ rw f refl
            ];
            usable = u;
            listed = l;
            origin = inl (address_direct p k s less);
          }
    | inl e ↦
        rw (e, own_block)
          (allocated-Maps k (balloc sb s).0 p s (balloc sb s).1 less (ground arith)
            (balloc-Served s u) l)
  ]

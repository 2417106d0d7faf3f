-- ===== src/Fs/Content/Bmap.antt =====
-- kernel/fs.c: what `bmap` does to the addresses of an inode.
use tdt4186_lab.Base.{
  ℕ, ◌+◌, ◌-◌, ◌*◌, ◌^◌, ◌≤◌, ◌<◌, ◌≡◌, ◌≢◌, ◌⊎◌, inl, inr, refl, sym, ap, ◌∙◌, true, false, ◌==◌,
  ltb, if◌then◌else◌, Result, ok, panic, arith, Bool-cases,
}
use tdt4186_lab.Fs.Blocks.{Superblock, Blocks, log_write, balloc}
use tdt4186_lab.Fs.Blocks.Alloc.{map_bit}
use tdt4186_lab.Fs.Inodes.{Inode, store_le, load_words}
use tdt4186_lab.Fs.Content.{
  num_direct, num_indirect, Mapped, with_addr, allocated, entered, own_block, listed_block, bmap,
}
use tdt4186_lab.Fs.Content.Mapping.{
  address, Usable, Busy, Listed, Served, balloc-Served, Maps, addresses_kept, own_direct-Maps,
}
use tdt4186_lab.Fs.Content.Indirect.{
  load_le_zero, address_unlisted, address_listed, address-entry, entry-Usable, entry-Busy,
}

module _ (sb : Superblock) where
  -- With the indirect block found or made: no address has changed.
  record Has (p : Inode) (s : Blocks) (m : Mapped) : Type 0 where
    same : (j : ℕ) → address m.inode j m.blocks ≡ address p j s
    usable : Usable sb m.blocks
    frees : (a : ℕ) → a < sb.size → map_bit sb m.blocks a ≡ 0 → map_bit sb s a ≡ 0
    is_it : m.inode.addrs num_direct ≡ m.addr
    busy : (m.addr ≡ 0) ⊎ ((m.addr ≢ 0) × Busy sb m.blocks m.addr)

  -- A fresh indirect block is full of zeros.
  fresh_list :
      (p : Inode) (b : ℕ) (t : Blocks) (j : ℕ)
      → b ≢ 0
      → ((i : ℕ) → t.content b i ≡ 0)
      → ltb j num_direct ≡ false
      → address (with_addr num_direct b p) j t ≡ 0
  unfolding load_words
  fresh_list p b t j nonzero zeroed far =
      address_listed (with_addr num_direct b p) j t far nonzero
      ∙ load_le_zero 4 (t.content b) (0 + 4 * (j - num_direct)) zeroed

  allocated-Has :
      (b : ℕ) (p : Inode) (s t : Blocks)
      → p.addrs num_direct ≡ 0
      → Served sb s b t
      → Has p s (allocated num_direct p (b, t))
  unfolding address
  allocated-Has b p s t absent v = elim (Bool-cases (b == 0)) [
    | inl e ↦ rw e record {
      same = λ j. rw (absent, address) refl;
      usable = v.usable;
      frees = v.frees;
      is_it = ground (arith, absent, e);
      busy = inl (ground arith);
    }
    | inr e ↦ elim v.gives [
      | inl z ↦ absurd (ground (arith, e, z))
      | inr (busy, free, zeroed) ↦
          let nonzero : b ≢ 0 = ground (arith, e) in
          rw e record {
            same = λ j. elim (Bool-cases (ltb j num_direct)) [
              | inl near ↦ ground (arith, near)
              | inr far ↦
                  fresh_list p b t j nonzero zeroed far ∙ sym (address_unlisted p j s far absent)
            ];
            usable = v.usable;
            frees = v.frees;
            is_it = refl;
            busy = inr (nonzero, busy);
          }
    ]
  ]

  own_block-Has :
      (p : Inode) (s : Blocks) → Usable sb s → Listed sb p s → Has p s (own_block sb num_direct p s)
  unfolding own_block
  own_block-Has p s u l = elim (Bool-cases (p.addrs num_direct == 0)) [
    | inl e ↦
        rw (e, own_block)
          (allocated-Has (balloc sb s).0 p s (balloc sb s).1 (ground arith) (balloc-Served sb s u))
    | inr e ↦
        let nonzero : p.addrs num_direct ≢ 0 = ground arith in
        rw (e, own_block)
          record {
            same = λ j. refl;
            usable = u;
            frees = λ a h free. free;
            is_it = refl;
            busy = elim l [ inl z ↦ absurd (nonzero z) | inr busy ↦ inr (nonzero, busy) ];
          }
  ]

  at_entry :
      (p : Inode) (s : Blocks) (m : Mapped) (bn : ℕ)
      → Has p s m
      → ltb bn num_direct ≡ false
      → m.addr ≢ 0
      → address p bn s ≡ load_words (m.blocks.content m.addr) 0 (bn - num_direct)
  at_entry p s m bn h far nonzero =
      sym (h.same bn)
      ∙ (address_listed m.inode bn m.blocks far (rw (h.is_it) nonzero)
          ∙ ap (λ b. load_words (m.blocks.content b) 0 (bn - num_direct)) h.is_it)

  -- The new entry `b`, or 0, of the indirect block.
  entered-Maps :
      (p : Inode) (s : Blocks) (m : Mapped) (bn b : ℕ) (t : Blocks)
      → sb.size ≤ 2 ^ 32
      → Has p s m
      → ltb bn num_direct ≡ false
      → m.addr ≢ 0
      → Busy sb m.blocks m.addr
      → address p bn s ≡ 0
      → Served sb m.blocks b t
      → Maps sb p bn s (entered (bn - num_direct) m (b, t))
  entered-Maps p s m bn b t small h far nonzero busy before v =
      let list = m.inode.addrs num_direct in
      let listed : Busy sb m.blocks list = rw (h.is_it) busy in
      let (l1, kept) = addresses_kept sb m.inode m.blocks t b v (inr listed) in
      let (still, same) = v.keeps m.addr busy in
      elim (Bool-cases (b == 0)) [
        | inl e ↦
            let zero_block : b ≡ 0 = ground arith in
            rw e record {
              addresses = λ j. elim (Bool-cases (j == bn)) [
                | inl f ↦
                    let here : j ≡ bn = ground arith in
                    rw (f, here) (kept bn ∙ (h.same bn ∙ (before ∙ sym zero_block)))
                | inr f ↦ rw f (kept j ∙ h.same j)
              ];
              usable = v.usable;
              listed = l1;
              origin = inl (before ∙ sym zero_block);
            }
        | inr e ↦ elim v.gives [
          | inl z ↦ absurd (ground (arith, e, z))
          | inr (taken, free, zeroed) ↦
              let fits : b < 2 ^ 32 = omega (arith, small, taken.below) in
              let written = log_write m.addr (store_le 4 m.addr (4 * (bn - num_direct)) b t) in
              let entry : (j : ℕ)
                  → address m.inode j written ≡ (if j == bn then b else address m.inode j t) =
                λ j.
                  rw (h.is_it) at
                    (address-entry m.inode bn b t j far (rw (h.is_it) nonzero) fits) in
              rw e record {
                addresses = λ j. entry j ∙ elim (Bool-cases (j == bn)) [
                  | inl f ↦ rw f refl
                  | inr f ↦ rw f (kept j ∙ h.same j)
                ];
                usable = entry-Usable sb t m.addr (4 * (bn - num_direct)) b still v.usable;
                listed =
                    inr (rw (h.is_it) (entry-Busy sb t m.addr (4 * (bn - num_direct)) b still));
                origin = inr (before, h.frees b taken.below free);
              }
        ]
      ]

  listed_block-Maps :
      (p : Inode) (s : Blocks) (m : Mapped) (bn : ℕ)
      → sb.size ≤ 2 ^ 32
      → Has p s m
      → ltb bn num_direct ≡ false
      → Maps sb p bn s (listed_block sb (bn - num_direct) m)
  unfolding listed_block
  listed_block-Maps p s m bn small h far = elim h.busy [
    | inl z ↦
        let unlisted : m.inode.addrs num_direct ≡ 0 = h.is_it ∙ z in
        let nowhere : address p bn s ≡ 0 =
          sym (h.same bn) ∙ address_unlisted m.inode bn m.blocks far unlisted in
        let nothing : (m.addr == 0) ≡ true = ground (arith, z) in
        rw (nothing, listed_block)
          record {
            addresses = λ j. elim (Bool-cases (j == bn)) [
              | inl f ↦
                  let here : j ≡ bn = ground arith in rw (f, here) (h.same bn ∙ (nowhere ∙ sym z))
              | inr f ↦ rw f (h.same j)
            ];
            usable = h.usable;
            listed = inl unlisted;
            origin = inl (nowhere ∙ sym z);
          }
    | inr (nonzero, busy) ↦
        let n = bn - num_direct in
        let there = at_entry p s m bn h far nonzero in
        let something : (m.addr == 0) ≡ false = ground (arith, nonzero) in
        elim (Bool-cases (load_words (m.blocks.content m.addr) 0 n == 0)) [
          | inl e ↦
              rw (something, e, listed_block)
                (entered-Maps p s m bn (balloc sb m.blocks).0 (balloc sb m.blocks).1 small h far
                  nonzero busy (there ∙ ground arith) (balloc-Served sb m.blocks h.usable))
          | inr e ↦
              rw (something, e, listed_block)
                record {
                  addresses = λ j. elim (Bool-cases (j == bn)) [
                    | inl f ↦ let here : j ≡ bn = ground arith in rw (f, here) (h.same bn ∙ there)
                    | inr f ↦ rw f (h.same j)
                  ];
                  usable = h.usable;
                  listed = inr (rw (h.is_it) busy);
                  origin = inl there;
                }
        ]
  ]

  abbrev pub BmapEnds : Inode → (bn : ℕ) → Blocks → Result Mapped → Type 0
  BmapEnds p bn s (ok m) = (bn < num_direct + num_indirect) × Maps sb p bn s m
  BmapEnds p bn s (panic m) = (num_direct + num_indirect ≤ bn) × (m ≡ "bmap: out of range")

  -- On a disk whose free map is in use itself, and for an inode whose indirect block, if any, is in
  -- use, `bmap` of a block in range returns the address that the inode has for the block then, or
  -- 0; that address is the one from before, or that of a block that was free; the addresses of all
  -- other blocks are as before; and the disk and the indirect block are still such. Out of range it
  -- panics.
  pub bmap_ends :
      (p : Inode) (bn : ℕ) (s : Blocks)
      → sb.size ≤ 2 ^ 32
      → Usable sb s
      → Listed sb p s
      → BmapEnds p bn s (bmap sb p bn s)
  unfolding bmap
  bmap_ends p bn s small u l = elim (Bool-cases (ltb bn num_direct)) [
    | inl near ↦
        let less : bn < num_direct = ground (arith, near) in
        rw (near, bmap) (omega arith, own_direct-Maps sb bn p s less u l)
    | inr far ↦ elim (Bool-cases (ltb (bn - num_direct) num_indirect)) [
      | inl e ↦
          rw (far, e, bmap)
            (
              ground (arith, e, far),
              listed_block-Maps p s (own_block sb num_direct p s) bn small (own_block-Has p s u l)
                  far,
            )
      | inr e ↦ rw (far, e, bmap) (ground (arith, e, far), refl)
    ]
  ]

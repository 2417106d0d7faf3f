-- ===== src/Fs/Data/Ends.antt =====
-- kernel/fs.c: how `writei` ends.
use tdt4186_lab.Base.{
  ℕ, zero, suc, ◌+◌, ◌-◌, ◌/◌, ◌%◌, ◌^◌, ◌≤◌, ◌<◌, ◌≡◌, ◌≢◌, ◌⊎◌, inl, inr, refl, sym, ap, ◌∙◌,
  Bool, true, false, ◌==◌, ◌||◌, ltb, if◌then◌else◌, none, some, Result, ok, arith, Bool-cases,
}
use tdt4186_lab.Fs.Blocks.{Superblock, Blocks, block_size, log_write}
use tdt4186_lab.Fs.Inodes.{Inode, load_words, inode_block, iupdate}
use tdt4186_lab.Fs.Inodes.OnDisk.{iupdate_frame}
use tdt4186_lab.Fs.Content.{num_direct, bmap}
use tdt4186_lab.Fs.Content.Mapping.{address}
use tdt4186_lab.Fs.Content.Found.{bmap_found}
use tdt4186_lab.Fs.Data.{piece, max_size, Written, write_from, writei}
use tdt4186_lab.Fs.Data.Range.{file_byte, HasBlocks, piece-Piece}
use tdt4186_lab.Fs.Data.Writing.{
  Laid, Gets, with_content, stored-Laid, address_kept, Laid-log_write,
}
use tdt4186_lab.Fs.Data.Pieces.{
  Get, Failed, Holds, LoopEnds, less, there, copy_failed, later_blocks, then_rest,
}

-- What `writei` leaves where its range is one that it accepts.
pub record WriteEnds (source : ℕ → ℕ) (get : Get) (src off n : ℕ) (p : Inode) (s : Blocks)
    (result : Result Written) : Type 0 where
  pub done : ℕ
  pub inode : Inode
  pub blocks : Blocks
  pub le : done ≤ n
  pub returns : result ≡ ok (record { tot = some done; inode = inode; blocks = blocks })
  pub size : inode.size ≡ (if ltb p.size (off + done) then off + done else p.size)
  pub addresses : (j : ℕ) → address inode j blocks ≡ address p j s
  pub holds : Holds source off n done src p s inode blocks
  pub complete : (done ≡ n) ⊎ Failed get src n

in_range :
    (size off n : ℕ)
    → off ≤ size
    → off + n ≤ max_size
    → (ltb size off || ltb (off + n) off || ltb max_size (off + n)) ≡ false
in_range size off n behind fits = ground (arith, behind, fits)

-- The inode with a size, written to its block.
abbrev pub grown : (size : ℕ) → Inode → Inode
grown size p = if ltb p.size size then record p { size = size } else p

module _ (sb : Superblock) (source : ℕ → ℕ) (get : Get) (gets : Gets source get) where
  nothing_left :
      (off left tot src : ℕ) (p : Inode) (s : Blocks)
      → left ≡ 0
      → LoopEnds sb source get gets off left tot src p s
          (ok (record { tot = tot; off = off; inode = p; blocks = s }))
  nothing_left off left tot src p s none_left = record {
    done = 0;
    blocks = s;
    le = omega arith;
    returns =
        ap (λ x. ok (record { tot = x; off = off; inode = p; blocks = s })) (omega arith)
        ∙ ap (λ x. ok (record { tot = tot + 0; off = x; inode = p; blocks = s })) (omega arith);
    addresses = λ j. refl;
    holds = λ i small out. ground arith;
    complete = inl (sym none_left);
  }

  not_zero : (a : ℕ) → a ≢ 0 → (a == 0) ≡ false
  not_zero a h = ground (arith, h)

  write_from_ends :
      (rounds off left tot src : ℕ) (p : Inode) (s : Blocks)
      → left < rounds
      → Laid sb p s
      → HasBlocks p s (off + left)
      → LoopEnds sb source get gets off left tot src p s
          (write_from sb get rounds off left tot src p s)
  unfolding write_from
  write_from_ends zero off left tot src p s enough laid h = absurd (omega (arith, enough))
  write_from_ends (suc rounds) off left tot src p s enough laid h = elim (Bool-cases (left == 0)) [
    | inl e ↦ rw (write_from, e) (nothing_left off left tot src p s (ground (arith, e)))
    | inr e ↦
        let more : 0 < left = ground (arith, e) in
        let at = address p (off / block_size) s in
        let k = piece off left in
        let c = piece-Piece off left more in
        let apart : at ≢ 0 = there sb source get gets off left src p s laid h more in
        let mapped : bmap sb p (off / block_size) s
            ≡ ok (record { addr = at; inode = p; blocks = s }) =
          bmap_found sb p (off / block_size) s
            (less sb source get gets off left src p s laid h more) apart in
        let some_block : (at == 0) ≡ false = not_zero at apart in
        let d : Bool × (ℕ → ℕ) = get src k (off % block_size) (s.content at) in
        let t : Blocks = log_write at (with_content at (d.1) s) in
        elim (Bool-cases (d.0)) [
          | inr f ↦
              rw (write_from, e, mapped, some_block, f)
                (copy_failed sb source get gets off left src p s laid h more tot f)
          | inl f ↦
              let later : HasBlocks p t (off + k + (left - k)) =
                later_blocks sb source get gets off left src p s laid h more in
              let rest =
                write_from_ends rounds (off + k) (left - k) (tot + k) (src + k) p t
                  (omega (arith, enough, c.pos, c.le, more))
                  (Laid-log_write sb p at (with_content at (d.1) s) (
                    stored-Laid sb p s laid (off / block_size) (d.1)
                      (less sb source get gets off left src p s laid h more) apart))
                  later in
              rw (write_from, e, mapped, some_block, f)
                (then_rest sb source get gets off left src p s laid h more tot
                  (write_from sb get rounds (off + k) (left - k) (tot + k) (src + k) p t) f rest)
        ]
  ]

  updated_address :
      (q : Inode) (j : ℕ) (t : Blocks)
      → q.addrs num_direct ≢ inode_block sb q.inum
      → address q j (iupdate sb q t) ≡ address q j t
  updated_address q j t apart =
      address_kept q j t (iupdate sb q t)
        (λ i k. iupdate_frame sb q t (q.addrs num_direct) k (inl apart) i)

  grown_address : (size j : ℕ) (p : Inode) (t : Blocks) → address (grown size p) j t ≡ address p j t
  unfolding address load_words
  grown_address size j p t = elim (Bool-cases (ltb p.size size)) [
    | inl e ↦ rw e refl
    | inr e ↦ rw e refl
  ]

  updated_byte :
      (q : Inode) (k : ℕ) (t : Blocks)
      → q.addrs num_direct ≢ inode_block sb q.inum
      → address q (k / block_size) t ≢ inode_block sb q.inum
      → file_byte q (iupdate sb q t) k ≡ file_byte q t k
  updated_byte q k t unlisted apart =
      ap (λ a. (iupdate sb q t).content a (k % block_size))
        (updated_address q (k / block_size) t unlisted)
      ∙ iupdate_frame sb q t (address q (k / block_size) t) (k % block_size) (inl apart)

  grown_byte :
      (size k : ℕ) (p : Inode) (t : Blocks) → file_byte (grown size p) t k ≡ file_byte p t k
  grown_byte size k p t =
      ap (λ a. t.content a (k % block_size)) (grown_address size (k / block_size) p t)

  grown_fields :
      (size : ℕ) (p : Inode)
      → ((grown size p).addrs ≡ p.addrs)
        × ((grown size p).inum ≡ p.inum)
        × ((grown size p).size ≡ (if ltb p.size size then size else p.size))
  grown_fields size p = elim (Bool-cases (ltb p.size size)) [
    | inl e ↦ rw e (refl, refl, refl)
    | inr e ↦ rw e (refl, refl, refl)
  ]

  finished :
      (src off n : ℕ) (p : Inode) (s : Blocks)
      → Laid sb p s
      → (l : LoopEnds sb source get gets off n 0 src p s
          (write_from sb get (n + 1) off n 0 src p s))
      → (result : Result Written)
      → result
        ≡ ok (record {
          tot = some (0 + l.done);
          inode = grown (off + l.done) p;
          blocks = iupdate sb (grown (off + l.done) p) l.blocks;
        })
      → WriteEnds source get src off n p s result
  finished src off n p s laid l result e =
      let q = grown (off + l.done) p in
      let (same_addrs, same_inum, size) = grown_fields (off + l.done) p in
      let unlisted : q.addrs num_direct ≢ inode_block sb q.inum =
        rw (same_addrs, same_inum) (laid.inode_unlisted) in
      record {
        done = l.done;
        inode = q;
        blocks = iupdate sb q l.blocks;
        le = l.le;
        returns =
            e
            ∙ ap (λ x. ok (record { tot = some x; inode = q; blocks = iupdate sb q l.blocks }))
                (omega arith);
        size = size;
        addresses = λ j.
            updated_address q j l.blocks unlisted
            ∙ (grown_address (off + l.done) j p l.blocks ∙ l.addresses j);
        holds = λ k small out.
            let bn = k / block_size in
            let to_old : address q bn l.blocks ≡ address p bn s =
              grown_address (off + l.done) bn p l.blocks ∙ l.addresses bn in
            let apart : address q bn l.blocks ≢ inode_block sb q.inum =
              rw (to_old, same_inum) (laid.inode_apart bn (omega (arith, small))) in
            updated_byte q k l.blocks unlisted apart
            ∙ (grown_byte (off + l.done) k p l.blocks ∙ l.holds k small out);
        complete = l.complete;
      }

  accepted :
      (src off n : ℕ) (p : Inode) (s : Blocks)
      → off ≤ p.size
      → off + n ≤ max_size
      → Laid sb p s
      → LoopEnds sb source get gets off n 0 src p s (write_from sb get (n + 1) off n 0 src p s)
      → WriteEnds source get src off n p s (writei sb get src off n p s)
  unfolding writei
  accepted src off n p s behind fits laid l =
      let wraps : (off + n) % 2 ^ 32 ≡ off + n = omega (arith, fits) in
      let accepts : (ltb p.size off || ltb (off + n) off || ltb max_size (off + n)) ≡ false =
        in_range p.size off n behind fits in
      finished src off n p s laid l (writei sb get src off n p s)
        (rw (wraps, accepts, l.returns) refl)

  -- For an inode whose blocks are different, none of them the indirect one or that of the inode
  -- itself, and that has the blocks of the range if it accepts it: `writei` returns -1 and changes
  -- nothing exactly if the range starts behind the end of the content or reaches beyond the largest
  -- one. Else it stores the bytes of the source, across blocks, all of them or, if a copy failed,
  -- a first part; no byte outside the range has changed; and the size is that of before, or the end
  -- of what was written, if that is larger.
  pub writei_ends :
      (src off n : ℕ) (p : Inode) (s : Blocks)
      → off < 2 ^ 32
      → n < 2 ^ 32
      → Laid sb p s
      → (off + n ≤ max_size → HasBlocks p s (off + n))
      → (((p.size < off) ⊎ (max_size < off + n))
          × (writei sb get src off n p s ≡ ok (record { tot = none; inode = p; blocks = s })))
        ⊎ ((off ≤ p.size)
            × (off + n ≤ max_size)
            × WriteEnds source get src off n p s (writei sb get src off n p s))
  unfolding writei
  writei_ends src off n p s off_small n_small laid h =
      elim (Bool-cases (ltb p.size off || ltb max_size (off + n))) [
        | inl e ↦
            let refuses : (ltb p.size off
                  || ltb ((off + n) % 2 ^ 32) off
                  || ltb max_size ((off + n) % 2 ^ 32))
                ≡ true =
              ground (arith, e, off_small, n_small) in
            inl (ground (arith, e), rw refuses refl)
        | inr e ↦
            let fits : off + n ≤ max_size = ground (arith, e) in
            let behind : off ≤ p.size = ground (arith, e) in
            inr (
              behind,
              fits,
              accepted src off n p s behind fits laid
                  (write_from_ends (n + 1) off n 0 src p s (omega arith) laid (h fits)),
            )
      ]

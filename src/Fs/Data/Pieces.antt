-- ===== src/Fs/Data/Pieces.antt =====
-- kernel/fs.c: what a round of the loop of `writei` does.
use tdt4186_lab.Base.{
  ℕ, ◌+◌, ◌-◌, ◌/◌, ◌%◌, ◌≤◌, ◌<◌, ◌≡◌, ◌≢◌, ◌⊎◌, inl, inr, refl, sym, ap, ◌∙◌, Bool, true, false,
  ◌==◌, ◌&&◌, ltb, leb, if◌then◌else◌, Result, ok, arith, Bool-cases,
}
use tdt4186_lab.Fs.Blocks.{Superblock, Blocks, block_size, log_write}
use tdt4186_lab.Fs.Inodes.{Inode}
use tdt4186_lab.Fs.Content.Mapping.{address}
use tdt4186_lab.Fs.Data.{piece, max_size, Stop}
use tdt4186_lab.Fs.Data.Range.{file_byte, HasBlocks, Piece, piece-Piece}
use tdt4186_lab.Fs.Data.Writing.{
  max_blocks, Laid, Gets, with_content, stored_address, stored_byte, logged_address, logged_byte,
}

abbrev pub Get : Type 0
Get = (src n o : ℕ) → (ℕ → ℕ) → Bool × (ℕ → ℕ)

-- A copy of a part of the `n` bytes from `src` on failed.
pub record Failed (get : Get) (src n : ℕ) : Type 0 where
  pub from : ℕ
  pub count : ℕ
  pub place : ℕ
  pub old : ℕ → ℕ
  pub inside : (src ≤ from) × (from + count ≤ src + n)
  pub failed : (get from count place old).0 ≡ false

-- What has become of a content: `done` of the `left` bytes from `off` on are those of `source`, and
-- no byte outside the `left` bytes has changed.
abbrev pub Holds :
    (source : ℕ → ℕ) → (off left done src : ℕ) → Inode → Blocks → Inode → Blocks → Type 0
Holds source off left done src p s q t =
    (k : ℕ)
    → k < max_size
    → (k < off + done) ⊎ (off + left ≤ k)
    → file_byte q t k
      ≡ (if leb off k && ltb k (off + done) then source (src + (k - off)) else file_byte p s k)

beside :
    (off left k i : ℕ)
    → k ≤ left
    → off % block_size + k ≤ block_size
    → i / block_size ≡ off / block_size
    → (i < off + 0) ⊎ (off + left ≤ i)
    → (i % block_size < off % block_size) ⊎ (off % block_size + k ≤ i % block_size)
beside off left k i le fits same (inl l) = inl (omega (arith, same, l))
beside off left k i le fits same (inr l) = inr (omega (arith, same, l, le))

within :
    (off k i : ℕ)
    → off % block_size + k ≤ block_size
    → i / block_size ≡ off / block_size
    → ((leb (off % block_size) (i % block_size) && ltb (i % block_size) (off % block_size + k))
        ≡ (leb off i && ltb i (off + k)))
      × (i % block_size - off % block_size ≡ i - off)
within off k i fits same = (ground (arith, same), omega (arith, same))

module _ (sb : Superblock) (source : ℕ → ℕ) (get : Get) (gets : Gets source get) where
  pub record LoopEnds (off left tot src : ℕ) (p : Inode) (s : Blocks) (result : Result Stop)
      : Type 0 where
    pub done : ℕ
    pub blocks : Blocks
    pub le : done ≤ left
    pub returns :
        result ≡ ok (record { tot = tot + done; off = off + done; inode = p; blocks = blocks })
    pub addresses : (j : ℕ) → address p j blocks ≡ address p j s
    pub holds : Holds source off left done src p s p blocks
    pub complete : (done ≡ left) ⊎ Failed get src left

  -- The first piece.
  module _ (off left src : ℕ) (p : Inode) (s : Blocks) (laid : Laid sb p s)
      (h : HasBlocks p s (off + left)) (more : 0 < left) where
    abbrev k : ℕ
    k = piece off left

    abbrev bn : ℕ
    bn = off / block_size

    abbrev new : Bool × (ℕ → ℕ)
    new = get src k (off % block_size) (s.content (address p bn s))

    abbrev after : Blocks
    after = with_content (address p bn s) (new.1) s

    c : Piece off left k
    c = piece-Piece off left more

    pub less : bn < max_blocks
    less = omega (arith, h.bound, more)

    pub there : address p bn s ≢ 0
    there = h.has off (omega (arith, more))

    inside_block : off % block_size + k ≤ block_size
    inside_block = omega (arith, c.offset (k - 1) (omega (arith, c.pos)), c.pos)

    in_block :
        (i : ℕ)
        → (i / block_size == bn) ≡ true
        → s.content (address p bn s) (i % block_size) ≡ file_byte p s i
    in_block i e = ap (λ b. s.content (address p b s) (i % block_size)) (sym (ground (arith, e)))

    not_in_block : (i : ℕ) → (i / block_size == bn) ≡ false → (leb off i && ltb i (off + k)) ≡ false
    not_in_block i e = elim (Bool-cases (leb off i && ltb i (off + k))) [
      | inr f ↦ f
      | inl f ↦
          let at : off + (i - off) ≡ i = ground (arith, f) in
          let same : i / block_size ≡ bn =
            ap (λ x. x / block_size) (sym at) ∙ c.block (i - off) (ground (arith, f)) in
          absurd (ground (arith, e, same))
    ]

    outside_piece : Holds source off left 0 src p s p after
    outside_piece i small out =
        let none_done : (leb off i && ltb i (off + 0)) ≡ false = ground arith in
        rw none_done (
          stored_byte sb p s laid bn (new.1) i small less there
          ∙ elim (Bool-cases (i / block_size == bn)) [
            | inr e ↦ rw e refl
            | inl e ↦
                let same : i / block_size ≡ bn = ground (arith, e) in
                rw e (
                  gets.frame src k (off % block_size) (s.content (address p bn s)) (i % block_size)
                    (beside off left k i c.le inside_block same out)
                  ∙ in_block i e)
          ])

    whole_piece : new.0 ≡ true → Holds source off k k src p s p after
    whole_piece good i small out =
        stored_byte sb p s laid bn (new.1) i small less there
        ∙ elim (Bool-cases (i / block_size == bn)) [
          | inr e ↦ let apart = not_in_block i e in rw (e, apart) refl
          | inl e ↦
              let same : i / block_size ≡ bn = ground (arith, e) in
              let (test, place) = within off k i inside_block same in
              rw e (
                gets.copied src k (off % block_size) (s.content (address p bn s)) good
                  (i % block_size)
                ∙ (ap
                      (λ x.
                        if x
                        then source (src + (i % block_size - off % block_size))
                        else s.content (address p bn s) (i % block_size))
                      test
                    ∙ (ap
                          (λ y.
                            if leb off i && ltb i (off + k)
                            then source (src + y)
                            else s.content (address p bn s) (i % block_size))
                          place
                        ∙ ap
                            (λ z.
                              if leb off i && ltb i (off + k) then source (src + (i - off)) else z)
                            (in_block i e))))
        ]

    pub copy_failed :
        (tot : ℕ)
        → new.0 ≡ false
        → LoopEnds off left tot src p s
            (ok (record { tot = tot; off = off; inode = p; blocks = after }))
    copy_failed tot f = record {
      done = 0;
      blocks = after;
      le = omega arith;
      returns =
          ap (λ x. ok (record { tot = x; off = off; inode = p; blocks = after })) (omega arith)
          ∙ ap (λ x. ok (record { tot = tot + 0; off = x; inode = p; blocks = after }))
              (omega arith);
      addresses = λ j. stored_address sb p s laid bn (new.1) j less there;
      holds = outside_piece;
      complete = inr (record {
        from = src;
        count = k;
        place = off % block_size;
        old = s.content (address p bn s);
        inside = (omega arith, omega (arith, c.le));
        failed = f;
      });
    }

    pub later_blocks : HasBlocks p (log_write (address p bn s) after) (off + k + (left - k))
    later_blocks = record {
      bound = omega (arith, h.bound, c.le);
      has = λ i l.
          rw
            (
              logged_address p (address p bn s) (i / block_size) after,
              stored_address sb p s laid bn (new.1) (i / block_size) less there,
            )
            (h.has i (omega (arith, l, c.le)));
    }

    pub then_rest :
        (tot : ℕ) (result : Result Stop)
        → new.0 ≡ true
        → LoopEnds
            (off + k)
            (left - k)
            (tot + k)
            (src + k)
            p
            (log_write (address p bn s) after)
            result
        → LoopEnds off left tot src p s result
    then_rest tot result good r = record {
      done = k + r.done;
      blocks = r.blocks;
      le = omega (arith, r.le, c.le);
      returns =
          r.returns
          ∙ ap (λ x. ok (record { tot = x; off = off + k + r.done; inode = p; blocks = r.blocks }))
              (omega arith)
          ∙ ap
              (λ x. ok (record { tot = tot + (k + r.done); off = x; inode = p; blocks = r.blocks }))
              (omega arith);
      addresses = λ j.
          r.addresses j
          ∙ logged_address p (address p bn s) j after
          ∙ stored_address sb p s laid bn (new.1) j less there;
      holds = λ i small out.
          r.holds i small (ground (arith, out, c.le))
          ∙ elim (Bool-cases (leb (off + k) i && ltb i (off + k + r.done))) [
            | inl e ↦
                let whole : (leb off i && ltb i (off + (k + r.done))) ≡ true = ground (arith, e) in
                let place : src + k + (i - (off + k)) ≡ src + (i - off) = ground (arith, e) in
                rw (e, whole, place) refl
            | inr e ↦
                let same : (leb off i && ltb i (off + k))
                    ≡ (leb off i && ltb i (off + (k + r.done))) =
                  ground (arith, e) in
                rw e (
                  logged_byte p (address p bn s) i after
                  ∙ whole_piece good i small (ground arith)
                  ∙ ap (λ x. if x then source (src + (i - off)) else file_byte p s i) same)
          ];
      complete = elim (r.complete) [
        | inl e ↦ inl (omega (arith, e, c.le))
        | inr f ↦ inr (record {
          from = f.from;
          count = f.count;
          place = f.place;
          old = f.old;
          inside = let (low, high) = f.inside in (omega (arith, low), omega (arith, high, c.le));
          failed = f.failed;
        })
      ];
    }

-- ===== src/Fs/Data/Reading.antt =====
-- kernel/fs.c: the bytes that `readi` gives.
use tdt4186_lab.Base.{
  ℕ, zero, suc, ◌+◌, ◌-◌, ◌/◌, ◌%◌, ◌^◌, ◌≤◌, ◌<◌, ◌≡◌, ◌≢◌, ◌⊎◌, inl, inr, refl, sym, ap, ◌∙◌,
  Bool, true, false, ◌==◌, ◌&&◌, ◌||◌, ltb, leb, if◌then◌else◌, none, some, Result, ok, arith,
  Bool-cases,
}
use tdt4186_lab.Strings.{Bytes}
use tdt4186_lab.Fs.Blocks.{Superblock, Blocks, block_size}
use tdt4186_lab.Fs.Inodes.{Inode}
use tdt4186_lab.Fs.Content.{bmap}
use tdt4186_lab.Fs.Content.Mapping.{address}
use tdt4186_lab.Fs.Content.Found.{bmap_found}
use tdt4186_lab.Fs.Data.Range.{file_byte, HasBlocks, Piece, piece-Piece}
use tdt4186_lab.Fs.Data.{piece, Read, read_from, readi}

abbrev pub Put : Type 0
Put = (dst : ℕ) → (bytes : ℕ → ℕ) → (n : ℕ) → Bytes → Bool × Bytes

-- What `put` leaves where it succeeds.
abbrev pub Puts : ((dst : ℕ) → (bytes : ℕ → ℕ) → (n : ℕ) → Bytes → Bool × Bytes) → Type 0
Puts put =
    (dst : ℕ) (bytes : ℕ → ℕ) (n : ℕ) (m : Bytes)
    → (put dst bytes n m).0 ≡ true
    → (a : ℕ)
    → (put dst bytes n m).1 a ≡ (if leb dst a && ltb a (dst + n) then bytes (a - dst) else m a)

-- How many of `n` bytes from `off` on there are in a content of `size` bytes; none if their end
-- is beyond the numbers of 32 bits.
abbrev pub available : (off n size : ℕ) → ℕ
available off n size =
    if ltb size off || leb (2 ^ 32) (off + n)
    then 0
    else if ltb size (off + n)
    then size - off
    else n

not_zero : (a : ℕ) → a ≢ 0 → (a == 0) ≡ false
not_zero a h = ground (arith, h)

-- A copy to the memory failed.
pub record PutFailed (put : Put) : Type 0 where
  pub place : ℕ
  pub from : ℕ → ℕ
  pub count : ℕ
  pub mem : Bytes
  pub failed : (put place from count mem).0 ≡ false

-- The bytes of the file from `off` on have been read to `dst`, or a copy has failed.
pub record ReadEnds (put : Put) (off left tot dst : ℕ) (p : Inode) (s : Blocks) (m : Bytes)
    (result : Result Read) : Type 0 where
  pub read : Read
  pub returns : result ≡ ok read
  pub same : (read.inode ≡ p) × (read.blocks ≡ s)
  pub bytes :
      ((read.tot ≡ none) × PutFailed put)
      ⊎ ((read.tot ≡ some (tot + left))
          × ((a : ℕ)
              → read.mem a ≡ (
                  if leb dst a && ltb a (dst + left)
                  then file_byte p s (off + (a - dst))
                  else m a)))

-- The bytes of a piece are those of the file.
piece_bytes :
    (off left k dst : ℕ) (p : Inode) (s : Blocks) (m t : Bytes)
    → Piece off left k
    → ((a : ℕ)
        → t a ≡ (
            if leb dst a && ltb a (dst + k)
            then s.content (address p (off / block_size) s) (off % block_size + (a - dst))
            else m a))
    → (a : ℕ)
    → t a ≡ (if leb dst a && ltb a (dst + k) then file_byte p s (off + (a - dst)) else m a)
piece_bytes off left k dst p s m t c law a =
    law a ∙ elim (Bool-cases (leb dst a && ltb a (dst + k))) [
      | inr g ↦ rw g refl
      | inl g ↦
          let small : a - dst < k = ground (arith, g) in
          let from : file_byte p s (off + (a - dst))
              ≡ s.content (address p (off / block_size) s) (off % block_size + (a - dst)) =
            ap (λ b. s.content (address p b s) ((off + (a - dst)) % block_size))
              (c.block (a - dst) small)
            ∙ ap (s.content (address p (off / block_size) s)) (c.offset (a - dst) small) in
          rw g (sym from)
    ]

-- A piece of `k` bytes and then the rest.
then_rest :
    (put : Put) (off left tot dst k : ℕ) (p : Inode) (s : Blocks) (m t : Bytes)
    (result : Result Read)
    → k ≤ left
    → ((a : ℕ)
        → t a ≡ (if leb dst a && ltb a (dst + k) then file_byte p s (off + (a - dst)) else m a))
    → ReadEnds put (off + k) (left - k) (tot + k) (dst + k) p s t result
    → ReadEnds put off left tot dst p s m result
then_rest put off left tot dst k p s m t result le bytes r = record {
  read = r.read;
  returns = r.returns;
  same = r.same;
  bytes = elim (r.bytes) [
    | inl failed ↦ inl failed
    | inr (all, rest) ↦ inr (
      all ∙ ap some (omega (arith, le)),
      λ a. rest a ∙ elim (Bool-cases (leb (dst + k) a && ltb a (dst + k + (left - k)))) [
        | inl e ↦
            let whole : (leb dst a && ltb a (dst + left)) ≡ true = ground (arith, e, le) in
            let at : off + k + (a - (dst + k)) ≡ off + (a - dst) = ground (arith, e) in
            rw (e, whole, at) refl
        | inr e ↦
            let same : (leb dst a && ltb a (dst + k)) ≡ (leb dst a && ltb a (dst + left)) =
              ground (arith, e, le) in
            rw e (bytes a ∙ ap (λ x. if x then file_byte p s (off + (a - dst)) else m a) same)
      ],
    )
  ];
}

module _ (sb : Superblock) (put : (dst : ℕ) → (bytes : ℕ → ℕ) → (n : ℕ) → Bytes → Bool × Bytes)
    (puts : Puts put) where
  read_from_ends :
      (rounds off left tot dst : ℕ) (p : Inode) (s : Blocks) (m : Bytes)
      → left < rounds
      → HasBlocks p s (off + left)
      → ReadEnds put off left tot dst p s m (read_from sb put rounds off left tot dst p s m)
  unfolding read_from
  read_from_ends zero off left tot dst p s m enough h = absurd (omega (arith, enough))
  read_from_ends (suc rounds) off left tot dst p s m enough h = elim (Bool-cases (left == 0)) [
    | inl e ↦
        rw (read_from, e)
          record {
            read = record { tot = some tot; inode = p; blocks = s; mem = m };
            returns = refl;
            same = (refl, refl);
            bytes = inr (ap some (ground (arith, e)), λ a. ground (arith, e));
          }
    | inr e ↦
        let more : 0 < left = ground (arith, e) in
        let k = piece off left in
        let c = piece-Piece off left more in
        let a = address p (off / block_size) s in
        let there : a ≢ 0 = h.has off (omega (arith, more)) in
        let mapped : bmap sb p (off / block_size) s
            ≡ ok (record { addr = a; inode = p; blocks = s }) =
          bmap_found sb p (off / block_size) s (omega (arith, h.bound, more)) there in
        let some_block : (a == 0) ≡ false = not_zero a there in
        let from_block : ℕ → ℕ = λ i. s.content a (off % block_size + i) in
        let t : Bool × Bytes = put dst from_block k m in
        elim (Bool-cases (t.0)) [
          | inr f ↦
              rw (read_from, e, mapped, some_block, f)
                record {
                  read = record { tot = none; inode = p; blocks = s; mem = t.1 };
                  returns = refl;
                  same = (refl, refl);
                  bytes = inl (
                    refl,
                    record { place = dst; from = from_block; count = k; mem = m; failed = f },
                  );
                }
          | inl f ↦
              rw (read_from, e, mapped, some_block, f)
                (then_rest put off left tot dst k p s m t.1
                  (read_from sb put rounds (off + k) (left - k) (tot + k) (dst + k) p s t.1) c.le
                  (piece_bytes off left k dst p s m t.1 c (puts dst from_block k m f))
                  (read_from_ends rounds (off + k) (left - k) (tot + k) (dst + k) p s t.1
                    (omega (arith, enough, c.pos, c.le, more))
                    (record {
                      bound = omega (arith, h.bound, c.le);
                      has = λ i l. h.has i (omega (arith, l, c.le));
                    })))
        ]
  ]

  -- If the inode has a block for each byte of its content: `readi` ends, with the inode and the disk
  -- as they were; either a copy has failed, and it returns -1; or it returns how many of the `n`
  -- bytes from `off` on there are before the end of the content, and these bytes are in the memory
  -- from `dst` on, and no other byte there has changed.
  pub readi_ends :
      (dst off n : ℕ) (p : Inode) (s : Blocks) (m : Bytes)
      → off < 2 ^ 32
      → n < 2 ^ 32
      → HasBlocks p s p.size
      → ReadEnds put off (available off n p.size) 0 dst p s m (readi sb put dst off n p s m)
  unfolding readi
  readi_ends dst off n p s m o_small n_small h =
      elim (Bool-cases (ltb p.size off || leb (2 ^ 32) (off + n))) [
        | inl e ↦
            let nothing : (ltb p.size off || ltb ((off + n) % 2 ^ 32) off) ≡ true =
              ground (arith, e, o_small, n_small) in
            rw (e, nothing)
              record {
                read = record { tot = some 0; inode = p; blocks = s; mem = m };
                returns = refl;
                same = (refl, refl);
                bytes = inr (refl, λ a. ground arith);
              }
        | inr e ↦
            let fits : (off + n) % 2 ^ 32 ≡ off + n = ground (arith, e) in
            let some_bytes : (ltb p.size off || ltb (off + n) off) ≡ false = ground (arith, e) in
            rw (e, fits, some_bytes)
              (elim (Bool-cases (ltb p.size (off + n))) [
                | inl f ↦
                    let inside : off + (p.size - off) ≤ p.size = ground (arith, e) in
                    rw f (
                      read_from_ends (p.size - off + 1) off (p.size - off) 0 dst p s m (omega arith)
                        (record {
                          bound = omega (arith, h.bound, inside);
                          has = λ k l. h.has k (omega (arith, l, inside));
                        }))
                | inr f ↦
                    let inside : off + n ≤ p.size = ground (arith, f) in
                    rw f (
                      read_from_ends (n + 1) off n 0 dst p s m (omega arith) (record {
                        bound = omega (arith, h.bound, inside);
                        has = λ k l. h.has k (omega (arith, l, inside));
                      }))
              ])
      ]

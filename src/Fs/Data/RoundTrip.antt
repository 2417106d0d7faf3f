-- ===== src/Fs/Data/RoundTrip.antt =====
-- kernel/fs.c: `readi` after `writei`.
use tdt4186_lab.Base.{
  ℕ, ◌+◌, ◌-◌, ◌/◌, ◌≤◌, ◌<◌, ◌≡◌, ◌⊎◌, inl, inr, refl, subst, ap, ◌∙◌, true, ◌&&◌, ltb, leb,
  if◌then◌else◌, none, some, Result, ok, arith, Bool-cases,
}
use tdt4186_lab.Strings.{Bytes}
use tdt4186_lab.Fs.Blocks.{Superblock, Blocks, block_size}
use tdt4186_lab.Fs.Inodes.{Inode}
use tdt4186_lab.Fs.Data.{max_size, Read, Written, readi, writei}
use tdt4186_lab.Fs.Data.Range.{file_byte, HasBlocks}
use tdt4186_lab.Fs.Data.Reading.{available, Put, PutFailed, Puts, ReadEnds, readi_ends}
use tdt4186_lab.Fs.Data.Writing.{Laid, Gets}
use tdt4186_lab.Fs.Data.Pieces.{Get, Failed}
use tdt4186_lab.Fs.Data.Ends.{WriteEnds, writei_ends}

-- `n` bytes of `source` from `src` on are in the memory, from `dst` on, or a copy has failed.
pub record Echo (put : Put) (source : ℕ → ℕ) (src dst n : ℕ) (m : Bytes) (result : Result Read)
    : Type 0 where
  pub read : Read
  pub returns : result ≡ ok read
  pub bytes :
      ((read.tot ≡ none) × PutFailed put)
      ⊎ ((read.tot ≡ some n)
          × ((a : ℕ)
              → read.mem a
                ≡ (if leb dst a && ltb a (dst + n) then source (src + (a - dst)) else m a)))

pub record ThenRead (sb : Superblock) (put : Put) (source : ℕ → ℕ) (get : Get) (src off n : ℕ)
    (result : Result Written) : Type 0 where
  pub done : ℕ
  pub inode : Inode
  pub blocks : Blocks
  pub returns : result ≡ ok (record { tot = some done; inode = inode; blocks = blocks })
  pub complete : (done ≡ n) ⊎ Failed get src n
  pub echo :
      (dst : ℕ) (m : Bytes)
      → Echo put source src dst done m (readi sb put dst off done inode blocks m)

module _ (sb : Superblock) (put : Put) (puts : Puts put) (source : ℕ → ℕ) (get : Get)
    (gets : Gets source get) where
  all_there : (off n size : ℕ) → off + n ≤ max_size → off + n ≤ size → available off n size ≡ n
  all_there off n size fits h = ground (arith, fits, h)

  echoed :
      (src off n done dst : ℕ) (p q : Inode) (s t : Blocks) (m : Bytes) (result : Result Read)
      → off + done ≤ max_size
      → ((k : ℕ)
          → k < max_size
          → k < off + done
          → file_byte q t k ≡ (
              if leb off k && ltb k (off + done)
              then source (src + (k - off))
              else file_byte p s k))
      → ReadEnds put off done 0 dst q t m result
      → Echo put source src dst done m result
  echoed src off n done dst p q s t m result fits holds r = record {
    read = r.read;
    returns = r.returns;
    bytes = elim (r.bytes) [
      | inl failed ↦ inl failed
      | inr (all, bytes) ↦ inr (
        all ∙ ap some (omega arith),
        λ a. bytes a ∙ elim (Bool-cases (leb dst a && ltb a (dst + done))) [
          | inr e ↦ rw e refl
          | inl e ↦
              let k = off + (a - dst) in
              let inside : k < off + done = ground (arith, e) in
              let written : (leb off k && ltb k (off + done)) ≡ true = ground (arith, inside) in
              let place : k - off ≡ a - dst = omega arith in
              let byte = holds k (omega (arith, inside, fits)) inside in
              rw e (
                byte
                ∙ (ap (λ x. if x then source (src + (k - off)) else file_byte p s k) written
                    ∙ ap (λ y. source (src + y)) place))
        ],
      )
    ];
  }

  read_back :
      (src off n : ℕ) (p : Inode) (s : Blocks)
      (w : WriteEnds source get src off n p s (writei sb get src off n p s))
      → off + n ≤ max_size
      → HasBlocks p s (off + n)
      → HasBlocks p s p.size
      → (dst : ℕ) (m : Bytes)
      → Echo put source src dst w.done m (readi sb put dst off w.done w.inode w.blocks m)
  read_back src off n p s w fits h g dst m =
      let reaches : off + w.done ≤ w.inode.size = ground (arith, w.size) in
      let whole : available off w.done w.inode.size ≡ w.done =
        all_there off w.done w.inode.size (omega (arith, w.le, fits)) reaches in
      let within : w.inode.size ≤ max_size = ground (arith, w.size, w.le, fits, g.bound) in
      let blocks : HasBlocks w.inode w.blocks w.inode.size = record {
        bound = within;
        has = λ k l. rw (w.addresses (k / block_size)) (elim (Bool-cases (ltb k p.size)) [
          | inl e ↦ g.has k (ground (arith, e))
          | inr e ↦ h.has k (ground (arith, e, l, w.size, w.le))
        ]);
      } in
      let r =
        readi_ends sb put puts dst off w.done w.inode w.blocks m (omega (arith, fits))
          (omega (arith, fits, w.le)) blocks in
      echoed src off n w.done dst p w.inode s w.blocks m
        (readi sb put dst off w.done w.inode w.blocks m) (omega (arith, fits, w.le))
        (λ k small l. w.holds k small (inl l))
        (subst
          (λ x.
            ReadEnds put off x 0 dst w.inode w.blocks m
              (readi sb put dst off w.done w.inode w.blocks m))
          whole r)

  -- For an inode whose blocks are different, none of them the indirect one or that of the inode
  -- itself, with a block for each byte of its content and of a range that begins within the content:
  -- `writei` of the range writes all of its bytes, or a copy from the source has failed; and `readi`
  -- of what it has written gives the bytes of the source back, in the memory at `dst`, with no other
  -- byte there changed, or a copy to the memory has failed.
  pub readi-writei :
      (src off n : ℕ) (p : Inode) (s : Blocks)
      → off ≤ p.size
      → Laid sb p s
      → HasBlocks p s (off + n)
      → HasBlocks p s p.size
      → ThenRead sb put source get src off n (writei sb get src off n p s)
  readi-writei src off n p s behind laid h g =
      elim (writei_ends sb source get gets src off n p s (omega (arith, h.bound))
        (omega (arith, h.bound)) laid (λ l. h)) [
          | inl (inl far, e) ↦ absurd (omega (arith, far, behind))
          | inl (inr far, e) ↦ absurd (omega (arith, far, h.bound))
          | inr (_, _, w) ↦ record {
            done = w.done;
            inode = w.inode;
            blocks = w.blocks;
            returns = w.returns;
            complete = w.complete;
            echo = read_back src off n p s w (h.bound) h g;
          }
        ]

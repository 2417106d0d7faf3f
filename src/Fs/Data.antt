-- ===== src/Fs/Data.antt =====
-- kernel/fs.c: `readi` and `writei`.
--
-- `put` is `either_copyout` and `get` is `either_copyin` for a process and a choice of its memory or
-- the kernel's: whether they succeed, and the bytes that they leave. A round of the loops takes a byte
-- at least, so that a round for each byte and one more are enough.
pub mod Range
pub mod Reading
pub mod Writing
pub mod Pieces
pub mod Ends
pub mod RoundTrip
mod Tests
use tdt4186_lab.Base.{
  ℕ, zero, suc, ◌+◌, ◌-◌, ◌*◌, ◌/◌, ◌%◌, ◌^◌, Bool, true, false, ◌||◌, ◌==◌, ltb, if◌then◌else◌,
  Option, none, some, update, Result, ok, panic,
}
use tdt4186_lab.Strings.{Bytes}
use tdt4186_lab.Fs.Blocks.{Superblock, Blocks, block_size, log_write}
use tdt4186_lab.Fs.Inodes.{Inode, iupdate}
use tdt4186_lab.Fs.Content.{bmap}

-- `min(n - tot, BSIZE - off%BSIZE)`
abbrev pub piece : (off left : ℕ) → ℕ
piece off left = let room = block_size - off % block_size in if ltb left room then left else room

-- What `readi` leaves; `none` is -1.
pub record Read : Type 0 where
  pub tot : Option ℕ
  pub inode : Inode
  pub blocks : Blocks
  pub mem : Bytes

module _ (sb : Superblock)
    (put : (dst : ℕ) → (bytes : ℕ → ℕ) → (n : ℕ) → Bytes → Bool × Bytes) where
  -- The loop of `readi` with `left` bytes to go.
  pub read_from : (rounds off left tot dst : ℕ) → Inode → Blocks → Bytes → Result Read
  unfolding bmap
  read_from zero off left tot dst p s m = panic "rounds"
  read_from (suc rounds) off left tot dst p s m = elim (left == 0) [
    | true ↦ ok (record { tot = some tot; inode = p; blocks = s; mem = m })
    | false ↦ elim (bmap sb p (off / block_size) s) [
      | panic e ↦ panic e
      | ok b ↦ elim (b.addr == 0) [
        | true ↦ ok (record { tot = some tot; inode = b.inode; blocks = b.blocks; mem = m })
        | false ↦
            let k = piece off left in
            let t = put dst (λ i. b.blocks.content b.addr (off % block_size + i)) k m in
            elim (t.0) [
              | false ↦ ok (record { tot = none; inode = b.inode; blocks = b.blocks; mem = t.1 })
              | true ↦
                  read_from rounds (off + k) (left - k) (tot + k) (dst + k) b.inode b.blocks t.1
            ]
      ]
    ]
  ]

  unfoldable pub readi : (dst off n : ℕ) → Inode → Blocks → Bytes → Result Read
  unfolding read_from
  readi dst off n p s m =
      let end_of_it = (off + n) % 2 ^ 32 in
      if ltb p.size off || ltb end_of_it off
      then ok (record { tot = some 0; inode = p; blocks = s; mem = m })
      else let left = if ltb p.size end_of_it then p.size - off else n in
        read_from (left + 1) off left 0 dst p s m

-- What `writei` leaves; its memory is only read.
pub record Written : Type 0 where
  pub tot : Option ℕ
  pub inode : Inode
  pub blocks : Blocks

-- Where the loop of `writei` stops.
pub record Stop : Type 0 where
  pub tot : ℕ
  pub off : ℕ
  pub inode : Inode
  pub blocks : Blocks

-- `MAXFILE*BSIZE`
abbrev pub max_size : ℕ
max_size = 274432

-- `get src n o d` copies to byte `o` of a block that holds `d`.
module _ (sb : Superblock) (get : (src n o : ℕ) → (ℕ → ℕ) → Bool × (ℕ → ℕ)) where
  -- The loop of `writei` with `left` bytes to go.
  pub write_from : (rounds off left tot src : ℕ) → Inode → Blocks → Result Stop
  unfolding bmap
  write_from zero off left tot src p s = panic "rounds"
  write_from (suc rounds) off left tot src p s = elim (left == 0) [
    | true ↦ ok (record { tot = tot; off = off; inode = p; blocks = s })
    | false ↦ elim (bmap sb p (off / block_size) s) [
      | panic e ↦ panic e
      | ok b ↦ elim (b.addr == 0) [
        | true ↦ ok (record { tot = tot; off = off; inode = b.inode; blocks = b.blocks })
        | false ↦
            let k = piece off left in
            let d = get src k (off % block_size) (b.blocks.content b.addr) in
            let t = record (b.blocks) { content = update b.blocks.content b.addr d.1 } in
            elim (d.0) [
              | false ↦ ok (record { tot = tot; off = off; inode = b.inode; blocks = t })
              | true ↦
                  write_from rounds (off + k) (left - k) (tot + k) (src + k) b.inode
                    (log_write b.addr t)
            ]
      ]
    ]
  ]

  unfoldable pub writei : (src off n : ℕ) → Inode → Blocks → Result Written
  unfolding write_from
  writei src off n p s =
      let end_of_it = (off + n) % 2 ^ 32 in
      if ltb p.size off || ltb end_of_it off || ltb max_size end_of_it
      then ok (record { tot = none; inode = p; blocks = s })
      else elim (write_from (n + 1) off n 0 src p s) [
        | panic e ↦ panic e
        | ok w ↦
            let q = if ltb w.inode.size w.off then record w.inode { size = w.off } else w.inode in
            ok (record { tot = some w.tot; inode = q; blocks = iupdate sb q w.blocks })
      ]

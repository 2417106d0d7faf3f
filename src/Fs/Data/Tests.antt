-- ===== src/Fs/Data/Tests.antt =====
-- kernel/fs.c: a file of two blocks that is written across their boundary and read.
use tdt4186_lab.Base.{
  ℕ, ◌+◌, ◌-◌, ◌/◌, ◌≤◌, ◌<◌, ◌≡◌, ◌⊎◌, refl, Bool, true, ◌==◌, ◌&&◌, ltb, leb, if◌then◌else◌, none,
  some, [], Result, ok, panic, arith,
}
use tdt4186_lab.Strings.{Bytes}
use tdt4186_lab.Fs.Blocks.{Superblock, Blocks}
use tdt4186_lab.Fs.Inodes.{Inode, iupdate, store_words}
use tdt4186_lab.Fs.Content.{bmap}
use tdt4186_lab.Fs.Content.Mapping.{address}
use tdt4186_lab.Fs.Data.{max_size, Read, Written, readi, writei}
use tdt4186_lab.Fs.Data.Range.{HasBlocks}
use tdt4186_lab.Fs.Data.Reading.{Puts, ReadEnds, readi_ends}
use tdt4186_lab.Fs.Data.Writing.{Laid, Gets}
use tdt4186_lab.Fs.Data.Ends.{WriteEnds, writei_ends}
use tdt4186_lab.Fs.Data.RoundTrip.{ThenRead, readi-writei}

abbrev sb : Superblock
sb = record { size = 20; ninodes = 16; inodestart = 2; bmapstart = 3 }

abbrev disk : Blocks
disk = record { content = λ b i. b; logged = [] }

abbrev file : Inode
file = record {
  dev = 1;
  inum = 2;
  ref = 1;
  owner = some 7;
  valid = true;
  type = 2;
  major = 0;
  minor = 0;
  nlink = 1;
  size = 2000;
  addrs = λ k. if k == 0 then 5 else if k == 1 then 6 else 0;
}

-- The kernel's memory, in which each byte is its address.
abbrev put : (dst : ℕ) → (bytes : ℕ → ℕ) → (n : ℕ) → Bytes → Bool × Bytes
put dst bytes n m = (true, λ a. if leb dst a && ltb a (dst + n) then bytes (a - dst) else m a)

abbrev get : (src n o : ℕ) → (ℕ → ℕ) → Bool × (ℕ → ℕ)
get src n o d = (true, λ i. if leb o i && ltb i (o + n) then src + (i - o) else d i)

put-Puts : Puts put
put-Puts dst bytes n m good a = refl

get-Gets : Gets (λ a. a) get
get-Gets = record {
  copied = λ src n o d good i. refl;
  frame = λ src n o d i out. ground (arith, out);
}

addresses : (i : ℕ) → address file i disk ≡ (if i == 0 then 5 else if i == 1 then 6 else 0)
unfolding address
addresses i = ground arith

file-Laid : Laid sb file disk
file-Laid = record {
  differ = λ i j hi hj n there same. ground (arith, n, there, same, addresses i, addresses j);
  listed = λ i hi there. there;
  inode_apart = λ i hi same. ground (arith, same, addresses i);
  inode_unlisted = omega arith;
}

blocks_below : (n : ℕ) → n ≤ 2048 → HasBlocks file disk n
blocks_below n small = record {
  bound = omega (arith, small);
  has = λ k l z. let at = addresses (k / 1024) in ground (arith, l, small, z, at);
}

readi_ends_example :
    ReadEnds put 1000 1000 0 9000 file disk
      (λ a. a)
      (readi sb put 9000 1000 4000 file disk (λ a. a))
readi_ends_example =
    readi_ends sb put put-Puts 9000 1000 4000 file disk (λ a. a) (omega arith) (omega arith)
      (blocks_below 2000 (omega arith))

writei_ends_example :
    (((2000 < 1000) ⊎ (max_size < 2040))
      × (writei sb get 300 1000 1040 file disk
          ≡ ok (record { tot = none; inode = file; blocks = disk })))
    ⊎ ((1000 ≤ 2000)
        × (2040 ≤ max_size)
        × WriteEnds (λ a. a) get 300 1000 1040 file disk (writei sb get 300 1000 1040 file disk))
writei_ends_example =
    writei_ends sb (λ a. a) get get-Gets 300 1000 1040 file disk (omega arith) (omega arith)
      file-Laid λ l. blocks_below 2040 (omega arith)

readi-writei_example :
    ThenRead sb put (λ a. a) get 300 1000 1040 (writei sb get 300 1000 1040 file disk)
readi-writei_example =
    readi-writei sb put put-Puts (λ a. a) get get-Gets 300 1000 1040 file disk (omega arith)
      file-Laid (blocks_below 2040 (omega arith)) (blocks_below 2000 (omega arith))

abbrev byte_read : (a : ℕ) → Result Read → ℕ
byte_read a (ok r) = r.mem a
byte_read a (panic e) = 0

read_across : byte_read 9025 (readi sb put 9000 1000 30 file disk (λ a. a)) ≡ 6
unfolding readi bmap
read_across = refl

read_after : Result Written → ℕ
read_after (ok w) = byte_read 9025 (readi sb put 9000 1000 30 w.inode w.blocks (λ a. a))
read_after (panic e) = 0

written_across : read_after (writei sb get 300 1000 30 file disk) ≡ 325
unfolding readi writei bmap read_after iupdate store_words
written_across = refl

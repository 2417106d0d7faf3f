-- ===== src/Fs/Dir/Tests.antt =====
-- kernel/fs.c: a directory of three entries, of which the first one is free.
use tdt4186_lab.Base.{
  ℕ, ◌/◌, ◌<◌, ◌≡◌, ◌≢◌, refl, true, ◌==◌, if◌then◌else◌, Option, none, some, [], Result, ok, panic,
  arith,
}
use tdt4186_lab.Fs.Blocks.{Superblock, Blocks}
use tdt4186_lab.Fs.Inodes.{Inode}
use tdt4186_lab.Fs.Content.{bmap}
use tdt4186_lab.Fs.Content.Mapping.{address}
use tdt4186_lab.Fs.Data.{readi}
use tdt4186_lab.Fs.Dir.{Found, dirlookup, is_named}
use tdt4186_lab.Fs.Dir.Lookup.{IsDir, Ends, dirlookup_ends}

abbrev sb : Superblock
sb = record { size = 20; ninodes = 16; inodestart = 2; bmapstart = 3 }

-- Entries `a` with number 0, `b` with number 3 and `a` with number 4.
abbrev entries : ℕ → ℕ
entries i =
    if i == 2
    then 97
    else if i == 16
    then 3
    else if i == 18
    then 98
    else if i == 32
    then 4
    else if i == 34
    then 97
    else 0

abbrev disk : Blocks
disk = record { content = λ b. entries; logged = [] }

abbrev dir : Inode
dir = record {
  dev = 1;
  inum = 1;
  ref = 1;
  owner = some 7;
  valid = true;
  type = 1;
  major = 0;
  minor = 0;
  nlink = 1;
  size = 48;
  addrs = λ k. if k == 0 then 5 else 0;
}

abbrev name_a : ℕ → ℕ
name_a i = if i == 0 then 97 else 0

first_block : (k : ℕ) → k < 48 → address dir (k / 1024) disk ≢ 0
unfolding address
first_block k less = let low : k / 1024 ≡ 0 = omega (arith, less) in ground (arith, low)

dir-IsDir : IsDir dir disk
dir-IsDir = record {
  type = refl;
  whole = refl;
  has_blocks = record { bound = omega arith; has = first_block };
}

abbrev entry_of : Result Found → Option (ℕ × ℕ)
entry_of (ok f) = f.entry
entry_of (panic e) = none

finds_third : entry_of (dirlookup sb name_a dir disk (λ i. 0)) ≡ some (32, 4)
unfolding dirlookup is_named readi bmap
finds_third = refl

dirlookup_ends_example : Ends sb dir disk dir-IsDir name_a 0 (dirlookup sb name_a dir disk (λ i. 0))
dirlookup_ends_example = dirlookup_ends sb dir disk dir-IsDir name_a (λ i. 0)

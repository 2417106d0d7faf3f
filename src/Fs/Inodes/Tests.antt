-- ===== src/Fs/Inodes/Tests.antt =====
-- kernel/fs.c: a table of two inodes, one of them on the disk, and the theorems about them.
use tdt4186_lab.Base.{
  ℕ, ◌+◌, ◌<◌, ◌∙◌, sym, ap, get_elem?, ◌≡◌, ◌≢◌, ◌⊎◌, zero, suc, refl, false, none, some, [], ◌∷◌,
  arith, ltb, if◌then◌else◌,
}
use tdt4186_lab.Fs.Blocks.{Superblock, Blocks}
use tdt4186_lab.Fs.Inodes.{Inode, Inodes, iget, iupdate, read_inode}
use tdt4186_lab.Fs.Inodes.Table.{Unique, IgetEnds, iget_ends}
use tdt4186_lab.Fs.Inodes.OnDisk.{Fits, ReadBack, read_inode-iupdate}

abbrev sb : Superblock
sb = record { size = 1000; ninodes = 200; inodestart = 32; bmapstart = 45 }

abbrev inode : (inum ref : ℕ) → Inode
inode inum ref = record {
  dev = 1;
  inum = inum;
  ref = ref;
  owner = none;
  valid = false;
  type = 2;
  major = 0;
  minor = 0;
  nlink = 1;
  size = 3000;
  addrs = λ k. if ltb k 3 then 70 + k else 0;
}

abbrev table : Inodes
table = inode 17 2 ∷ inode 18 0 ∷ []

abbrev blank : Blocks
blank = record { content = λ b i. 0; logged = [] }

in_use_first : (i : ℕ) (p : Inode) → get_elem? table i ≡ some p → 0 < p.ref → i ≡ 0
in_use_first zero p there in_use = refl
in_use_first (suc zero) p there in_use =
    let same : inode 18 0 ≡ p = cc in
    let none_in_use : 0 ≡ p.ref = ap (λ (q : Inode). q.ref) same in
    absurd (omega (arith, none_in_use, in_use))
in_use_first (suc (suc i)) p there in_use = cc

table-Unique : Unique table
table-Unique i j p q at_p at_q in_use_p in_use_q dev inum =
    in_use_first i p at_p in_use_p ∙ sym (in_use_first j q at_q in_use_q)

iget_ends_example : IgetEnds 1 40 table (iget 1 40 table)
iget_ends_example = iget_ends 1 40 table table-Unique

small-Fits : Fits (inode 17 2)
small-Fits = record {
  type = omega arith;
  major = omega arith;
  minor = omega arith;
  nlink = omega arith;
  size = omega arith;
  addrs = λ k. ground arith;
}

read_inode-iupdate_example :
    (((inode 17 1).inum ≡ 17)
      × ReadBack (inode 17 2) (read_inode sb (iupdate sb (inode 17 2) blank) (inode 17 1)))
    ⊎ (((inode 17 1).inum ≢ 17)
        × ReadBack
            (read_inode sb blank (inode 17 1))
            (read_inode sb (iupdate sb (inode 17 2) blank) (inode 17 1)))
read_inode-iupdate_example = read_inode-iupdate sb (inode 17 2) (inode 17 1) blank small-Fits

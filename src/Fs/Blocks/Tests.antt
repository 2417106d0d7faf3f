-- ===== src/Fs/Blocks/Tests.antt =====
-- kernel/fs.c: a disk of twenty blocks, of which five are in use, and the theorems about it.
use tdt4186_lab.Base.{◌≡◌, ◌≢◌, ◌⊎◌, refl, sym, ap, ◌∙◌, ◌==◌, if◌then◌else◌, [], arith}
use tdt4186_lab.Fs.Blocks.{Superblock, Blocks, bitmap_block, bit, balloc}
use tdt4186_lab.Fs.Blocks.Alloc.{map_bit, MapInUse, Full}
use tdt4186_lab.Fs.Blocks.Map.{Given, balloc_ends}

abbrev sb : Superblock
sb = record { size = 20; ninodes = 16; inodestart = 2; bmapstart = 3 }

-- Block 3 is the free map.
abbrev disk : Blocks
disk = record { content = λ b i. if b == 3 then (if i == 0 then 31 else 0) else 7; logged = [] }

disk-MapInUse : MapInUse sb disk
unfolding bit
disk-MapInUse b h z =
    let here : bitmap_block sb b ≡ 3 = omega (arith, h) in
    let busy : map_bit sb disk 3 ≢ 0 = omega arith in busy (ap (map_bit sb disk) (sym here) ∙ z)

next_block : (balloc sb disk).0 ≡ 5
unfolding balloc
next_block = refl

balloc_ends_example : Given sb disk (balloc sb disk) ⊎ Full sb disk (balloc sb disk)
balloc_ends_example = balloc_ends sb disk disk-MapInUse

-- ===== src/Fs/Inodes.antt =====
-- kernel/fs.c: `iget`, `idup`, `ilock`, `iunlock` and `iupdate`.
--
-- `itable.inode` is a list, and an inode in memory its place on it. Code under `itable.lock` is one
-- step, and so is code under the sleep-lock of an inode; `owner` is the pid that holds that lock.
pub mod Table
pub mod OnDisk
mod Tests
use tdt4186_lab.Base.{
  ℕ, zero, suc, ◌+◌, ◌-◌, ◌*◌, ◌/◌, ◌%◌, ◌^◌, Bool, true, false, not, ◌&&◌, ◌||◌, ◌==◌, ltb,
  if◌then◌else◌, Option, none, some, List, [], ◌∷◌, update, get_elem?, Result, ok, panic,
}
use tdt4186_lab.Fs.Blocks.{Superblock, Blocks, store, log_write}

pub record Inode : Type 0 where
  pub dev : ℕ
  pub inum : ℕ
  pub ref : ℕ
  pub owner : Option ℕ
  pub valid : Bool
  pub type : ℕ
  pub major : ℕ
  pub minor : ℕ
  pub nlink : ℕ
  pub size : ℕ
  pub addrs : ℕ → ℕ

abbrev pub Inodes : Type 0
Inodes = List Inode

abbrev pub is_entry : (dev inum : ℕ) → Inode → Bool
is_entry dev inum p = ltb 0 p.ref && (p.dev == dev && p.inum == inum)

-- Where the loop of `iget` ends: at the entry, or behind the table with the first empty slot.
pub data Sought : Type 0 where
  at : ℕ → Sought
  empty : Option ℕ → Sought

abbrev pub or_else : Option ℕ → ℕ → Option ℕ
or_else none i = some i
or_else (some j) i = some j

-- The loop of `iget` from slot `i` on, with the empty slot that it remembers.
pub iget_from : (dev inum i : ℕ) → Option ℕ → Inodes → Sought
iget_from dev inum i e [] = empty e
iget_from dev inum i e (p ∷ ps) =
    let rest = iget_from dev inum (i + 1) (if p.ref == 0 then or_else e i else e) ps in
    if is_entry dev inum p then at i else rest

unfoldable pub modify : ℕ → (Inode → Inode) → Inodes → Inodes
modify i f [] = []
modify zero f (p ∷ ps) = f p ∷ ps
modify (suc i) f (p ∷ ps) = p ∷ modify i f ps

abbrev pub more : Inode → Inode
more p = record p { ref = p.ref + 1 }

abbrev pub entry : (dev inum : ℕ) → Inode → Inode
entry dev inum p = record p { dev = dev; inum = inum; ref = 1; valid = false }

pub iget : (dev inum : ℕ) → Inodes → Result (ℕ × Inodes)
unfolding iget_from modify
iget dev inum ps = elim (iget_from dev inum 0 none ps) [
  | at i ↦ ok (i, modify i more ps)
  | empty none ↦ panic "iget: no inodes"
  | empty (some i) ↦ ok (i, modify i (entry dev inum) ps)
]

pub idup : ℕ → Inodes → Inodes
unfolding modify
idup i ps = modify i more ps

-- `n` bytes, lowest first.
unfoldable pub store_le : (n b i v : ℕ) → Blocks → Blocks
store_le zero b i v s = s
store_le (suc n) b i v s = store_le n b (i + 1) (v / 256) (store b i (v % 256) s)

unfoldable pub load_le : (n : ℕ) → (ℕ → ℕ) → (i : ℕ) → ℕ
load_le zero d i = 0
load_le (suc n) d i = d i + 256 * load_le n d (i + 1)

-- `memmove(dip->addrs, ip->addrs, sizeof(ip->addrs))`, a word at a time, and the way back.
unfoldable pub store_words : (n b i : ℕ) → (ℕ → ℕ) → (k : ℕ) → Blocks → Blocks
unfolding store_le
store_words zero b i w k s = s
store_words (suc n) b i w k s = store_words n b (i + 4) w (k + 1) (store_le 4 b i (w k) s)

unfoldable pub load_words : (d : ℕ → ℕ) (i : ℕ) → ℕ → ℕ
unfolding load_le
load_words d i k = load_le 4 d (i + 4 * k)

-- `NDIRECT + 1` and `IPB`
abbrev pub num_addrs : ℕ
num_addrs = 13

abbrev pub inodes_per_block : ℕ
inodes_per_block = 16

module _ (sb : Superblock) where
  -- `IBLOCK(inum, sb)`, and the byte of that block at which the inode starts.
  abbrev pub inode_block : ℕ → ℕ
  inode_block inum = inum / inodes_per_block + sb.inodestart

  abbrev pub inode_offset : ℕ → ℕ
  inode_offset inum = inum % inodes_per_block * 64

  unfoldable pub iupdate : Inode → Blocks → Blocks
  iupdate p s =
      let b = inode_block p.inum in
      let o = inode_offset p.inum in
      let s1 = store_le 2 b o p.type s in
      let s2 = store_le 2 b (o + 2) p.major s1 in
      let s3 = store_le 2 b (o + 4) p.minor s2 in
      let s4 = store_le 2 b (o + 6) p.nlink s3 in
      let s5 = store_le 4 b (o + 8) p.size s4 in
      log_write b (store_words num_addrs b (o + 12) p.addrs 0 s5)

  -- What `ilock` reads of an inode that is not valid.
  pub read_inode : Blocks → Inode → Inode
  read_inode s p =
      let d = s.content (inode_block p.inum) in
      let o = inode_offset p.inum in
      record p {
        type = load_le 2 d o;
        major = load_le 2 d (o + 2);
        minor = load_le 2 d (o + 4);
        nlink = load_le 2 d (o + 6);
        size = load_le 4 d (o + 8);
        addrs = λ k. if ltb k num_addrs then load_words d (o + 12) k else p.addrs k;
        valid = true;
      }

  -- `ilock` of the process `pid` when the lock is free; `none` where it sleeps.
  pub ilock : (pid : ℕ) → Blocks → Inode → Option (Result Inode)
  unfolding read_inode
  ilock pid s p = if p.ref == 0 then some (panic "ilock") else elim p.owner [
    | some q ↦ none
    | none ↦
        let held = record p { owner = some pid } in
        let read = read_inode s held in
        some
          (if p.valid then ok held else if read.type == 0 then panic "ilock: no type" else ok read)
  ]

abbrev pub holds : Option ℕ → ℕ → Bool
holds none pid = false
holds (some p) pid = p == pid

pub iunlock : (pid : ℕ) → Inode → Result Inode
iunlock pid p =
    if not (holds p.owner pid) || p.ref == 0
    then panic "iunlock"
    else ok (record p { owner = none })

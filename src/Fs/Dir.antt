-- ===== src/Fs/Dir.antt =====
-- kernel/fs.c: `dirlookup`, up to the `iget` of what it has found, with `strncmp` of kernel/string.c.
--
-- `de` is the local variable of that name, its sixteen bytes from address 0 on. The loop has a round
-- for each entry that starts below the size, and one more.
pub mod Lookup
mod Tests
use tdt4186_lab.Base.{
  ℕ, zero, suc, ◌+◌, ◌-◌, ◌*◌, ◌/◌, Bool, true, false, ◌&&◌, ◌||◌, not, ◌==◌, ltb, leb,
  if◌then◌else◌, Option, none, some, Result, ok, panic,
}
use tdt4186_lab.Strings.{Bytes}
use tdt4186_lab.Fs.Blocks.{Superblock, Blocks}
use tdt4186_lab.Fs.Inodes.{Inode}
use tdt4186_lab.Fs.Data.{Read, readi}

-- `either_copyout` to an address of the kernel: a `memmove` out of the buffer.
abbrev pub put_kernel : (dst : ℕ) → (bytes : ℕ → ℕ) → (n : ℕ) → Bytes → Bool × Bytes
put_kernel dst bytes n m =
    (true, λ a. if leb dst a && ltb a (dst + n) then bytes (a - dst) else m a)

-- `T_DIR` and `DIRSIZ`
abbrev pub t_dir : ℕ
t_dir = 1

abbrev pub name_size : ℕ
name_size = 14

-- `strncmp(p, q, n) == 0`, from byte `i` of both on.
unfoldable pub same_string : (n i : ℕ) → (p q : ℕ → ℕ) → Bool
same_string zero i p q = true
same_string (suc n) i p q = elim (p i == 0 || not (p i == q i)) [
  | true ↦ p i == q i
  | false ↦ same_string n (i + 1) p q
]

-- `namecmp(name, de.name) == 0`
unfoldable pub is_named : (name : ℕ → ℕ) → (de : Bytes) → Bool
unfolding same_string
is_named name de = same_string name_size 0 name (λ i. de (2 + i))

-- `de.inum`
abbrev pub inum_of : Bytes → ℕ
inum_of de = de 0 + 256 * de 1

-- What `dirlookup` leaves: the offset and the number of the entry that it has found.
pub record Found : Type 0 where
  pub entry : Option (ℕ × ℕ)
  pub inode : Inode
  pub blocks : Blocks

module _ (sb : Superblock) where
  -- The loop of `dirlookup`.
  pub lookup_from : (name : ℕ → ℕ) → (rounds off : ℕ) → Inode → Blocks → Bytes → Result Found
  unfolding readi is_named
  lookup_from name zero off p s de = panic "rounds"
  lookup_from name (suc rounds) off p s de = elim (ltb off p.size) [
    | false ↦ ok (record { entry = none; inode = p; blocks = s })
    | true ↦ elim (readi sb put_kernel 0 off 16 p s de) [
      | panic e ↦ panic e
      | ok r ↦ elim (r.tot) [
        | none ↦ panic "dirlookup read"
        | some n ↦ elim (n == 16) [
          | false ↦ panic "dirlookup read"
          | true ↦ elim (not (inum_of r.mem == 0) && is_named name r.mem) [
            | true ↦
                ok
                  (record { entry = some (off, inum_of r.mem); inode = r.inode; blocks = r.blocks })
            | false ↦ lookup_from name rounds (off + 16) r.inode r.blocks r.mem
          ]
        ]
      ]
    ]
  ]

  unfoldable pub dirlookup : (name : ℕ → ℕ) → Inode → Blocks → Bytes → Result Found
  unfolding lookup_from
  dirlookup name p s de =
      if p.type == t_dir
      then lookup_from name (p.size / 16 + 2) 0 p s de
      else panic "dirlookup not DIR"

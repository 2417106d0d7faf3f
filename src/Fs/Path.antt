-- ===== src/Fs/Path.antt =====
-- kernel/fs.c: `skipelem`, `namex`, `namei` and `nameiparent`.
--
-- A path or a name is its characters before the NUL; a name is its first `DIRSIZ` ones, which are all
-- that `namecmp` reads. An inode is its number. `is_dir` and `lookup` are what its type and
-- `dirlookup` say of it; `ref` is its reference count. What `iput` does to an inode that has lost
-- its last reference and its last link is not part of the model.
pub mod Elements
pub mod Walk
mod Tests
use tdt4186_lab.Base.{
  ℕ, zero, suc, ◌+◌, ◌-◌, Bool, true, false, not, ◌&&◌, ◌||◌, ◌==◌, if◌then◌else◌, Option, none,
  some, List, [], ◌∷◌, length, update,
}

-- `DIRSIZ`, `ROOTINO` and '/'
abbrev pub dir_size : ℕ
dir_size = 14

abbrev pub root_ino : ℕ
root_ino = 1

abbrev pub slash : ℕ
slash = 47

abbrev pub Name : Type 0
Name = List ℕ

-- `while(*path == '/') path++`
unfoldable pub skip_slashes : Name → Name
skip_slashes [] = []
skip_slashes (c ∷ cs) = if c == slash then skip_slashes cs else c ∷ cs

-- `while(*path != '/' && *path != 0) path++`: what is passed over, and what is left.
unfoldable pub element : Name → Name
element [] = []
element (c ∷ cs) = if c == slash then [] else c ∷ element cs

unfoldable pub behind : Name → Name
behind [] = []
behind (c ∷ cs) = if c == slash then c ∷ cs else behind cs

unfoldable pub take : ℕ → Name → Name
take zero cs = []
take (suc n) [] = []
take (suc n) (c ∷ cs) = c ∷ take n cs

abbrev pub skip_from : Name → Option (Name × Name)
skip_from [] = none
skip_from (c ∷ cs) = some (take dir_size (element (c ∷ cs)), skip_slashes (behind (c ∷ cs)))

-- `skipelem(path, name)`: the name, and the path that it returns.
unfoldable pub skipelem : Name → Option (Name × Name)
unfolding skip_slashes element behind take
skipelem path = skip_from (skip_slashes path)

abbrev pub Refs : Type 0
Refs = ℕ → ℕ

-- `iget` and `idup`, and `iput`.
abbrev pub grab : ℕ → Refs → Refs
grab i r = update r i (r i + 1)

abbrev pub iput : ℕ → Refs → Refs
iput i r = update r i (r i - 1)

-- An inode, and the last name for the caller of `nameiparent`; or 0.
pub record Found : Type 0 where
  pub result : Option (ℕ × Name)
  pub refs : Refs

abbrev pub fails : Refs → Found
fails r = record { result = none; refs = r }

abbrev pub is_end : Name → Bool
is_end [] = true
is_end (c ∷ cs) = false

-- Where `namex` starts.
abbrev pub starts : (cwd : ℕ) → Name → ℕ
starts cwd [] = cwd
starts cwd (c ∷ cs) = if c == slash then root_ino else cwd

module _ (is_dir : ℕ → Bool) (lookup : ℕ → Name → Option ℕ) where
  -- The loop of `namex` at inode `ip`, where `name` is what the buffer holds.
  pub namex_from : (parent : Bool) → (rounds ip : ℕ) → (name path : Name) → Refs → Found
  unfolding skipelem
  namex_from parent zero ip name path r = fails r
  namex_from parent (suc rounds) ip name path r = elim (skipelem path) [
    | none ↦ if parent then fails (iput ip r) else record { result = some (ip, name); refs = r }
    | some (elem, rest) ↦ elim (is_dir ip) [
      | false ↦ fails (iput ip r)
      | true ↦ elim (parent && is_end rest) [
        | true ↦ record { result = some (ip, elem); refs = r }
        | false ↦ elim (lookup ip elem) [
          | none ↦ fails (iput ip r)
          | some next ↦ namex_from parent rounds next elem rest (iput ip (grab next r))
        ]
      ]
    ]
  ]

  -- Each round takes a character off the path at least, so `length path + 1` rounds are enough.
  pub namex : (parent : Bool) → (cwd : ℕ) → (path : Name) → Refs → Found
  unfolding namex_from
  namex parent cwd path r =
      let ip = starts cwd path in namex_from parent (length path + 1) ip [] path (grab ip r)

  pub namei : (cwd : ℕ) → (path : Name) → Refs → Found
  unfolding namex
  namei cwd path r = namex false cwd path r

  pub nameiparent : (cwd : ℕ) → (path : Name) → Refs → Found
  unfolding namex
  nameiparent cwd path r = namex true cwd path r

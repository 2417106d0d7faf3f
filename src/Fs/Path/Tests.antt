-- ===== src/Fs/Path/Tests.antt =====
-- kernel/fs.c: a root directory with one entry, and the theorem about paths.
use tdt4186_lab.Base.{
  ℕ, ◌≡◌, refl, true, Bool, ◌==◌, if◌then◌else◌, Option, none, some, List, [], ◌∷◌, ◌++◌, arith,
}
use tdt4186_lab.Fs.Path.{Name, skipelem, slash, starts, namex}
use tdt4186_lab.Fs.Path.Elements.{Part, slashes, render, Parted}
use tdt4186_lab.Fs.Path.Walk.{walk, names, Returned, namex-Arrives}

abbrev is_dir : ℕ → Bool
is_dir i = i == 1

-- The entry "a" of the root is inode 7.
abbrev lookup : ℕ → Name → Option ℕ
lookup i [] = none
lookup i (c ∷ cs) = if c == b'a' then some 7 else none

abbrev parts : List Part
parts =
    record { name = b'a' ∷ []; slashes = 2 } ∷ record { name = b'b' ∷ b'b' ∷ []; slashes = 0 } ∷ []

-- The examples in the comment of the source.
skipelem_first :
    skipelem (slash ∷ slash ∷ slash ∷ render parts) ≡ some (b'a' ∷ [], b'b' ∷ b'b' ∷ [])
unfolding skipelem
skipelem_first = refl

no_element : skipelem (slashes 4) ≡ none
unfolding skipelem
no_element = refl

parts-Parted : Parted parts
parts-Parted = (((λ e. cc), (omega arith)), omega arith, ((λ e. cc), (omega arith)))

namex-Arrives_example :
    Returned
      (walk is_dir lookup true (starts 3 (slashes 1 ++ render parts)) [] (names parts))
      (λ i. 1)
      (namex is_dir lookup true 3 (slashes 1 ++ render parts) (λ i. 1))
namex-Arrives_example = namex-Arrives is_dir lookup true 3 1 parts (λ i. 1) parts-Parted

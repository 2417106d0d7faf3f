-- ===== src/Log/Logged.antt =====
-- kernel/log.c: what the blocks of a disk stand for while a log is on it.
use tdt4186_lab.Base.{
  ℕ, ◌+◌, ◌≤◌, ◌<◌, ◌≡◌, ◌⊎◌, refl, false, List, [], ◌∷◌, arith, ◌==◌, if◌then◌else◌, length, has,
  All, Distinct,
}
use tdt4186_lab.Log.{Block, Disk, get_header}

module _ (start : ℕ) where
  -- Block `b` of `d` once the transaction `bs`, logged from `tail` on, is carried out.
  unfoldable pub logged : List ℕ → ℕ → Disk → ℕ → Block
  logged [] tail d b = d b
  logged (x ∷ xs) tail d b = if b == x then d (start + tail + 1) else logged xs (tail + 1) d b

  -- The transaction that the header of `d` commits to.
  abbrev pub header : Disk → List ℕ
  header d = get_header (d start)

  abbrev pub recovered : Disk → ℕ → Block
  recovered d b = logged (header d) 0 d b

  -- The log's own blocks from `tail` on are the same on both disks.
  abbrev pub SameLog : ℕ → ℕ → Disk → Disk → Type 0
  SameLog tail n d e = (b : ℕ) → start + tail < b → b ≤ start + tail + n → d b ≡ e b

  pub logged_of_not_has :
      (bs : List ℕ) (tail : ℕ) (d : Disk) (b : ℕ) → has b bs ≡ false → logged bs tail d b ≡ d b
  unfolding logged
  logged_of_not_has [] tail d b h = refl
  logged_of_not_has (x ∷ xs) tail d b h = ground (arith, logged_of_not_has xs (tail + 1) d b)

  pub logged_same :
      (bs : List ℕ) (tail : ℕ) (d e : Disk) (b : ℕ)
      → SameLog tail (length bs) d e
      → d b ≡ e b
      → logged bs tail d b ≡ logged bs tail e b
  unfolding logged
  logged_same [] tail d e b h q = q
  logged_same (x ∷ xs) tail d e b h q = ground (
    arith,
    h (start + tail + 1) (omega arith) (omega arith),
    logged_same xs (tail + 1) d e b (λ c p r. h c (omega arith) (omega arith)) q,
  )

  -- Carrying a transaction out once more changes nothing.
  pub logged_again :
      (bs : List ℕ) (tail : ℕ) (d e : Disk) (b : ℕ)
      → SameLog tail (length bs) d e
      → d b ≡ logged bs tail e b
      → logged bs tail d b ≡ logged bs tail e b
  unfolding logged
  logged_again [] tail d e b h q = q
  logged_again (x ∷ xs) tail d e b h q = ground (
    arith,
    h (start + tail + 1) (omega arith) (omega arith),
    logged_again xs (tail + 1) d e b (λ c p r. h c (omega arith) (omega arith)),
  )

module _ (start size : ℕ) where
  -- A block outside the log: it is none of the `log.size` blocks from `log.start` on.
  abbrev pub IsHome : ℕ → Type 0
  IsHome b = (b < start) ⊎ (start + size ≤ b)

  -- What a header may list: distinct blocks outside the log, no more than there is room for behind the header.
  pub record IsTransaction (bs : List ℕ) : Type 0 where
    pub homes : All IsHome bs
    pub distinct : Distinct bs
    pub fits : length bs < size

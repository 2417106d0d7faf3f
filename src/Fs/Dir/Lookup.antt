-- ===== src/Fs/Dir/Lookup.antt =====
-- kernel/fs.c: the entry that `dirlookup` finds.
use tdt4186_lab.Base.{
  ℕ, zero, suc, ◌+◌, ◌-◌, ◌*◌, ◌/◌, ◌%◌, ◌≤◌, ◌<◌, ◌≡◌, inl, inr, refl, sym, ap, ◌∙◌, subst, Bool,
  true, false, ◌==◌, ◌&&◌, ◌||◌, not, ltb, leb, if◌then◌else◌, Option, none, some, Result, ok,
  arith, Bool-cases,
}
use tdt4186_lab.Strings.{Bytes}
use tdt4186_lab.Fs.Blocks.{Superblock, Blocks}
use tdt4186_lab.Fs.Inodes.{Inode}
use tdt4186_lab.Fs.Data.{max_size, Read, readi}
use tdt4186_lab.Fs.Data.Range.{file_byte, HasBlocks}
use tdt4186_lab.Fs.Data.Reading.{Puts, ReadEnds, available, readi_ends}
use tdt4186_lab.Fs.Dir.{
  put_kernel, t_dir, same_string, is_named, inum_of, Found, lookup_from, dirlookup,
}

-- The bytes of the entry at offset `off`.
abbrev pub entry_at : Inode → Blocks → (off : ℕ) → ℕ → ℕ
entry_at p s off i = file_byte p s (off + i)

-- An entry is in use and has the name.
abbrev pub is_match : (name : ℕ → ℕ) → (ℕ → ℕ) → Bool
is_match name e = not (inum_of e == 0) && is_named name e

-- From `off` on there is a first entry with the name, or none.
pub LookupEnds : (name : ℕ → ℕ) → (off : ℕ) → Inode → Blocks → Option (ℕ × ℕ) → Type 0
LookupEnds name off p s none =
    (j : ℕ) → off + 16 * j < p.size → is_match name (entry_at p s (off + 16 * j)) ≡ false
LookupEnds name off p s (some (at, inum)) =
    (k : ℕ) × (at ≡ off + 16 * k)
    × (at < p.size)
    × (is_match name (entry_at p s at) ≡ true)
    × (inum ≡ inum_of (entry_at p s at))
    × ((j : ℕ) → j < k → is_match name (entry_at p s (off + 16 * j)) ≡ false)

put_kernel-Puts : Puts put_kernel
put_kernel-Puts dst bytes n m good a = refl

-- Only the first sixteen bytes of an entry are looked at.
same_string-cong :
    (n i : ℕ) (p q r : ℕ → ℕ)
    → ((j : ℕ) → i ≤ j → j < i + n → q j ≡ r j)
    → same_string n i p q ≡ same_string n i p r
unfolding same_string
same_string-cong zero i p q r same = refl
same_string-cong (suc n) i p q r same =
    let here : q i ≡ r i = same i (omega arith) (omega arith) in
    let rest =
      same_string-cong n (i + 1) p q r (λ j l h. same j (omega (arith, l)) (omega (arith, h))) in
    ap
      (λ x. elim (p i == 0 || not (p i == x)) [
        | true ↦ p i == x
        | false ↦ same_string n (i + 1) p q
      ])
      here
    ∙ elim (Bool-cases (p i == 0 || not (p i == r i))) [
      | inl e ↦ rw (e, same_string) refl
      | inr e ↦ rw (e, same_string) rest
    ]

is_match-cong :
    (name d e : ℕ → ℕ) → ((i : ℕ) → i < 16 → d i ≡ e i) → is_match name d ≡ is_match name e
unfolding is_named
is_match-cong name d e same =
    let first : d 0 ≡ e 0 = same 0 (omega arith) in
    let second : d 1 ≡ e 1 = same 1 (omega arith) in
    let named =
      same_string-cong 14 0 name (λ i. d (2 + i)) (λ i. e (2 + i))
        (λ j l h. same (2 + j) (omega (arith, h))) in
    rw (first, second, named) refl

-- An entry that is read: its bytes, with the inode and the disk as they were.
record EntryRead (off : ℕ) (p : Inode) (s : Blocks) (result : Result Read) : Type 0 where
  mem : Bytes
  returns : result ≡ ok (record { tot = some 16; inode = p; blocks = s; mem = mem })
  bytes : (i : ℕ) → i < 16 → mem i ≡ entry_at p s off i

-- A directory: whole entries, with a block for each byte.
pub record IsDir (p : Inode) (s : Blocks) : Type 0 where
  pub type : p.type ≡ t_dir
  pub whole : p.size % 16 ≡ 0
  pub has_blocks : HasBlocks p s p.size

module _ (sb : Superblock) (p : Inode) (s : Blocks) (d : IsDir p s) where
  entry_read :
      (off : ℕ) (de : Bytes) (result : Result Read)
      → ReadEnds put_kernel off 16 0 0 p s de result
      → EntryRead off p s result
  entry_read off de result r = elim (r.bytes) [
    | inl (e, f) ↦ let bad : true ≡ false = f.failed in cc
    | inr (all, bytes) ↦
        let (same_inode, same_blocks) = r.same in
        record {
          mem = r.read.mem;
          returns =
              r.returns
              ∙ ap
                  (λ t. ok (record {
                    tot = t;
                    inode = r.read.inode;
                    blocks = r.read.blocks;
                    mem = r.read.mem;
                  }))
                  all
              ∙ ap
                  (λ q.
                    ok (record {
                      tot = some 16;
                      inode = q;
                      blocks = r.read.blocks;
                      mem = r.read.mem;
                    }))
                  same_inode
              ∙ ap (λ t. ok (record { tot = some 16; inode = p; blocks = t; mem = r.read.mem }))
                  same_blocks;
          bytes = λ i h.
              let inside : (leb 0 i && ltb i (0 + 16)) ≡ true = ground (arith, h) in
              let at : i - 0 ≡ i = omega arith in
              bytes i
              ∙ (ap (λ x. if x then file_byte p s (off + (i - 0)) else de i) inside
                  ∙ ap (λ x. file_byte p s (off + x)) at);
        }
  ]

  readi-EntryRead :
      (off : ℕ) (de : Bytes)
      → off < p.size
      → off % 16 ≡ 0
      → EntryRead off p s (readi sb put_kernel 0 off 16 p s de)
  readi-EntryRead off de less aligned =
      let fits : off + 16 ≤ p.size = omega (arith, less, aligned, d.whole) in
      let small : p.size ≤ max_size = d.has_blocks.bound in
      let whole : available off 16 p.size ≡ 16 = ground (arith, fits, small) in
      entry_read off de (readi sb put_kernel 0 off 16 p s de) (
        subst (λ x. ReadEnds put_kernel off x 0 0 p s de (readi sb put_kernel 0 off 16 p s de))
          whole
          (readi_ends sb put_kernel put_kernel-Puts 0 off 16 p s de (omega (arith, less, small))
            (omega arith) (d.has_blocks)))

  pub record Ends (name : ℕ → ℕ) (off : ℕ) (result : Result Found) : Type 0 where
    pub entry : Option (ℕ × ℕ)
    pub returns : result ≡ ok (record { entry = entry; inode = p; blocks = s })
    pub ends : LookupEnds name off p s entry

  found :
      (name : ℕ → ℕ) (off : ℕ) (mem : Bytes)
      → off < p.size
      → ((i : ℕ) → i < 16 → mem i ≡ entry_at p s off i)
      → is_match name (entry_at p s off) ≡ true
      → Ends name off (ok (record { entry = some (off, inum_of mem); inode = p; blocks = s }))
  unfolding LookupEnds
  found name off mem less bytes named = record {
    entry = some (off, inum_of mem);
    returns = refl;
    ends = (
      0,
      omega arith,
      less,
      named,
      ap (λ x. x + 256 * mem 1) (bytes 0 (omega arith))
          ∙ ap (λ x. entry_at p s off 0 + 256 * x) (bytes 1 (omega arith)),
      λ j h. absurd (omega (arith, h)),
    );
  }

  next_entry : (off j : ℕ) → off + 16 * suc j ≡ off + 16 + 16 * j
  next_entry off j = omega arith

  behind_first :
      (name : ℕ → ℕ) (off k : ℕ)
      → is_match name (entry_at p s off) ≡ false
      → ((j : ℕ) → j < k → is_match name (entry_at p s (off + 16 + 16 * j)) ≡ false)
      → (j : ℕ) → j < suc k
      → is_match name (entry_at p s (off + 16 * j)) ≡ false
  behind_first name off k first rest zero h =
      ap (λ x. is_match name (entry_at p s x)) (omega arith) ∙ first
  behind_first name off k first rest (suc j) h =
      ap (λ x. is_match name (entry_at p s x)) (next_entry off j) ∙ rest j (omega (arith, h))

  none_behind :
      (name : ℕ → ℕ) (off : ℕ)
      → is_match name (entry_at p s off) ≡ false
      → ((j : ℕ)
          → off + 16 + 16 * j < p.size
          → is_match name (entry_at p s (off + 16 + 16 * j)) ≡ false)
      → (j : ℕ) → off + 16 * j < p.size
      → is_match name (entry_at p s (off + 16 * j)) ≡ false
  none_behind name off first rest zero h =
      ap (λ x. is_match name (entry_at p s x)) (omega arith) ∙ first
  none_behind name off first rest (suc j) h =
      ap (λ x. is_match name (entry_at p s x)) (next_entry off j) ∙ rest j (omega (arith, h))

  next_ends :
      (name : ℕ → ℕ) (off : ℕ) (entry : Option (ℕ × ℕ))
      → is_match name (entry_at p s off) ≡ false
      → LookupEnds name (off + 16) p s entry
      → LookupEnds name off p s entry
  unfolding LookupEnds
  next_ends name off none first rest = none_behind name off first rest
  next_ends name off (some (at, inum)) first (k, e, less, named, is, before) =
      (suc k, omega (arith, e), less, named, is, behind_first name off k first before)

  next :
      (name : ℕ → ℕ) (off : ℕ) (result : Result Found)
      → is_match name (entry_at p s off) ≡ false
      → Ends name (off + 16) result
      → Ends name off result
  next name off result first r = record {
    entry = r.entry;
    returns = r.returns;
    ends = next_ends name off r.entry first r.ends;
  }

  lookup_from_ends :
      (name : ℕ → ℕ) (rounds off : ℕ) (de : Bytes)
      → p.size + 16 ≤ off + 16 * rounds
      → off ≤ p.size
      → off % 16 ≡ 0
      → Ends name off (lookup_from sb name rounds off p s de)
  unfolding lookup_from LookupEnds
  lookup_from_ends name zero off de enough below aligned = absurd (omega (arith, enough, below))
  lookup_from_ends name (suc rounds) off de enough below aligned =
      elim (Bool-cases (ltb off p.size)) [
        | inr e ↦
            rw (lookup_from, e)
              record { entry = none; returns = refl; ends = λ j h. absurd (ground (arith, e, h)) }
        | inl e ↦
            let r = readi-EntryRead off de (ground (arith, e)) aligned in
            let same : is_match name (r.mem) ≡ is_match name (entry_at p s off) =
              is_match-cong name (r.mem) (entry_at p s off) (r.bytes) in
            elim (Bool-cases (is_match name (r.mem))) [
              | inl f ↦
                  rw (lookup_from, e, r.returns, f)
                    (found name off (r.mem) (ground (arith, e)) (r.bytes) (sym same ∙ f))
              | inr f ↦
                  let least : off < p.size = ground (arith, e) in
                  rw (lookup_from, e, r.returns, f)
                    (next name off (lookup_from sb name rounds (off + 16) p s r.mem) (sym same ∙ f)
                      (lookup_from_ends name rounds (off + 16) (r.mem) (omega (arith, enough))
                        (omega (arith, least, aligned, d.whole)) (omega (arith, aligned))))
            ]
      ]

  -- Where the entries of a directory are whole and have their blocks: `dirlookup` ends, with the inode
  -- and the disk as they were; it finds the first entry that is in use and has the name in its
  -- fourteen characters, by its offset and its inode number, or nothing if there is none.
  pub dirlookup_ends : (name : ℕ → ℕ) (de : Bytes) → Ends name 0 (dirlookup sb name p s de)
  unfolding dirlookup
  dirlookup_ends name de =
      let is_dir : (p.type == t_dir) ≡ true = ground (arith, d.type) in
      rw is_dir
        (lookup_from_ends name (p.size / 16 + 2) 0 de (omega arith) (omega arith) (omega arith))

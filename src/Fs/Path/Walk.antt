-- ===== src/Fs/Path/Walk.antt =====
-- kernel/fs.c: where `namex` arrives, and the references that it leaves.
use tdt4186_lab.Base.{
  ℕ, zero, suc, ◌+◌, ◌<◌, ◌≡◌, ◌≢◌, refl, Bool, true, false, ◌&&◌, ◌==◌, if◌then◌else◌, Option,
  none, some, List, [], ◌∷◌, ◌++◌, length, map, arith, Bool-cases, Option-cases, inl, inr,
}
use tdt4186_lab.Fs.Path.{
  Name, dir_size, take, Refs, grab, iput, Found, is_end, namex_from, starts, namex,
}
use tdt4186_lab.Fs.Path.Elements.{
  Part, slashes, render, Parted, Is, skipelem_ends, skipelem_part, render-Is, length-render,
  length_lead, tail-Parted, head-IsName, skip_slashes-render,
}

abbrev pub is_nil : List Name → Bool
is_nil [] = true
is_nil (n ∷ ns) = false

abbrev pub names : List Part → List Name
names ps = map (λ p. take dir_size p.name) ps

-- One reference to the inode that was found.
abbrev pub held : Option (ℕ × Name) → ℕ → ℕ
held none i = 0
held (some (ip, name)) i = if i == ip then 1 else 0

is_end-append : (n cs : Name) → n ≢ [] → is_end (n ++ cs) ≡ false
is_end-append [] cs h = absurd (h refl)
is_end-append (c ∷ n) cs h = refl

is_end-render : (ps : List Part) → Parted ps → is_end (render ps) ≡ is_nil (names ps)
is_end-render [] h = refl
is_end-render (p ∷ ps) h =
    is_end-append p.name (slashes p.slashes ++ render ps) (head-IsName p ps h).0

record Arrives (ip : ℕ) (r : Refs) (to : Option (ℕ × Name)) (f : Found) : Type 0 where
  result : f.result ≡ to
  refs : (i : ℕ) → f.refs i + (if i == ip then 1 else 0) ≡ r i + held to i

pub record Returned (to : Option (ℕ × Name)) (r : Refs) (f : Found) : Type 0 where
  pub result : f.result ≡ to
  pub refs : (i : ℕ) → f.refs i ≡ r i + held to i

module _ (is_dir : ℕ → Bool) (lookup : ℕ → Name → Option ℕ) where
  -- From inode `ip` along a list of names, as far as there are directories with entries for them: the
  -- last inode, with the name that led to it; for a parent, the last but one, with the last name.
  unfoldable pub walk : (parent : Bool) → (ip : ℕ) → Name → List Name → Option (ℕ × Name)
  walk parent ip name [] = if parent then none else some (ip, name)
  walk parent ip name (n ∷ ns) =
      let stop = parent && is_nil ns in
      let on : Option (ℕ × Name) = elim (lookup ip n) [
        | none ↦ none
        | some next ↦ walk parent next n ns
      ] in
      if is_dir ip then (if stop then some (ip, n) else on) else none

  namex_from-Arrives :
      (parent : Bool) (rounds ip : ℕ) (name path : Name) (ps : List Part) (r : Refs)
      → Parted ps
      → Is path ps
      → length ps < rounds
      → 0 < r ip
      → Arrives ip r
          (walk parent ip name (names ps))
          (namex_from is_dir lookup parent rounds ip name path r)
  unfolding namex_from walk
  namex_from-Arrives parent zero ip name path ps r h is few in_use = absurd (omega (arith, few))
  namex_from-Arrives true (suc rounds) ip name path [] r h is few in_use =
      rw (skipelem_ends path is, namex_from)
        record { result = refl; refs = λ i. ground (arith, in_use) }
  namex_from-Arrives false (suc rounds) ip name path [] r h is few in_use =
      rw (skipelem_ends path is, namex_from) record { result = refl; refs = λ i. refl }
  namex_from-Arrives parent (suc rounds) ip name path (p ∷ ps) r h is few in_use =
      let n = take dir_size p.name in
      elim (Bool-cases (is_dir ip)) [
        | inr file ↦
            rw (skipelem_part path p ps h is, file, namex_from)
              record { result = refl; refs = λ i. ground (arith, in_use) }
        | inl dir ↦ elim (Bool-cases (parent && is_nil (names ps))) [
          | inl stop ↦
              let end : (parent && is_end (render ps)) ≡ true =
                ground (arith, stop, is_end-render ps (tail-Parted p ps h)) in
              rw (skipelem_part path p ps h is, dir, end, stop, namex_from)
                record { result = refl; refs = λ i. refl }
          | inr go ↦
              let on : (parent && is_end (render ps)) ≡ false =
                ground (arith, go, is_end-render ps (tail-Parted p ps h)) in
              elim (Option-cases (lookup ip n)) [
                | inl missing ↦
                    rw (skipelem_part path p ps h is, dir, on, go, missing, namex_from)
                      record { result = refl; refs = λ i. ground (arith, in_use) }
                | inr (next, there) ↦
                    let r' = iput ip (grab next r) in
                    let ih =
                      namex_from-Arrives parent rounds next n (render ps) ps r' (tail-Parted p ps h)
                        (skip_slashes-render ps (tail-Parted p ps h)) (omega (arith, few))
                        (ground (arith, in_use)) in
                    rw (skipelem_part path p ps h is, dir, on, go, there, namex_from)
                      record { result = ih.result; refs = λ i. ground (arith, ih.refs i, in_use) }
              ]
        ]
      ]

  -- A path is any number of slashes, and then names, each but the last followed by one slash at
  -- least; whatever the path, `namex` starts at the root if there is a leading slash and at the
  -- current directory otherwise, and goes through the names, cut to 14 characters, in order. It returns
  -- the inode that they lead to, or for `nameiparent` the one before and the last name; or 0, if one
  -- of the inodes on the way is no directory or has no entry for the name, or if there is no name for
  -- `nameiparent`. What it returns has one reference more, and no other count is changed.
  pub namex-Arrives :
      (parent : Bool) (cwd lead : ℕ) (ps : List Part) (r : Refs)
      → Parted ps
      → Returned
          (walk parent (starts cwd (slashes lead ++ render ps)) [] (names ps))
          r
          (namex is_dir lookup parent cwd (slashes lead ++ render ps) r)
  unfolding namex
  namex-Arrives parent cwd lead ps r h =
      let path = slashes lead ++ render ps in
      let ip = starts cwd path in
      let arrives =
        namex_from-Arrives parent (length path + 1) ip [] path ps (grab ip r) h
          (render-Is lead ps h) (omega (arith, length-render ps h, length_lead lead (render ps)))
          (ground arith) in
      record { result = arrives.result; refs = λ i. ground (arith, arrives.refs i) }

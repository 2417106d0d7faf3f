-- ===== src/Fs/Inodes/Table.antt =====
-- kernel/fs.c: the entries of the inode table that `iget` finds and makes.
use tdt4186_lab.Base.{
  ℕ, zero, suc, ◌+◌, ◌<◌, ◌≡◌, ◌≢◌, ◌⊎◌, inl, inr, refl, sym, ap, ◌∙◌, true, false, ◌==◌,
  if◌then◌else◌, Option, none, some, [], ◌∷◌, get_elem?, Result, ok, panic, arith, Bool-cases,
  Option-cases,
}
use tdt4186_lab.Fs.Inodes.{
  Inode, Inodes, is_entry, Sought, at, empty, or_else, iget_from, modify, more, entry, iget,
}

module _ (dev inum : ℕ) where
  found_at :
      (i : ℕ) (e : Option ℕ) (ps : Inodes) (k : ℕ)
      → iget_from dev inum i e ps ≡ at k
      → (j : ℕ) × (p : Inode) × (k ≡ i + j)
        × (get_elem? ps j ≡ some p)
        × (is_entry dev inum p ≡ true)
  unfolding iget_from
  found_at i e [] k h = cc
  found_at i e (p ∷ ps) k h = elim (Bool-cases (is_entry dev inum p)) [
    | inl t ↦ let same : i ≡ k = ground (arith, h, t) in (0, p, omega arith, refl, t)
    | inr f ↦
        let e' = if p.ref == 0 then or_else e i else e in
        let (j, q, at_j, there, t) = found_at (i + 1) e' ps k (ground (arith, h, f)) in
        (suc j, q, omega arith, there, t)
  ]

  no_entry :
      (i : ℕ) (e o : Option ℕ) (ps : Inodes)
      → iget_from dev inum i e ps ≡ empty o
      → (j : ℕ) {p : Inode} → get_elem? ps j ≡ some p
      → is_entry dev inum p ≡ false
  unfolding iget_from
  no_entry i e o [] h j there = cc
  no_entry i e o (p ∷ ps) h zero {p = q} there =
      let same : p ≡ q = cc in rw (← same) (ground (arith, h))
  no_entry i e o (p ∷ ps) h (suc j) there =
      no_entry (i + 1) (if p.ref == 0 then or_else e i else e) o ps (ground (arith, h)) j there

  spare_at :
      (i : ℕ) (e : Option ℕ) (ps : Inodes) (k : ℕ)
      → iget_from dev inum i e ps ≡ empty (some k)
      → (e ≡ some k)
        ⊎ ((j : ℕ) × (p : Inode) × (k ≡ i + j) × (get_elem? ps j ≡ some p) × (p.ref ≡ 0))
  unfolding iget_from
  spare_at i e [] k h = inl cc
  spare_at i e (p ∷ ps) k h =
      let e' = if p.ref == 0 then or_else e i else e in
      elim (spare_at (i + 1) e' ps k (ground (arith, h))) [
        | inl here ↦ elim (Option-cases e) [
          | inr (l, q) ↦ inl (ground (arith, here, q))
          | inl q ↦ inr (0, p, ground (arith, here, q), refl, ground (arith, here, q))
        ]
        | inr (j, q, at_j, there, t) ↦ inr (suc j, q, omega arith, there, t)
      ]

  none_kept :
      (i : ℕ) (e : Option ℕ) (ps : Inodes) → iget_from dev inum i e ps ≡ empty none → e ≡ none
  unfolding iget_from
  none_kept i e [] h = cc
  none_kept i e (p ∷ ps) h =
      let rest = none_kept (i + 1) (if p.ref == 0 then or_else e i else e) ps (ground (arith, h)) in
      ground (arith, rest)

  all_used :
      (i : ℕ) (e : Option ℕ) (ps : Inodes)
      → iget_from dev inum i e ps ≡ empty none
      → (j : ℕ) {p : Inode} → get_elem? ps j ≡ some p
      → p.ref ≢ 0
  unfolding iget_from
  all_used i e [] h j there = cc
  all_used i e (p ∷ ps) h zero {p = q} there =
      let same : p ≡ q = cc in
      let rest = none_kept (i + 1) (if p.ref == 0 then or_else e i else e) ps (ground (arith, h)) in
      rw (← same) (ground (arith, rest))
  all_used i e (p ∷ ps) h (suc j) there =
      all_used (i + 1) (if p.ref == 0 then or_else e i else e) ps (ground (arith, h)) j there

-- No two entries in use are for the same inode.
abbrev pub Unique : Inodes → Type 0
Unique ps =
    (i j : ℕ) (p q : Inode)
    → get_elem? ps i ≡ some p
    → get_elem? ps j ≡ some q
    → 0 < p.ref
    → 0 < q.ref
    → p.dev ≡ q.dev
    → p.inum ≡ q.inum
    → i ≡ j

get_elem?-modify :
    (i : ℕ) (f : Inode → Inode) (ps : Inodes) (j : ℕ) {q : Inode}
    → get_elem? (modify i f ps) j ≡ some q
    → (p : Inode) × (get_elem? ps j ≡ some p) × (q ≡ (if j == i then f p else p))
unfolding modify
get_elem?-modify i f [] j h = cc
get_elem?-modify zero f (p ∷ ps) zero h = (p, refl, ground (arith, h))
get_elem?-modify zero f (p ∷ ps) (suc j) {q} h = (q, h, ground arith)
get_elem?-modify (suc i) f (p ∷ ps) zero h = (p, refl, ground (arith, h))
get_elem?-modify (suc i) f (p ∷ ps) (suc j) h =
    let (r, there, e) = get_elem?-modify i f ps j h in (r, there, ground (arith, e))

-- How `iget` can end.
pub record Entry (dev inum : ℕ) (ps : Inodes) (i : ℕ) (p : Inode) (qs : Inodes) : Type 0 where
  pub there : get_elem? ps i ≡ some p
  pub found :
      ((is_entry dev inum p ≡ true) × (qs ≡ modify i more ps))
      ⊎ ((p.ref ≡ 0)
          × (qs ≡ modify i (entry dev inum) ps)
          × ((j : ℕ) (q : Inode) → get_elem? ps j ≡ some q → is_entry dev inum q ≡ false))

pub record NoRoom (dev inum : ℕ) (ps : Inodes) : Type 0 where
  pub absent : (j : ℕ) (q : Inode) → get_elem? ps j ≡ some q → is_entry dev inum q ≡ false
  pub full : (j : ℕ) (q : Inode) → get_elem? ps j ≡ some q → q.ref ≢ 0

-- What was in a slot before `iget` counted one more use of slot `i`.
before_more :
    (ps : Inodes) (i j : ℕ) (p q q' : Inode)
    → 0 < p.ref
    → get_elem? ps i ≡ some p
    → get_elem? ps j ≡ some q'
    → q ≡ (if j == i then more q' else q')
    → 0 < q.ref
    → (0 < q'.ref) × (q'.dev ≡ q.dev) × (q'.inum ≡ q.inum)
before_more ps i j p q q' used at_i at_j is in_use = elim (Bool-cases (j == i)) [
  | inl e ↦
      let here : j ≡ i = ground arith in
      let both : some p ≡ some q' = sym at_i ∙ (ap (get_elem? ps) (sym here) ∙ at_j) in
      let same : p ≡ q' = cc in
      let changed : q ≡ more q' = ground (arith, is, e) in rw changed (rw (← same) used, refl, refl)
  | inr e ↦ let kept : q' ≡ q = ground (arith, is, e) in rw kept (in_use, refl, refl)
]

iget-Unique :
    (dev inum : ℕ) (ps : Inodes) (i : ℕ) (p : Inode) (qs : Inodes)
    → Entry dev inum ps i p qs
    → Unique ps
    → Unique qs
iget-Unique dev inum ps i p qs e v j k q r at_j at_k in_use_q in_use_r same_dev same_inum =
    elim e.found [
      | inl (hit, is) ↦
          let (q', was_j, q_is) = get_elem?-modify i more ps j (rw is at at_j) in
          let (r', was_k, r_is) = get_elem?-modify i more ps k (rw is at at_k) in
          let used : 0 < p.ref = ground (arith, hit) in
          let (used_q, dev_q, inum_q) =
            before_more ps i j p q q' used e.there was_j q_is in_use_q in
          let (used_r, dev_r, inum_r) =
            before_more ps i k p r r' used e.there was_k r_is in_use_r in
          v j k q' r' was_j was_k used_q used_r (dev_q ∙ (same_dev ∙ sym dev_r))
            (inum_q ∙ (same_inum ∙ sym inum_r))
      | inr (spare, is, absent) ↦
          let (q', was_j, q_is) = get_elem?-modify i (entry dev inum) ps j (rw is at at_j) in
          let (r', was_k, r_is) = get_elem?-modify i (entry dev inum) ps k (rw is at at_k) in
          elim (Bool-cases (j == i)) [
            | inl f ↦ elim (Bool-cases (k == i)) [
              | inl g ↦ ground arith
              | inr g ↦
                  ground (arith, absent k r' was_k, q_is, r_is, f, g, same_dev, same_inum, in_use_r)
            ]
            | inr f ↦ elim (Bool-cases (k == i)) [
              | inl g ↦
                  ground (arith, absent j q' was_j, q_is, r_is, f, g, same_dev, same_inum, in_use_q)
              | inr g ↦
                  let same_q : q' ≡ q = ground (arith, q_is, f) in
                  let same_r : r' ≡ r = ground (arith, r_is, g) in
                  v j k q r (was_j ∙ ap some same_q) (was_k ∙ ap some same_r) in_use_q in_use_r
                    same_dev same_inum
            ]
          ]
    ]

Sought-cases : (s : Sought) → ((k : ℕ) × (s ≡ at k)) ⊎ ((o : Option ℕ) × (s ≡ empty o))
Sought-cases (at k) = inl (k, refl)
Sought-cases (empty o) = inr (o, refl)

abbrev pub IgetEnds : (dev inum : ℕ) → Inodes → Result (ℕ × Inodes) → Type 0
IgetEnds dev inum ps (ok (i, qs)) = (p : Inode) × Entry dev inum ps i p qs × Unique qs
IgetEnds dev inum ps (panic m) = (m ≡ "iget: no inodes") × NoRoom dev inum ps

-- In a table in which no two entries in use are for the same inode, `iget` returns the place of the
-- entry for the inode, with one more use; or, if there is no such entry, that of an unused slot,
-- which becomes one; and there are still no two entries for one inode. It panics only if there is
-- neither an entry nor an unused slot.
pub iget_ends : (dev inum : ℕ) (ps : Inodes) → Unique ps → IgetEnds dev inum ps (iget dev inum ps)
unfolding iget
iget_ends dev inum ps v = elim (Sought-cases (iget_from dev inum 0 none ps)) [
  | inl (k, e) ↦
      let (j, p, at_j, there, hit) = found_at dev inum 0 none ps k e in
      let same : j ≡ k = omega (arith, at_j) in
      let en : Entry dev inum ps k p (modify k more ps) = record {
        there = rw (← same) there;
        found = inl (hit, refl);
      } in
      rw (e, iget) (p, en, iget-Unique dev inum ps k p (modify k more ps) en v)
  | inr (none, e) ↦
      rw (e, iget)
        (
          refl,
          record {
            absent = λ j q there. no_entry dev inum 0 none none ps e j there;
            full = λ j q there. all_used dev inum 0 none ps e j there;
          },
        )
  | inr (some k, e) ↦ elim (spare_at dev inum 0 none ps k e) [
    | inl never ↦ cc
    | inr (j, p, at_j, there, spare) ↦
        let same : j ≡ k = omega (arith, at_j) in
        let qs = modify k (entry dev inum) ps in
        let en : Entry dev inum ps k p qs = record {
          there = rw (← same) there;
          found = inr (spare, refl, λ i q t. no_entry dev inum 0 none (some k) ps e i t);
        } in
        rw (e, iget) (p, en, iget-Unique dev inum ps k p qs en v)
  ]
]

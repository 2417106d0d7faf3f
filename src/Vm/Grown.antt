-- ===== src/Vm/Grown.antt =====
-- kernel/vm.c: a table that is added to a page table, and what stays as it was.
use tdt4186_lab.Base.{
  ℕ, zero, suc, ◌+◌, ◌*◌, ◌/◌, ◌<◌, ◌≡◌, ◌⊎◌, inl, inr, refl, sym, ap, ◌∙◌, true, false, ◌==◌, none,
  some, List, ◌∷◌, has, update, arith, Bool-cases,
}
use tdt4186_lab.Vm.{Ram, store, with_page, filled, is_valid, pa_to_pte, pte_to_pa, page_number, px}
use tdt4186_lab.Vm.Tree.{Tables, Tree, lookup_from, OnPath, OnPath-child, levels_apart}

-- The tables of a later state: those of before and new ones, which map nothing new.
pub record Grown (root : ℕ) (old : Tables) (r : Ram) (new : Tables) (s : Ram) : Type 0 where
  pub tree : Tree root new s
  pub extends : (x : ℕ) (y : ℕ × ℕ) → old x ≡ some y → new x ≡ some y
  pub kept :
      (x l y i : ℕ)
      → old x ≡ some (suc l, y)
      → is_valid (r.word x i) ≡ true
      → s.word x i ≡ r.word x i
  pub same :
      (l q vb : ℕ) → OnPath old l q vb → lookup_from l q vb s.word ≡ lookup_from l q vb r.word
  pub fewer : (a : ℕ) → has a s.free ≡ true → has a r.free ≡ true

empty_lookup :
    (level p va : ℕ) (word : ℕ → ℕ → ℕ) → ((i : ℕ) → word p i ≡ 0) → lookup_from level p va word ≡ 0
unfolding lookup_from
empty_lookup zero p va word z = z (px 0 va)
empty_lookup (suc level) p va word z = rw (z (px (suc level) va)) refl

module _ {root : ℕ} {tables : Tables} {r : Ram} (t : Tree root tables r) where
  pub Grown-refl : Grown root tables r tables r
  Grown-refl = record {
    tree = t;
    extends = λ x y h. h;
    kept = λ x l y i h v. refl;
    same = λ l q vb h. refl;
    fewer = λ a h. h;
  }

  module _ (level p va a : ℕ) (rest : List ℕ) where
    -- The table that `walk` adds at a page `a` of the free list, below page `p`.
    abbrev pub added : Ram
    added =
        store p (px (suc level) va) (pa_to_pte a + 1)
          (with_page a (filled 0) (with_page a (filled 5) (record r { free = rest })))

    abbrev pub with_added : Tables
    with_added = update tables a (some (level, page_number (suc level) va))

    entry_new : (i : ℕ) → (p == a) ≡ false → added.word a i ≡ 0
    entry_new i apart =
        let swapped : (a == p) ≡ false = ground (arith, apart) in rw swapped (ground arith)

    pub entry_made : (p == a) ≡ false → added.word p (px (suc level) va) ≡ pa_to_pte a + 1
    entry_made apart = ground arith

    entry_kept :
        (x i : ℕ)
        → (x == a) ≡ false
        → ((x == p) ≡ false) ⊎ ((i == px (suc level) va) ≡ false)
        → added.word x i ≡ r.word x i
    entry_kept x i other (inl e) = rw (e, other) refl
    entry_kept x i other (inr e) = ground (arith, e, other)

    module _ (is_free : r.free ≡ a ∷ rest) (here : OnPath tables (suc level) p va)
        (absent : is_valid (r.word p (px (suc level) va)) ≡ false) where
      is_older : (x : ℕ) (y : ℕ × ℕ) → tables x ≡ some y → (x == a) ≡ false
      is_older x y h = elim (Bool-cases (x == a)) [
        | inr e ↦ e
        | inl e ↦
            let (unused, frame) = t.spare a (rw is_free (ground arith)) in
            let same : x ≡ a = ground arith in
            let both : none ≡ some y = sym unused ∙ (ap tables (sym same) ∙ h) in cc
      ]

      pub apart : (p == a) ≡ false
      apart = is_older p (suc level, page_number (suc (suc level)) va) here

      -- An entry that was valid is as before.
      valid_kept :
          (x i : ℕ) (y : ℕ × ℕ)
          → tables x ≡ some y
          → is_valid (r.word x i) ≡ true
          → added.word x i ≡ r.word x i
      valid_kept x i y h v = entry_kept x i (is_older x y h) (elim (Bool-cases (x == p)) [
        | inr e ↦ inl e
        | inl e ↦ inr (elim (Bool-cases (i == px (suc level) va)) [
          | inr f ↦ f
          | inl f ↦
              let at_p : x ≡ p = ground arith in
              let at_i : i ≡ px (suc level) va = ground arith in
              let bad : true ≡ false = sym v ∙ rw (at_p, at_i) absent in cc
        ])
      ])

      added_child :
          (x l y i : ℕ)
          → with_added x ≡ some (suc l, y)
          → i < 512
          → is_valid (added.word x i) ≡ true
          → with_added (pte_to_pa (added.word x i)) ≡ some (l, y * 512 + i)
      unfolding page_number
      added_child x l y i h less v = elim (Bool-cases (x == a)) [
        | inl e ↦
            let at_a : x ≡ a = ground arith in
            let bad : is_valid 0 ≡ true = rw (at_a, entry_new i apart) at v in cc
        | inr e ↦
            let old : tables x ≡ some (suc l, y) = rw e at h in
            elim (Bool-cases (is_valid (r.word x i))) [
              | inl was ↦
                  let to = t.child x l y i old less was in
                  rw
                    (
                      valid_kept x i (suc l, y) old was,
                      is_older (pte_to_pa (r.word x i)) (l, y * 512 + i) to,
                    )
                    to
              | inr was ↦ elim (Bool-cases (x == p)) [
                | inr f ↦
                    let bad : is_valid (r.word x i) ≡ true = rw (entry_kept x i e (inl f)) at v in
                    cc
                | inl f ↦ elim (Bool-cases (i == px (suc level) va)) [
                  | inr g ↦
                      let bad : is_valid (r.word x i) ≡ true = rw (entry_kept x i e (inr g)) at v in
                      cc
                  | inl g ↦
                      let at_p : x ≡ p = ground arith in
                      let at_i : i ≡ px (suc level) va = ground arith in
                      let both : some (suc l, y)
                          ≡ some (suc level, page_number (suc (suc level)) va) =
                        sym old ∙ (ap tables at_p ∙ here) in
                      let new_l : l ≡ level = cc in
                      let new_y : y ≡ page_number (suc level) va / 512 = cc in
                      let (unused, frame) = t.spare a (rw is_free (ground arith)) in
                      let to_a : pte_to_pa (pa_to_pte a + 1) ≡ a = omega (arith, frame.aligned) in
                      let whole : page_number (suc level) va ≡ y * 512 + i =
                        omega (arith, new_y, at_i) in
                      rw (at_p, at_i, entry_made apart, to_a) (ground (arith, new_l, whole, at_i))
                ]
              ]
            ]
      ]

      added_same :
          (l q vb : ℕ)
          → OnPath tables l q vb
          → lookup_from l q vb added.word ≡ lookup_from l q vb r.word
      unfolding lookup_from page_number
      added_same zero q vb h = entry_kept q (px 0 vb) (is_older q (0, page_number 1 vb) h) (
          inl (
            levels_apart tables q p 0 (page_number 1 vb) (suc level)
              (page_number (suc (suc level)) va) h here (omega arith)))
      added_same (suc l) q vb h = elim (Bool-cases (is_valid (r.word q (px (suc l) vb)))) [
        | inl was ↦
            let pte = r.word q (px (suc l) vb) in
            rw (valid_kept q (px (suc l) vb) (suc l, page_number (suc (suc l)) vb) h was)
              (rw was (added_same l (pte_to_pa pte) vb (OnPath-child t l q vb h was)))
        | inr was ↦
            let older = is_older q (suc l, page_number (suc (suc l)) vb) h in
            elim (Bool-cases (q == p)) [
              | inr f ↦ rw (entry_kept q (px (suc l) vb) older (inl f), was) refl
              | inl f ↦ elim (Bool-cases (px (suc l) vb == px (suc level) va)) [
                | inr g ↦ rw (entry_kept q (px (suc l) vb) older (inr g), was) refl
                | inl g ↦
                    let at_p : q ≡ p = ground arith in
                    let at_i : px (suc l) vb ≡ px (suc level) va = ground arith in
                    let (unused, frame) = t.spare a (rw is_free (ground arith)) in
                    let to_a : pte_to_pa (pa_to_pte a + 1) ≡ a = omega (arith, frame.aligned) in
                    let made : added.word q (px (suc l) vb) ≡ pa_to_pte a + 1 =
                      rw (at_p, at_i) (entry_made apart) in
                    let valid : is_valid (pa_to_pte a + 1) ≡ true = ground arith in
                    rw (made, valid, to_a, was)
                      (empty_lookup l a vb added.word λ k. entry_new k apart)
              ]
            ]
      ]

      pub added-Grown : Grown root tables r with_added added
      added-Grown = record {
        tree = record {
          at_root = rw (is_older root (2, 0) (t.at_root)) (t.at_root);
          child = added_child;
          spare = λ b h.
              let (unused, frame) = t.spare b (rw is_free (ground (arith, h))) in
              let others : has a rest ≡ false = (rw is_free at (t.distinct)).0 in
              let differs : (b == a) ≡ false = elim (Bool-cases (b == a)) [
                | inr e ↦ e
                | inl e ↦
                    let same : b ≡ a = ground arith in
                    let bad : has a rest ≡ true = rw same at h in cc
              ] in
              (rw differs unused, frame);
          distinct = (rw is_free at (t.distinct)).1;
        };
        extends = λ x y h. rw (is_older x y h) h;
        kept = λ x l y i h v. valid_kept x i (suc l, y) h v;
        same = added_same;
        fewer = λ b h. rw is_free (ground (arith, h));
      }

pub Grown-trans :
    {root : ℕ} {a b c : Tables} {r s u : Ram}
    → Grown root a r b s
    → Grown root b s c u
    → Grown root a r c u
Grown-trans {root} {a} {b} {c} {r} {s} {u} g h = record {
  tree = h.tree;
  extends = λ x y e. h.extends x y (g.extends x y e);
  kept = λ x l y i e v.
      let first = g.kept x l y i e v in
      h.kept x l y i (g.extends x (suc l, y) e) (rw first v) ∙ first;
  same = λ l q vb e. h.same l q vb (g.extends q (l, page_number (suc l) vb) e) ∙ g.same l q vb e;
  fewer = λ x e. g.fewer x (h.fewer x e);
}

-- ===== src/Vm/User/Freed.antt =====
-- kernel/vm.c: a page that `kfree` takes back, which is no table.
use tdt4186_lab.Base.{
  ℕ, zero, suc, ◌%◌, ◌≤◌, ◌<◌, ◌≡◌, inl, inr, refl, sym, ap, ◌∙◌, true, false, ◌==◌, ltb, leb, none,
  some, List, ◌∷◌, has, arith, Bool-cases, ok,
}
use tdt4186_lab.Kalloc.{page_size, phys_top}
use tdt4186_lab.Vm.{Ram, with_page, filled, is_valid, pte_to_pa, page_number, px, max_va, walk}
use tdt4186_lab.Vm.Tree.{
  Tables, Tree, lookup, lookup_from, Reaches, OnPath, OnPath-child, lookup_reached, at_root-OnPath,
}
use tdt4186_lab.Vm.Walk.{walk_reads}
use tdt4186_lab.Vm.User.{kfree}

-- A page in use that is no table, and that `kfree` takes.
pub record Freeable (tables : Tables) (free : List ℕ) (end_of_kernel a : ℕ) : Type 0 where
  pub no_table : tables a ≡ none
  pub not_free : has a free ≡ false
  pub aligned : a % page_size ≡ 0
  pub above : end_of_kernel ≤ a
  pub below : a < phys_top

no_such_table :
    (tables : Tables) (p a : ℕ) (y : ℕ × ℕ) → tables p ≡ some y → tables a ≡ none → (p == a) ≡ false
no_such_table tables p a y h e = elim (Bool-cases (p == a)) [
  | inr f ↦ f
  | inl f ↦
      let same : p ≡ a = ground arith in
      let bad : some y ≡ none = sym h ∙ (ap tables same ∙ e) in cc
]

module _ {root : ℕ} {tables : Tables} {r : Ram} (t : Tree root tables r) where
  -- What a page holds that is no table.
  with_page_looks :
      (level p va a : ℕ) (w : ℕ → ℕ) (free : List ℕ)
      → OnPath tables level p va
      → tables a ≡ none
      → lookup_from level p va (with_page a w (record r { free = free })).word
        ≡ lookup_from level p va r.word
  unfolding lookup_from
  with_page_looks zero p va a w free here no_table =
      rw (no_such_table tables p a (0, page_number 1 va) here no_table) refl
  with_page_looks (suc level) p va a w free here no_table =
      let other =
        no_such_table tables p a (suc level, page_number (suc (suc level)) va) here no_table in
      let pte = r.word p (px (suc level) va) in
      elim (Bool-cases (is_valid pte)) [
        | inr e ↦ rw (other, e) refl
        | inl e ↦
            rw (other, e)
              (with_page_looks level (pte_to_pa pte) va a w free (OnPath-child t level p va here e)
                no_table)
      ]

  pub with_page-Reaches :
      (level p va a q : ℕ) (w : ℕ → ℕ) (free : List ℕ)
      → OnPath tables level p va
      → tables a ≡ none
      → Reaches level p va r q
      → Reaches level p va (with_page a w (record r { free = free })) q
  unfolding Reaches
  with_page-Reaches zero p va a q w free here no_table e = e
  with_page-Reaches (suc level) p va a q w free here no_table (valid, e) =
      let other =
        no_such_table tables p a (suc level, page_number (suc (suc level)) va) here no_table in
      rw other (
        valid,
        with_page-Reaches level (pte_to_pa (r.word p (px (suc level) va))) va a q w free
            (OnPath-child t level p va here valid) no_table e,
      )

  pub freed-Tree :
      (end_of_kernel a : ℕ) (w : ℕ → ℕ)
      → 0 < end_of_kernel
      → Freeable tables r.free end_of_kernel a
      → Tree root tables (with_page a w (record r { free = a ∷ r.free }))
  freed-Tree end_of_kernel a w pos f = record {
    at_root = t.at_root;
    child = λ p level x i h less valid.
        let other = no_such_table tables p a (suc level, x) h f.no_table in
        rw other (t.child p level x i h less (rw other at valid));
    spare = λ b h. elim (Bool-cases (b == a)) [
      | inl e ↦
          let same : b ≡ a = ground arith in
          rw same
            (f.no_table, record { aligned = f.aligned; nonzero = omega (arith, pos, f.above) })
      | inr e ↦ t.spare b (ground (arith, h, e))
    ];
    distinct = (f.not_free, t.distinct);
  }

pub kfree_takes :
    (end_of_kernel a : ℕ) {tables : Tables} (r : Ram)
    → Freeable tables r.free end_of_kernel a
    → kfree end_of_kernel a r ≡ ok (with_page a (filled 1) (record r { free = a ∷ r.free }))
unfolding kfree
kfree_takes end_of_kernel a r f =
    let at_page : (a % page_size == 0) ≡ true = ground (arith, f.aligned) in
    let low : ltb a end_of_kernel ≡ false = ground (arith, f.above) in
    let high : leb phys_top a ≡ false = ground (arith, f.below) in
    rw (at_page, low, high, kfree) refl

module _ {root : ℕ} {tables : Tables} {r : Ram} where
  pub walk_found :
      (a : ℕ)
      → Tree root tables r
      → a < max_va
      → is_valid (lookup root a r) ≡ true
      → (q : ℕ) × (walk false root a r ≡ ok (some (q, px 0 a), r))
        × Reaches 2 root a r q
        × (lookup root a r ≡ r.word q (px 0 a))
  unfolding walk lookup
  walk_found a t less valid =
      let in_range : leb max_va a ≡ false = ground (arith, less) in
      elim (walk_reads 2 root a r) [
        | inl (stops, zero_pte) ↦ let bad : is_valid 0 ≡ true = rw zero_pte at valid in cc
        | inr (q, found, reach) ↦
            let (leaf, is) = lookup_reached t 2 root a q (at_root-OnPath t a less) reach in
            (q, rw (in_range, walk, found) refl, reach, is)
      ]

  pub same_looks :
      (t : Tree root tables r) (b a : ℕ) (w : ℕ → ℕ) (free : List ℕ)
      → b < max_va
      → tables a ≡ none
      → lookup root b (with_page a w (record r { free = free })) ≡ lookup root b r
  unfolding lookup
  same_looks t b a w free h no_table =
      with_page_looks t 2 root b a w free (at_root-OnPath t b h) no_table

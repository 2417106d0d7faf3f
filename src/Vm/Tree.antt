-- ===== src/Vm/Tree.antt =====
-- kernel/vm.c: the pages of a page table, and what they map.
--
-- `lookup` says what the entries mean: the leaf entry that they hold for an address, 0 if none.
use tdt4186_lab.Base.{
  ℕ, zero, suc, ◌+◌, ◌*◌, ◌/◌, ◌%◌, ◌^◌, ◌<◌, ◌≡◌, ◌≢◌, inl, inr, refl, sym, ap, ◌∙◌, true, false,
  ◌==◌, if◌then◌else◌, Option, none, some, has, Distinct, arith, Bool-cases,
}
use tdt4186_lab.Vm.{Ram, store, is_valid, pte_to_pa, page_number, px}

-- Which table a page is, if it is one: its level, and the page number at the level above.
abbrev pub Tables : Type 0
Tables = ℕ → Option (ℕ × ℕ)

-- A page that an entry can point to.
pub record Frame (a : ℕ) : Type 0 where
  pub aligned : a % 4096 ≡ 0
  pub nonzero : 0 < a

-- The tables below the root, no two of which are the same page, and none of which is free.
pub record Tree (root : ℕ) (tables : Tables) (r : Ram) : Type 0 where
  pub at_root : tables root ≡ some (2, 0)
  pub child :
      (p level x i : ℕ)
      → tables p ≡ some (suc level, x)
      → i < 512
      → is_valid (r.word p i) ≡ true
      → tables (pte_to_pa (r.word p i)) ≡ some (level, x * 512 + i)
  pub spare : (a : ℕ) → has a r.free ≡ true → (tables a ≡ none) × Frame a
  pub distinct : Distinct r.free

-- The leaf entry for `va`, from a table of level `level` on.
unfoldable pub lookup_from : (level page va : ℕ) → (ℕ → ℕ → ℕ) → ℕ
unfolding page_number
lookup_from zero p va word = word p (px 0 va)
lookup_from (suc level) p va word =
    let pte = word p (px (suc level) va) in
    let rest = lookup_from level (pte_to_pa pte) va word in if is_valid pte then rest else 0

unfoldable pub lookup : (root va : ℕ) → Ram → ℕ
unfolding lookup_from
lookup root va r = lookup_from 2 root va r.word

-- The walk for `va` from page `p` comes to the leaf table `q`.
unfoldable pub Reaches : (level page va : ℕ) → Ram → ℕ → Type 0
unfolding page_number
Reaches zero p va r q = p ≡ q
Reaches (suc level) p va r q =
    let pte = r.word p (px (suc level) va) in
    (is_valid pte ≡ true) × Reaches level (pte_to_pa pte) va r q

-- The page that a walk for `va` has come to.
abbrev pub OnPath : Tables → (level page va : ℕ) → Type 0
OnPath tables level p va = tables p ≡ some (level, page_number (suc level) va)

pub page_number_cong :
    (level va vb : ℕ)
    → page_number 0 va ≡ page_number 0 vb
    → page_number level va ≡ page_number level vb
unfolding page_number
page_number_cong zero va vb same = same
page_number_cong (suc level) va vb same = ap (λ x. x / 512) (page_number_cong level va vb same)

pub lookup_from_cong :
    (level p va vb : ℕ) (word : ℕ → ℕ → ℕ)
    → page_number 0 va ≡ page_number 0 vb
    → lookup_from level p va word ≡ lookup_from level p vb word
unfolding lookup_from
lookup_from_cong zero p va vb word same = ap (λ x. word p (x % 512)) same
lookup_from_cong (suc level) p va vb word same =
    let pte = word p (px (suc level) va) in
    rw
      (
        ← page_number_cong (suc level) va vb same,
        lookup_from_cong level (pte_to_pa pte) va vb word same,
      )
      refl

pub levels_apart :
    (tables : Tables) (p q l x m y : ℕ)
    → tables p ≡ some (l, x)
    → tables q ≡ some (m, y)
    → l ≢ m
    → (p == q) ≡ false
levels_apart tables p q l x m y at_p at_q differ = elim (Bool-cases (p == q)) [
  | inr e ↦ e
  | inl e ↦
      let same : p ≡ q = ground arith in
      let both : some (l, x) ≡ some (m, y) = sym at_p ∙ (ap tables same ∙ at_q) in
      let level : l ≡ m = cc in absurd (differ level)
]

module _ {root : ℕ} {tables : Tables} {r : Ram} (t : Tree root tables r) where
  pub OnPath-child :
      (level p va : ℕ)
      → OnPath tables (suc level) p va
      → is_valid (r.word p (px (suc level) va)) ≡ true
      → OnPath tables level (pte_to_pa (r.word p (px (suc level) va))) va
  unfolding page_number
  OnPath-child level p va here valid =
      t.child p level (page_number (suc (suc level)) va) (px (suc level) va) here (omega arith)
        valid
      ∙ ap (λ x. some (level, x)) (omega arith)

  -- The leaf table that a walk comes to has the entry.
  pub lookup_reached :
      (level p va q : ℕ)
      → OnPath tables level p va
      → Reaches level p va r q
      → OnPath tables 0 q va × (lookup_from level p va r.word ≡ r.word q (px 0 va))
  unfolding lookup_from Reaches
  lookup_reached zero p va q here e = rw (← e) (here, refl)
  lookup_reached (suc level) p va q here (valid, e) =
      let pte = r.word p (px (suc level) va) in
      let (leaf, found) =
        lookup_reached level (pte_to_pa pte) va q (OnPath-child level p va here valid) e in
      (leaf, rw valid found)

  -- A store into a leaf table changes the entry for one page of addresses.
  pub store_elsewhere :
      (level p va vb q v : ℕ)
      → OnPath tables level p vb
      → OnPath tables 0 q va
      → page_number 0 vb ≢ page_number 0 va
      → lookup_from level p vb (store q (px 0 va) v r).word ≡ lookup_from level p vb r.word
  unfolding lookup_from page_number
  store_elsewhere zero p va vb q v here there differs = elim (Bool-cases (p == q)) [
    | inr e ↦ ground (arith, e)
    | inl e ↦
        let same : p ≡ q = ground arith in
        let both : some (0, page_number 1 vb) ≡ some (0, page_number 1 va) =
          sym here ∙ (ap tables same ∙ there) in
        let above : vb / 4096 / 512 ≡ va / 4096 / 512 = cc in
        let index : (px 0 vb == px 0 va) ≡ false = ground (arith, above, differs) in
        ground (arith, e, index)
  ]
  store_elsewhere (suc level) p va vb q v here there differs =
      let other : (p == q) ≡ false =
        levels_apart tables p q (suc level) (page_number (suc (suc level)) vb) 0 (page_number 1 va)
          here there (omega arith) in
      let pte = r.word p (px (suc level) vb) in
      elim (Bool-cases (is_valid pte)) [
        | inr e ↦ rw (other, e) refl
        | inl e ↦
            rw (other, e)
              (store_elsewhere level (pte_to_pa pte) va vb q v (OnPath-child level p vb here e)
                there differs)
      ]

  pub store_here :
      (level p va q v : ℕ)
      → OnPath tables level p va
      → Reaches level p va r q
      → OnPath tables 0 q va
      → Reaches level p va (store q (px 0 va) v r) q
  unfolding Reaches
  store_here zero p va q v here e there = e
  store_here (suc level) p va q v here (valid, e) there =
      let other : (p == q) ≡ false =
        levels_apart tables p q (suc level) (page_number (suc (suc level)) va) 0 (page_number 1 va)
          here there (omega arith) in
      let pte = r.word p (px (suc level) va) in
      rw other (
        valid,
        store_here level (pte_to_pa pte) va q v (OnPath-child level p va here valid) e there,
      )

  pub at_root-OnPath : (va : ℕ) → va < 2 ^ 38 → OnPath tables 2 root va
  unfolding page_number
  at_root-OnPath va less = t.at_root ∙ ap (λ x. some (2, x)) (omega (arith, less))

  -- A store into a leaf table keeps the tables.
  pub store-Tree : (q x i v : ℕ) → tables q ≡ some (0, x) → Tree root tables (store q i v r)
  store-Tree q x i v leaf = record {
    at_root = t.at_root;
    child = λ p level y j h less valid.
        let other = levels_apart tables p q (suc level) y 0 x h leaf (omega arith) in
        rw other (t.child p level y j h less (rw other at valid));
    spare = t.spare;
    distinct = t.distinct;
  }

-- ===== src/Vm/Walk.antt =====
-- kernel/vm.c: what `walk` finds, and the tables that it makes.
use tdt4186_lab.Base.{
  ℕ, zero, suc, ◌+◌, ◌≡◌, ◌⊎◌, inl, inr, refl, ap, ◌∙◌, true, false, Option, none, some, List, [],
  ◌∷◌, arith, Bool-cases, List-cases,
}
use tdt4186_lab.Vm.{
  Ram, with_page, filled, is_valid, pa_to_pte, pte_to_pa, page_number, px, kalloc, walk_from,
}
use tdt4186_lab.Vm.Grown.{Grown, Grown-refl, Grown-trans, added, entry_made, apart, added-Grown}
use tdt4186_lab.Vm.Tree.{Tables, Tree, lookup_from, Reaches, OnPath, OnPath-child}

-- Without `alloc` nothing changes.
pub walk_reads :
    (level p va : ℕ) (r : Ram)
    → ((walk_from false level p va r ≡ (none, r)) × (lookup_from level p va r.word ≡ 0))
      ⊎ ((q : ℕ) × (walk_from false level p va r ≡ (some (q, px 0 va), r)) × Reaches level p va r q)
unfolding walk_from lookup_from Reaches
walk_reads zero p va r = inr (p, refl, refl)
walk_reads (suc level) p va r = elim (Bool-cases (is_valid (r.word p (px (suc level) va)))) [
  | inr e ↦ inl (rw (e, walk_from) refl, rw (e, lookup_from) refl)
  | inl e ↦
      let pte = r.word p (px (suc level) va) in
      elim (walk_reads level (pte_to_pa pte) va r) [
        | inl (w, z) ↦ inl (rw (e, walk_from) w, rw (e, lookup_from) z)
        | inr (q, w, reach) ↦ inr (q, rw (e, walk_from) w, (e, reach))
      ]
]

-- What `walk` with `alloc` leaves: out of memory, or with a way to the leaf table for `va`.
pub record Walked (root : ℕ) (old : Tables) (r : Ram) (level p va : ℕ)
    (result : Option (ℕ × ℕ) × Ram) : Type 0 where
  pub tables : Tables
  pub grown : Grown root old r tables result.1
  pub ends :
      ((result.0 ≡ none) × (result.1.free ≡ []))
      ⊎ ((q : ℕ) × (result.0 ≡ some (q, px 0 va)) × Reaches level p va result.1 q)

kalloc-none : (r : Ram) → r.free ≡ [] → kalloc r ≡ none
unfolding kalloc
kalloc-none r f = rw f refl

kalloc-some :
    (r : Ram) (a : ℕ) (rest : List ℕ)
    → r.free ≡ a ∷ rest
    → kalloc r ≡ some (a, with_page a (filled 5) (record r { free = rest }))
unfolding kalloc
kalloc-some r a rest f = rw f refl

-- A walk that goes on below an entry that is valid by now.
below_entry :
    {root : ℕ} {old mid : Tables} {r m : Ram} (level p va : ℕ) (result : Option (ℕ × ℕ) × Ram)
    → Grown root old r mid m
    → OnPath mid (suc level) p va
    → is_valid (m.word p (px (suc level) va)) ≡ true
    → Walked root mid m level (pte_to_pa (m.word p (px (suc level) va))) va result
    → Walked root old r (suc level) p va result
unfolding Reaches
below_entry level p va result g here valid w = record {
  tables = w.tables;
  grown = Grown-trans g w.grown;
  ends = elim w.ends [
    | inl out ↦ inl out
    | inr (q, is, reach) ↦
        let same =
          w.grown.kept p level (page_number (suc (suc level)) va) (px (suc level) va) here valid in
        inr (q, is, (rw same valid, rw same reach))
  ];
}

pub walk_makes :
    (level : ℕ) {root p : ℕ} (va : ℕ) {tables : Tables} {r : Ram}
    → Tree root tables r
    → OnPath tables level p va
    → Walked root tables r level p va (walk_from true level p va r)
unfolding walk_from Reaches
walk_makes zero {p} va {tables} {r} t here = record {
  tables = tables;
  grown = Grown-refl t;
  ends = inr (p, refl, refl);
}
walk_makes (suc level) {root} {p} va {tables} {r} t here =
    let pte = r.word p (px (suc level) va) in
    elim (Bool-cases (is_valid pte)) [
      | inl e ↦
          rw (e, walk_from)
            (below_entry level p va (walk_from true level (pte_to_pa pte) va r) (Grown-refl t) here
              e (walk_makes level va t (OnPath-child t level p va here e)))
      | inr e ↦ elim (List-cases r.free) [
        | inl f ↦
            let stops : walk_from true (suc level) p va r ≡ (none, r) =
              rw (e, walk_from, kalloc-none r f) refl in
            rw stops record { tables = tables; grown = Grown-refl t; ends = inl (refl, f) }
        | inr (a, rest, f) ↦
            let g = added-Grown t level p va a rest f here e in
            let s = added t level p va a rest in
            let (unused, frame) = t.spare a (rw f (ground arith)) in
            let made : s.word p (px (suc level) va) ≡ pa_to_pte a + 1 =
              entry_made t level p va a rest (apart t level p va a rest f here e) in
            let goes_on : walk_from true (suc level) p va r ≡ walk_from true level a va s =
              rw (e, walk_from, kalloc-some r a rest f) refl in
            let to_a : pte_to_pa (pa_to_pte a + 1) ≡ a = omega (arith, frame.aligned) in
            let valid : is_valid (s.word p (px (suc level) va)) ≡ true = rw made (ground arith) in
            let lower =
              OnPath-child g.tree level p va
                (g.extends p (suc level, page_number (suc (suc level)) va) here) valid in
            let reach_a = ap pte_to_pa made ∙ to_a in
            rw goes_on (
              below_entry level p va (walk_from true level a va s) g
                (g.extends p (suc level, page_number (suc (suc level)) va) here) valid
                (rw reach_a (walk_makes level va g.tree (rw reach_a at lower))))
      ]
    ]

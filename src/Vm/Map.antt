-- ===== src/Vm/Map.antt =====
-- kernel/vm.c: what `mappages` maps.
use tdt4186_lab.Base.{
  ℕ, zero, suc, ◌+◌, ◌-◌, ◌*◌, ◌/◌, ◌%◌, ◌^◌, ◌≤◌, ◌<◌, ◌≡◌, ◌⊎◌, inl, inr, refl, ap, ◌∙◌, Bool,
  true, false, ◌==◌, ◌&&◌, ltb, leb, if◌then◌else◌, none, some, [], has, arith, Bool-cases, Result,
  ok, panic,
}
use tdt4186_lab.Vm.{
  Ram, store, is_valid, leaf_pte, page_number, px, max_va, walk_from, walk, map_from, mappages,
  page_round_down,
}
use tdt4186_lab.Kalloc.{page_size}
use tdt4186_lab.Vm.Tree.{
  Tables, Tree, lookup, lookup_from_cong, Reaches, lookup_reached, store_elsewhere, store_here,
  at_root-OnPath, store-Tree,
}
use tdt4186_lab.Vm.Walk.{walk_makes}

-- `n` pages from `a` on are mapped to those from `pa` on, and all else is mapped as before.
pub record RangeMapped (root : ℕ) (r : Ram) (a n pa perm : ℕ) (s : Ram) : Type 0 where
  pub tables : Tables
  pub tree : Tree root tables s
  pub looks :
      (va : ℕ)
      → va < max_va
      → lookup root va s ≡ (
          if leb (a / 4096) (va / 4096) && ltb (va / 4096) (a / 4096 + n)
          then leaf_pte (pa + (va / 4096 - a / 4096) * 4096) perm
          else lookup root va r)
  pub fewer : (b : ℕ) → has b s.free ≡ true → has b r.free ≡ true

abbrev pub MapEnds : (root : ℕ) → Ram → (a n pa perm : ℕ) → Result (Bool × Ram) → Type 0
MapEnds root r a n pa perm (ok (true, s)) = RangeMapped root r a n pa perm s
MapEnds root r a n pa perm (ok (false, s)) =
    (k : ℕ) × (k < n) × RangeMapped root r a k pa perm s × (s.free ≡ [])
MapEnds root r a n pa perm (panic m) =
    (m ≡ "mappages: remap") × (k : ℕ) × (k < n) × (is_valid (lookup root (a + k * 4096) r) ≡ true)

pub store_looks :
    {root : ℕ} {tables : Tables} {s : Ram} (t : Tree root tables s) (q a v va : ℕ)
    → a < max_va
    → va < max_va
    → Reaches 2 root a s q
    → lookup root va (store q (px 0 a) v s)
      ≡ (if va / 4096 == a / 4096 then v else lookup root va s)
unfolding lookup page_number
store_looks {root} {tables} {s} t q a v va less below reach =
    let (leaf, found) = lookup_reached t 2 root a q (at_root-OnPath t a less) reach in
    elim (Bool-cases (va / 4096 == a / 4096)) [
      | inr e ↦
          rw e
            (store_elsewhere t 2 root a va q v (at_root-OnPath t va below) leaf (ground (arith, e)))
      | inl e ↦
          let after = store-Tree t q (page_number 1 a) (px 0 a) v leaf in
          let there = store_here t 2 root a q v (at_root-OnPath t a less) reach leaf in
          let (leaf_after, is) =
            lookup_reached after 2 root a q (at_root-OnPath after a less) there in
          rw e (
            lookup_from_cong 2 root va a (store q (px 0 a) v s).word (ground (arith, e))
            ∙ (is ∙ ground arith))
    ]

-- One page, from a state on, and the pages behind it.
with_first :
    {root : ℕ} {r t s : Ram} (a k pa perm : ℕ)
    → ((va : ℕ)
        → va < max_va
        → lookup root va t ≡ (if va / 4096 == a / 4096 then leaf_pte pa perm else lookup root va r))
    → ((b : ℕ) → has b t.free ≡ true → has b r.free ≡ true)
    → RangeMapped root t (a + 4096) k (pa + 4096) perm s
    → RangeMapped root r a (suc k) pa perm s
with_first {root} {r} {t} a k pa perm looks fewer m = record {
  tables = m.tables;
  tree = m.tree;
  looks = λ va less.
      let one = looks va less in
      let others = m.looks va less in
      let next : (a + 4096) / 4096 ≡ a / 4096 + 1 = omega arith in
      elim (Bool-cases (va / 4096 == a / 4096)) [
        | inl e ↦
            let same : va / 4096 ≡ a / 4096 = ground arith in
            ground (arith, one, others, next, same, e)
        | inr e ↦ ground (arith, one, others, next, e)
      ];
  fewer = λ b h. fewer b (m.fewer b h);
}

-- A page that `mappages` comes to.
record FirstPage (root a : ℕ) (r : Ram) : Type 0 where
  after : Ram
  tables : Tables
  grown_tree : Tree root tables after
  same : (va : ℕ) → va < max_va → lookup root va after ≡ lookup root va r
  fewer : (b : ℕ) → has b after.free ≡ true → has b r.free ≡ true
  ends :
      ((walk true root a r ≡ ok (none, after)) × (after.free ≡ []))
      ⊎ ((q : ℕ) × (walk true root a r ≡ ok (some (q, px 0 a), after))
          × (tables q ≡ some (0, page_number 1 a))
          × Reaches 2 root a after q
          × (lookup root a after ≡ after.word q (px 0 a)))

module _ {root : ℕ} where
  first_page :
      (a : ℕ) {tables : Tables} {r : Ram} → Tree root tables r → a < max_va → FirstPage root a r
  unfolding walk lookup
  first_page a {tables} {r} t less =
      let in_range : leb max_va a ≡ false = ground (arith, less) in
      let w = walk_makes 2 a t (at_root-OnPath t a less) in
      record {
        after = (walk_from true 2 root a r).1;
        tables = w.tables;
        grown_tree = w.grown.tree;
        same = λ va below. w.grown.same 2 root va (at_root-OnPath t va below);
        fewer = w.grown.fewer;
        ends = elim w.ends [
          | inl (out, empty) ↦ inl (rw (in_range, walk, ← out) refl, empty)
          | inr (q, found, reach) ↦
              let (leaf, is) =
                lookup_reached w.grown.tree 2 root a q (at_root-OnPath w.grown.tree a less) reach in
              inr (q, rw (in_range, walk, ← found) refl, leaf, reach, is)
        ];
      }

module _ (root : ℕ) where
  -- The page at `a`, stored.
  abbrev OneMore : Ram → (a pte : ℕ) → Ram → Type 0
  OneMore r a pte t =
      (tables : Tables) × Tree root tables t
      × ((va : ℕ)
          → va < max_va
          → lookup root va t ≡ (if va / 4096 == a / 4096 then pte else lookup root va r))
      × ((b : ℕ) → has b t.free ≡ true → has b r.free ≡ true)

  -- How `map_from` goes on behind a store.
  abbrev goes_on_with : (n a pa perm : ℕ) → Ram → Result (Bool × Ram)
  goes_on_with n a pa perm t = elim (a == a + n * 4096) [
    | true ↦ ok (true, t)
    | false ↦
        map_from n root ((a + page_size) % 2 ^ 64) (a + n * 4096) ((pa + page_size) % 2 ^ 64) perm t
  ]

  map_step :
      (n a pa perm : ℕ) {tables : Tables} {r : Ram}
      → Tree root tables r
      → a < max_va
      → ((t : Ram)
          → OneMore r a (leaf_pte pa perm) t
          → MapEnds root r a (suc n) pa perm (goes_on_with n a pa perm t))
      → MapEnds root r a (suc n) pa perm (map_from (suc n) root a (a + n * 4096) pa perm r)
  unfolding map_from
  map_step n a pa perm {tables} {r} t less rest =
      let f = first_page a t less in
      let s = f.after in
      elim f.ends [
        | inl (stops, empty) ↦
            rw (stops, map_from)
              (
                0,
                omega arith,
                record {
                  tables = f.tables;
                  tree = f.grown_tree;
                  looks = λ va h. f.same va h ∙ ground arith;
                  fewer = f.fewer;
                },
                empty,
              )
        | inr (q, goes_on, leaf, reach, is) ↦
            let pte = s.word q (px 0 a) in
            elim (Bool-cases (is_valid pte)) [
              | inl v ↦
                  let here : a + 0 * 4096 ≡ a = omega arith in
                  rw (goes_on, map_from, v) (refl, 0, omega arith, rw (here, ← f.same a less, is) v)
              | inr v ↦
                  rw (goes_on, map_from, v)
                    (rest (store q (px 0 a) (leaf_pte pa perm) s) (
                      f.tables,
                      store-Tree f.grown_tree q (page_number 1 a) (px 0 a) (leaf_pte pa perm) leaf,
                      λ va h.
                          store_looks f.grown_tree q a (leaf_pte pa perm) va less h reach
                          ∙ ap (λ x. if va / 4096 == a / 4096 then leaf_pte pa perm else x)
                              (f.same va h),
                      f.fewer,
                    ))
            ]
      ]

  behind_first :
      (n a pa perm : ℕ) (r t : Ram) (result : Result (Bool × Ram))
      → OneMore r a (leaf_pte pa perm) t
      → a + n * 4096 < max_va
      → MapEnds root t (a + 4096) n (pa + 4096) perm result
      → MapEnds root r a (suc n) pa perm result
  behind_first n a pa perm r t (ok (true, s)) (tables, tree, looks, fewer) below m =
      with_first a n pa perm looks fewer m
  behind_first n a pa perm r t (ok (false, s)) (tables, tree, looks, fewer) below (k, h, m, empty) =
      (suc k, omega arith, with_first a k pa perm looks fewer m, empty)
  behind_first n a pa perm r t (panic m) (tables, tree, looks, fewer) below (why, k, h, v) =
      let here : a + 4096 + k * 4096 ≡ a + suc k * 4096 = omega arith in
      let elsewhere : ((a + suc k * 4096) / 4096 == a / 4096) ≡ false = ground arith in
      let one = looks (a + suc k * 4096) (omega (arith, h, below)) in
      (why, suc k, omega arith, rw (here, one, elsewhere) at v)

  pub map_from_ends :
      (n a pa perm : ℕ) {tables : Tables} {r : Ram}
      → Tree root tables r
      → a % 4096 ≡ 0
      → a + n * 4096 < max_va
      → pa + n * 4096 < 2 ^ 64
      → MapEnds root r a (suc n) pa perm (map_from (suc n) root a (a + n * 4096) pa perm r)
  map_from_ends zero a pa perm {tables} {r} t aligned below fits =
      map_step zero a pa perm t (omega (arith, below)) λ s (tables, tree, looks, fewer).
        let last : (a == a + 0 * 4096) ≡ true = ground arith in
        rw (last, goes_on_with)
          record {
            tables = tables;
            tree = tree;
            looks = λ va h. ground (arith, looks va h);
            fewer = fewer;
          }
  map_from_ends (suc n) a pa perm {tables} {r} t aligned below fits =
      map_step (suc n) a pa perm t (omega (arith, below)) λ s one.
        let more : (a == a + suc n * 4096) ≡ false = ground arith in
        let next_a : (a + 4096) % 2 ^ 64 ≡ a + 4096 = omega (arith, below) in
        let next_pa : (pa + 4096) % 2 ^ 64 ≡ pa + 4096 = omega (arith, fits) in
        let last : a + suc n * 4096 ≡ a + 4096 + n * 4096 = omega arith in
        rw (more, goes_on_with, next_a, next_pa, last)
          (behind_first (suc n) a pa perm r s
            (map_from (suc n) root (a + 4096) (a + 4096 + n * 4096) (pa + 4096) perm s) one below
            (map_from_ends n (a + 4096) (pa + 4096) perm one.1 (omega (arith, aligned))
              (omega (arith, below)) (omega (arith, fits))))

  -- With a page table whose tables are all different pages and none of them free, `mappages` of a
  -- range below `MAXVA` returns 0, with every page of the range mapped to its page from `pa` on and
  -- every other address mapped as before; or -1, when memory has run out, with the pages of a first
  -- part of the range mapped so; or it panics, since a page of the range was mapped already.
  pub mappages_ends :
      (va size pa perm : ℕ) {tables : Tables} {r : Ram}
      → Tree root tables r
      → 0 < size
      → va + size ≤ max_va
      → pa + va + size < 2 ^ 64
      → MapEnds root r
          (page_round_down va)
          ((va + size - 1) / 4096 - va / 4096 + 1)
          pa
          perm
          (mappages root va size pa perm r)
  unfolding mappages
  mappages_ends va size pa perm t pos below fits =
      let n = (va + size - 1) / 4096 - va / 4096 in
      let a = page_round_down va in
      let some_bytes : (size == 0) ≡ false = ground (arith, pos) in
      let no_wrap : (va + size - 1) % 2 ^ 64 ≡ va + size - 1 = omega (arith, below) in
      let last : page_round_down (va + size - 1) ≡ a + n * 4096 = omega (arith, pos) in
      let rounds : (page_round_down (va + size - 1) + 2 ^ 64 - a) % 2 ^ 64 / page_size + 1 ≡ suc n =
        omega (arith, pos, below) in
      let count : n + 1 ≡ suc n = omega arith in
      rw (some_bytes, mappages, no_wrap, rounds, last, count)
        (map_from_ends n a pa perm t (omega arith) (omega (arith, pos, below))
          (omega (arith, pos, fits)))

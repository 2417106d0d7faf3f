-- ===== src/Kalloc/Boot.antt =====
-- kernel/kalloc.c: `kinit` puts every page between the kernel and `PHYSTOP` on the free list.
use tdt4186_lab.Base.{
  subst, sym, ℕ, zero, suc, ◌+◌, ◌*◌, ◌/◌, ◌%◌, ◌≤◌, ◌<◌, ◌≡◌, ◌∙◌, refl, ◌==◌, leb, List, [], ◌∷◌,
  count, count-has, Result, ok, arith, Bool-cases, inl, inr,
}
use tdt4186_lab.Kalloc.{
  Memory, page_size, phys_top, page_round_up, kfree, free_from, freerange, kinit,
}
use tdt4186_lab.Kalloc.Chain.{FreeList, IsPage, kfree-Freed}
use tdt4186_lab.Kalloc.Owners.{Books}

module _ (end_of_kernel : ℕ) where
  -- The pages from the kernel up to `p` are on the free list, once each, and nothing else is.
  record FreeBelow (p : ℕ) (s : Memory) (xs : List ℕ) : Type 0 where
    list : FreeList s xs
    once : (a : ℕ) → count a xs ≤ 1
    pages : (a : ℕ) → 0 < count a xs → IsPage end_of_kernel a
    low : (a : ℕ) → 0 < count a xs → a < p
    all : (a : ℕ) → IsPage end_of_kernel a → a < p → count a xs ≡ 1

  record FreeAll (result : Result Memory) : Type 0 where
    memory : Memory
    free : List ℕ
    returns : result ≡ ok memory
    below : FreeBelow phys_top memory free

  to_phys_top :
      (p : ℕ) (xs : List ℕ) {s : Memory}
      → p % page_size ≡ 0
      → phys_top < p + page_size
      → FreeBelow p s xs
      → FreeAll (ok s)
  to_phys_top p xs {s} aligned enough f = record {
    memory = s;
    free = xs;
    returns = refl;
    below = record {
      list = f.list;
      once = f.once;
      pages = f.pages;
      low = λ a h. (f.pages a h).below;
      all = λ a w h. f.all a w (omega (arith, w.aligned));
    };
  }

  -- One round of the loop: the page at `p` joins the list.
  more :
      (p : ℕ) (xs : List ℕ) {s : Memory}
      → 0 < end_of_kernel
      → IsPage end_of_kernel p
      → FreeBelow p s xs
      → (t : Memory) × (kfree end_of_kernel p s ≡ ok t) × FreeBelow (p + page_size) t (p ∷ xs)
  more p xs pos v f =
      let absent : count p xs ≡ 0 = ground (arith, f.low p) in
      let freed = kfree-Freed end_of_kernel p xs v pos f.list (count-has p xs absent) in
      (
        freed.after,
        freed.returns,
        record {
          list = freed.list;
          once = λ a. ground (arith, absent, f.once a);
          pages = λ a h. elim (Bool-cases (a == p)) [
            | inl e ↦ let same : a ≡ p = ground (arith, e) in rw same v
            | inr e ↦ f.pages a (ground (arith, e, h))
          ];
          low = λ a h. ground (arith, f.low a);
          all = λ a w h. ground (arith, absent, f.all a w, w.aligned, v.aligned);
        },
      )

  free_from-FreeAll :
      (rounds p : ℕ) (xs : List ℕ) {s : Memory}
      → 0 < end_of_kernel
      → end_of_kernel ≤ p
      → p % page_size ≡ 0
      → phys_top < p + rounds * page_size
      → FreeBelow p s xs
      → FreeAll (free_from end_of_kernel rounds p phys_top s)
  unfolding free_from
  free_from-FreeAll zero p xs {s} pos above aligned enough f =
      to_phys_top p xs aligned (omega arith) f
  free_from-FreeAll (suc n) p xs {s} pos above aligned enough f =
      elim (Bool-cases (leb (p + page_size) phys_top)) [
        | inl e ↦
            let v : IsPage end_of_kernel p = record {
              aligned = aligned;
              above = above;
              below = ground arith;
            } in
            let (t, r, g) = more p xs pos v f in
            let rest =
              free_from-FreeAll n (p + page_size) (p ∷ xs) pos (omega arith) (omega arith)
                (omega arith) g in
            rw (e, r, free_from) rest
        | inr e ↦ rw (e, free_from) (to_phys_top p xs aligned (ground arith) f)
      ]

  -- A result with every page between the kernel and `PHYSTOP` on the free list, and no owner yet.
  pub record Ready (result : Result Memory) : Type 0 where
    pub memory : Memory
    pub free : List ℕ
    pub returns : result ≡ ok memory
    pub books : Books end_of_kernel (record { memory = memory; owned = [] }) free
    pub all : (a : ℕ) → IsPage end_of_kernel a → count a free ≡ 1

  ready : {result : Result Memory} → FreeAll result → Ready result
  ready r = record {
    memory = r.memory;
    free = r.free;
    returns = r.returns;
    books = record {
      chain = r.below.list.chain;
      once = λ a. omega (arith, r.below.once a);
      pages = λ a h. r.below.pages a (omega arith);
    };
    all = λ a w. r.below.all a w w.below;
  }

  freerange_lem :
      (pa_start pa_end : ℕ) (s : Memory)
      → freerange end_of_kernel pa_start pa_end s
        ≡ free_from end_of_kernel (pa_end / page_size + 1) (page_round_up pa_start) pa_end s
  unfolding freerange
  freerange_lem pa_start pa_end s = refl

  kinit_lem :
      (s : Memory) → kinit end_of_kernel s ≡ freerange end_of_kernel end_of_kernel phys_top s
  unfolding kinit
  kinit_lem s = refl

  none_yet :
      (s : Memory)
      → end_of_kernel ≤ phys_top
      → s.freelist ≡ 0
      → FreeBelow (page_round_up end_of_kernel) s []
  none_yet s fits none_free = record {
    list = record { chain = none_free; distinct = tt };
    once = λ a. omega arith;
    pages = λ a h. omega (arith, h);
    low = λ a h. omega (arith, h);
    all = λ a w h. omega (arith, w.aligned, w.above);
  }

  -- If the kernel ends at or below `PHYSTOP`, not at address 0, and the free list starts empty,
  -- `kinit` returns without a panic, and then the free list leads through every page between the
  -- kernel and `PHYSTOP`, once each, through nothing else, and ends.
  pub kinit-Ready :
      (s : Memory)
      → 0 < end_of_kernel
      → end_of_kernel ≤ phys_top
      → s.freelist ≡ 0
      → Ready (kinit end_of_kernel s)
  kinit-Ready s pos fits none_free =
      let start = page_round_up end_of_kernel in
      let filled =
        free_from-FreeAll (phys_top / page_size + 1) start [] pos (omega arith) (omega arith)
          (omega arith) (none_yet s fits none_free) in
      subst Ready (sym (kinit_lem s ∙ freerange_lem end_of_kernel phys_top s)) (ready filled)

-- ===== src/Kalloc/Chain.antt =====
-- kernel/kalloc.c: the free list as a list of pages, and what `kfree`, `kalloc` and `kinit` do to it.
use tdt4186_lab.Base.{
  ℕ, ◌%◌, ◌≤◌, ◌<◌, ◌≡◌, ◌≢◌, refl, false, ◌==◌, List, [], ◌∷◌, has, Distinct, update, ok, arith,
}
use tdt4186_lab.Kalloc.{Memory, Page, filled, linked, next_of, page_size, phys_top, kfree, kalloc}

-- From `a` the `next` pointers lead through the pages `xs` to the null pointer.
abbrev pub Chain : (ℕ → Page) → ℕ → List ℕ → Type 0
Chain page a [] = a ≡ 0
Chain page a (x ∷ xs) = (a ≡ x) × (x ≢ 0) × Chain page (next_of (page x)) xs

pub record FreeList (s : Memory) (xs : List ℕ) : Type 0 where
  pub chain : Chain s.page s.freelist xs
  pub distinct : Distinct xs

pub Chain-update :
    (page : ℕ → Page) (a b : ℕ) (c : Page) (xs : List ℕ)
    → has b xs ≡ false
    → Chain page a xs
    → Chain (update page b c) a xs
Chain-update page a b c [] h k = k
Chain-update page a b c (x ∷ xs) h (e, n, k) =
    let same : update page b c x ≡ page x = ground arith in
    (e, n, rw same (Chain-update page (next_of (page x)) b c xs (ground arith) k))

abbrev pub Allocated : List ℕ → Memory → ℕ × Memory → Type 0
Allocated [] s (r, t) = (r ≡ 0) × (t ≡ s)
Allocated (x ∷ xs) s (r, t) = (r ≡ x) × FreeList t xs × (t.page x ≡ filled 5)

module _ (end_of_kernel : ℕ) where
  -- What the guard of `kfree` lets pass.
  pub record IsPage (pa : ℕ) : Type 0 where
    pub aligned : pa % page_size ≡ 0
    pub above : end_of_kernel ≤ pa
    pub below : pa < phys_top

  pub record Freed (pa : ℕ) (xs : List ℕ) (s : Memory) : Type 0 where
    pub after : Memory
    pub returns : kfree end_of_kernel pa s ≡ ok after
    pub list : FreeList after (pa ∷ xs)

  -- Where the free list leads through the pages `xs`, `kfree` of an aligned page between the kernel
  -- and `PHYSTOP` that is not among them returns, and the list leads through it and then `xs`.
  pub kfree-Freed :
      (pa : ℕ) (xs : List ℕ) {s : Memory}
      → IsPage pa
      → 0 < end_of_kernel
      → FreeList s xs
      → has pa xs ≡ false
      → Freed pa xs s
  unfolding kfree
  kfree-Freed pa xs {s} v pos f fresh = record {
    after = record { page = update s.page pa (linked s.freelist 1); freelist = pa };
    returns = ground (arith, v.aligned, v.above, v.below);
    list = record {
      chain =
          let self : update s.page pa (linked s.freelist 1) pa ≡ linked s.freelist 1 =
            ground arith in
          (
            refl,
            omega (arith, v.above),
            rw self (Chain-update s.page s.freelist pa (linked s.freelist 1) xs fresh f.chain),
          );
      distinct = (fresh, f.distinct);
    };
  }

  -- Where the free list leads through the pages `xs`, `kalloc` returns 0 and changes nothing if there
  -- are none; otherwise it returns the first, filled with fives, and the list leads through the rest.
  pub kalloc-Allocated :
      (xs : List ℕ) {s : Memory} → FreeList s xs → Allocated xs s (kalloc end_of_kernel s)
  unfolding kalloc
  kalloc-Allocated [] {s} f = ground (arith, f.chain)
  kalloc-Allocated (x ∷ xs) {s} f =
      let (e, n, k) = f.chain in
      let test : (s.freelist == 0) ≡ false = ground arith in
      let self : update s.page x (filled 5) x ≡ filled 5 = ground arith in
      let rest = Chain-update s.page (next_of (s.page x)) x (filled 5) xs f.distinct.0 k in
      rw (test, e) (refl, record { chain = rest; distinct = f.distinct.1 }, self)

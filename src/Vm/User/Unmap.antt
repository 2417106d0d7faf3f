-- ===== src/Vm/User/Unmap.antt =====
-- kernel/vm.c: what `uvmunmap` unmaps and frees.
use tdt4186_lab.Base.{
  ℕ, zero, suc, ◌+◌, ◌*◌, ◌/◌, ◌%◌, ◌≤◌, ◌<◌, ◌≡◌, ◌≢◌, refl, ap, ◌∙◌, Bool, true, false, ◌==◌,
  ◌&&◌, ltb, leb, if◌then◌else◌, List, ◌∷◌, arith, Result, ok,
}
use tdt4186_lab.Kalloc.{page_size}
use tdt4186_lab.Vm.{
  Ram, store, with_page, filled, is_valid, pte_to_pa, pte_flags, page_number, px, max_va,
}
use tdt4186_lab.Vm.Tree.{Tables, Tree, lookup, Reaches, lookup_reached, at_root-OnPath, store-Tree}
use tdt4186_lab.Vm.Map.{store_looks}
use tdt4186_lab.Vm.User.Freed.{
  Freeable, with_page-Reaches, freed-Tree, kfree_takes, walk_found, same_looks,
}
use tdt4186_lab.Vm.User.{unmap_from, uvmunmap}

-- The pages that the leaf entries `f` of `n` pages of addresses point to, last one first.
unfoldable pub frames : (ℕ → ℕ) → (n va : ℕ) → List ℕ → List ℕ
frames f zero va free = free
frames f (suc n) va free = frames f n (va + page_size) (pte_to_pa (f va) ∷ free)

frames_cong :
    (f g : ℕ → ℕ) (n va : ℕ) (free : List ℕ)
    → ((k : ℕ) → k < n → f (va + k * 4096) ≡ g (va + k * 4096))
    → frames f n va free ≡ frames g n va free
unfolding frames
frames_cong f g zero va free same = refl
frames_cong f g (suc n) va free same =
    let here : va + 0 * 4096 ≡ va = omega arith in
    let first : f va ≡ g va = rw here at (same 0 (omega arith)) in
    rw first (
      frames_cong f g n (va + page_size) (pte_to_pa (g va) ∷ free) λ k h.
        let next : va + page_size + k * 4096 ≡ va + suc k * 4096 = omega arith in
        rw next (same (suc k) (omega arith)))

-- The `n` pages of addresses from `va` on are mapped, to pages that can be freed if they are to be.
pub record Removable (end_of_kernel root : ℕ) (tables : Tables) (r : Ram) (va n : ℕ)
    (do_free : Bool) : Type 0 where
  pub leaf :
      (k : ℕ)
      → k < n
      → (is_valid (lookup root (va + k * 4096) r) ≡ true)
        × ((pte_flags (lookup root (va + k * 4096) r) == 1) ≡ false)
  pub freeable :
      do_free ≡ true
      → (k : ℕ) → k < n
      → Freeable tables r.free end_of_kernel (pte_to_pa (lookup root (va + k * 4096) r))
  pub apart :
      do_free ≡ true
      → (j k : ℕ) → j < k
      → k < n
      → pte_to_pa (lookup root (va + j * 4096) r) ≢ pte_to_pa (lookup root (va + k * 4096) r)

pub record Unmapped (root : ℕ) (tables : Tables) (r : Ram) (va n : ℕ) (do_free : Bool)
    (result : Result Ram) : Type 0 where
  pub after : Ram
  pub returns : result ≡ ok after
  pub tree : Tree root tables after
  pub looks :
      (b : ℕ)
      → b < max_va
      → lookup root b after ≡ (
          if leb (va / 4096) (b / 4096) && ltb (b / 4096) (va / 4096 + n)
          then 0
          else lookup root b r)
  pub free : after.free ≡ (if do_free then frames (λ b. lookup root b r) n va r.free else r.free)

-- The page at `a` unmapped, and freed if it is to be.
record OneLess (root : ℕ) (tables : Tables) (r : Ram) (a : ℕ) (do_free : Bool) (u : Ram)
    : Type 0 where
  tree : Tree root tables u
  looks :
      (b : ℕ) → b < max_va → lookup root b u ≡ (if b / 4096 == a / 4096 then 0 else lookup root b r)
  free : u.free ≡ (if do_free then pte_to_pa (lookup root a r) ∷ r.free else r.free)

unmap_none :
    (end_of_kernel root va : ℕ) (do_free : Bool) (r : Ram)
    → unmap_from end_of_kernel 0 root va do_free r ≡ ok r
unfolding unmap_from
unmap_none end_of_kernel root va do_free r = refl

free_none : (do_free : Bool) (free : List ℕ) → free ≡ (if do_free then free else free)
free_none false free = refl
free_none true free = refl

-- The pages behind the first one are mapped in `u` as in `r`.
abbrev Later : (root n va : ℕ) → Ram → Ram → Type 0
Later root n va r u =
    (k : ℕ) → k < n → lookup root (va + page_size + k * 4096) u ≡ lookup root (va + suc k * 4096) r

module _ (end_of_kernel : ℕ) {root : ℕ} {tables : Tables} where
  clear_entry :
      {r s : Ram} (a q : ℕ) (do_free : Bool)
      → Tree root tables s
      → a < max_va
      → Reaches 2 root a s q
      → ((b : ℕ) → b < max_va → lookup root b s ≡ lookup root b r)
      → s.free ≡ (if do_free then pte_to_pa (lookup root a r) ∷ r.free else r.free)
      → OneLess root tables r a do_free (store q (px 0 a) 0 s)
  clear_entry {r} {s} a q do_free t less reach same free =
      let (leaf, is) = lookup_reached t 2 root a q (at_root-OnPath t a less) reach in
      record {
        tree = store-Tree t q (page_number 1 a) (px 0 a) 0 leaf;
        looks = λ b h.
            store_looks t q a 0 b less h reach
            ∙ ap (λ x. if b / 4096 == a / 4096 then 0 else x) (same b h);
        free = free;
      }

  one_page :
      (n a : ℕ) (do_free : Bool) {r : Ram}
      → 0 < end_of_kernel
      → Tree root tables r
      → a < max_va
      → is_valid (lookup root a r) ≡ true
      → (pte_flags (lookup root a r) == 1) ≡ false
      → (do_free ≡ true → Freeable tables r.free end_of_kernel (pte_to_pa (lookup root a r)))
      → (u : Ram) × OneLess root tables r a do_free u
        × (unmap_from end_of_kernel (suc n) root a do_free r
            ≡ unmap_from end_of_kernel n root (a + page_size) do_free u)
  unfolding unmap_from
  one_page n a false {r} pos t less valid leaf_flags freeable =
      let (q, found, reach, is) = walk_found a t less valid in
      let good : is_valid (r.word q (px 0 a)) ≡ true = rw is at valid in
      let flags : (pte_flags (r.word q (px 0 a)) == 1) ≡ false = rw is at leaf_flags in
      (
        store q (px 0 a) 0 r,
        clear_entry a q false t less reach (λ b h. refl) refl,
        rw (found, unmap_from, good, flags) refl,
      )
  one_page n a true {r} pos t less valid leaf_flags freeable =
      let (q, found, reach, is) = walk_found a t less valid in
      let pa = pte_to_pa (r.word q (px 0 a)) in
      let f : Freeable tables r.free end_of_kernel pa = rw is at (freeable refl) in
      let good : is_valid (r.word q (px 0 a)) ≡ true = rw is at valid in
      let flags : (pte_flags (r.word q (px 0 a)) == 1) ≡ false = rw is at leaf_flags in
      let s = with_page pa (filled 1) (record r { free = pa ∷ r.free }) in
      (
        store q (px 0 a) 0 s,
        clear_entry a q true (freed-Tree t end_of_kernel pa (filled 1) pos f) less
            (with_page-Reaches t 2 root a pa q (filled 1) (pa ∷ r.free) (at_root-OnPath t a less)
              f.no_table reach)
            (λ b h. same_looks t b pa (filled 1) (pa ∷ r.free) h f.no_table) (rw is refl),
        rw (found, unmap_from, good, flags, kfree_takes end_of_kernel pa r f) refl,
      )

  module _ (n va : ℕ) {r u : Ram} where
    Removable-next :
        (do_free : Bool)
        → Later root n va r u
        → OneLess root tables r va do_free u
        → Removable end_of_kernel root tables r va (suc n) do_free
        → Removable end_of_kernel root tables u (va + page_size) n do_free
    Removable-next do_free later one m = record {
      leaf = λ k h. rw (later k h) (m.leaf (suc k) (omega arith));
      freeable = λ e k h.
          let f = m.freeable e (suc k) (omega arith) in
          let here : va + 0 * 4096 ≡ va = omega arith in
          let apart = rw here at (m.apart e 0 (suc k) (omega arith) (omega arith)) in
          rw (later k h) record {
            no_table = f.no_table;
            not_free = rw (one.free, e) (ground (arith, apart, f.not_free));
            aligned = f.aligned;
            above = f.above;
            below = f.below;
          };
      apart = λ e j k h l.
          rw (later j (omega arith), later k l)
            (m.apart e (suc j) (suc k) (omega arith) (omega arith));
    }

    free_next :
        (do_free : Bool) (free : List ℕ)
        → Later root n va r u
        → OneLess root tables r va do_free u
        → free
          ≡ (if do_free then frames (λ b. lookup root b u) n (va + page_size) u.free else u.free)
        → free ≡ (if do_free then frames (λ b. lookup root b r) (suc n) va r.free else r.free)
    unfolding frames
    free_next false free later one e = e ∙ one.free
    free_next true free later one e =
        e
        ∙ (ap (frames (λ b. lookup root b u) n (va + page_size)) one.free
            ∙ frames_cong (λ b. lookup root b u) (λ b. lookup root b r) n (va + page_size)
                (pte_to_pa (lookup root va r) ∷ r.free)
                λ k h.
                  let at : va + page_size + k * 4096 ≡ va + suc k * 4096 = omega arith in
                  later k h ∙ rw at refl)

  unmap_from-Unmapped :
      (n va : ℕ) (do_free : Bool) {r : Ram}
      → 0 < end_of_kernel
      → Tree root tables r
      → va % page_size ≡ 0
      → va + n * page_size ≤ max_va
      → Removable end_of_kernel root tables r va n do_free
      → Unmapped root tables r va n do_free (unmap_from end_of_kernel n root va do_free r)
  unfolding frames
  unmap_from-Unmapped zero va do_free {r} pos t aligned below m = record {
    after = r;
    returns = unmap_none end_of_kernel root va do_free r;
    tree = t;
    looks = λ b h. ground arith;
    free = free_none do_free r.free;
  }
  unmap_from-Unmapped (suc n) va do_free {r} pos t aligned below m =
      let here : va + 0 * 4096 ≡ va = omega arith in
      let (valid, flags) = rw here at (m.leaf 0 (omega arith)) in
      let (u, one, goes_on) =
        one_page n va do_free pos t (omega (arith, below)) valid flags
          λ e. rw here at (m.freeable e 0 (omega arith)) in
      let later : (k : ℕ)
          → k < n
          → lookup root (va + page_size + k * 4096) u ≡ lookup root (va + suc k * 4096) r =
        λ k h.
          let at : va + page_size + k * 4096 ≡ va + suc k * 4096 = omega arith in
          let other : ((va + suc k * 4096) / 4096 == va / 4096) ≡ false = ground arith in
          let is = one.looks (va + suc k * 4096) (omega (arith, h, below)) in
          rw at (is ∙ rw other refl) in
      let rest =
        unmap_from-Unmapped n (va + page_size) do_free pos one.tree (omega (arith, aligned))
          (omega (arith, below)) (Removable-next n va do_free later one m) in
      record {
        after = rest.after;
        returns = goes_on ∙ rest.returns;
        tree = rest.tree;
        looks = λ b h.
            let first = one.looks b h in
            let others = rest.looks b h in
            let next : (va + page_size) / 4096 ≡ va / 4096 + 1 = omega arith in
            ground (arith, first, others, next);
        free = free_next n va do_free rest.after.free later one rest.free;
      }

  -- With a page table whose tables are all different pages and none of them free, and with the
  -- pages of the range mapped as leaves, to different pages that are no tables if they are to be
  -- freed: `uvmunmap` returns, with nothing mapped in the range, every other address mapped as
  -- before, and the pages, last one first, on the free list if they are to be freed.
  pub uvmunmap-Unmapped :
      (va n : ℕ) (do_free : Bool) {r : Ram}
      → 0 < end_of_kernel
      → Tree root tables r
      → va % page_size ≡ 0
      → va + n * page_size ≤ max_va
      → Removable end_of_kernel root tables r va n do_free
      → Unmapped root tables r va n do_free (uvmunmap end_of_kernel root va n do_free r)
  unfolding uvmunmap
  uvmunmap-Unmapped va n do_free pos t aligned below m =
      let at_page : (va % page_size == 0) ≡ true = ground (arith, aligned) in
      rw (at_page, uvmunmap) (unmap_from-Unmapped n va do_free pos t aligned below m)

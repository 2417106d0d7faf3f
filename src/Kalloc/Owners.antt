-- ===== src/Kalloc/Owners.antt =====
-- kernel/kalloc.c: the pages in the hands of the rest of the kernel, beside those on the free list.
--
-- An owner may ask for a page, write what it likes into a page that it has, and give a page back
-- that it has. It writes into no other page.
use tdt4186_lab.Base.{
  ℕ, ◌+◌, ◌≤◌, ◌<◌, ◌≡◌, ◌≢◌, ◌∙◌, refl, false, ◌==◌, if◌then◌else◌, List, [], ◌∷◌, has, count,
  count-has, once-Distinct, update, Result, ok, panic, arith, inl, inr, none, some, get_elem?,
  count-remove, count_of_elem, remove, Option-cases,
}
use tdt4186_lab.Kalloc.{Memory, Page, kfree, kalloc}
use tdt4186_lab.Kalloc.Chain.{Chain, FreeList, Chain-update, IsPage, kfree-Freed, kalloc-Allocated}

pub record Pages : Type 0 where
  pub memory : Memory
  pub owned : List ℕ

-- The `i` of an event is a place in the list of owned pages.
pub data Event : Type 0 where
  take : Event
  write : (i : ℕ) → Page → Event
  give : (i : ℕ) → Event

module _ (end_of_kernel : ℕ) where
  unfoldable pub step : Event → Pages → Result Pages
  unfolding kalloc kfree
  step take p =
      let (r, t) = kalloc end_of_kernel p.memory in
      ok (record { memory = t; owned = if r == 0 then p.owned else r ∷ p.owned })
  step (write i c) p = elim (get_elem? p.owned i) [
    | none ↦ ok p
    | some a ↦ ok (record p { memory = record (p.memory) { page = update p.memory.page a c } })
  ]
  step (give i) p = elim (get_elem? p.owned i) [
    | none ↦ ok p
    | some a ↦ elim (kfree end_of_kernel a p.memory) [
      | panic m ↦ panic m
      | ok t ↦ ok (record { memory = t; owned = remove p.owned i })
    ]
  ]

  unfoldable pub run : List Event → Pages → Result Pages
  unfolding step
  run [] p = ok p
  run (e ∷ es) p = elim (step e p) [ panic m ↦ panic m | ok q ↦ run es q ]

module _ (end_of_kernel : ℕ) where
  -- Each page is on the free list or owned, once at most; nothing else is.
  pub record Books (p : Pages) (free : List ℕ) : Type 0 where
    pub chain : Chain p.memory.page p.memory.freelist free
    pub once : (a : ℕ) → count a free + count a p.owned ≤ 1
    pub pages : (a : ℕ) → 0 < count a free + count a p.owned → IsPage end_of_kernel a

  pub record Kept (result : Result Pages) (p : Pages) (free : List ℕ) : Type 0 where
    pub after : Pages
    pub left : List ℕ
    pub returns : result ≡ ok after
    pub books : Books after left
    pub conserved : (a : ℕ) → count a left + count a after.owned ≡ count a free + count a p.owned

  distinct_free : (p : Pages) (free : List ℕ) → Books p free → FreeList p.memory free
  distinct_free p free b = record {
    chain = b.chain;
    distinct = once-Distinct free λ a. omega (arith, b.once a);
  }

  take-Kept : (p : Pages) (free : List ℕ) → Books p free → Kept (step end_of_kernel take p) p free
  unfolding step
  take-Kept p [] b =
      let (r0, same) = kalloc-Allocated end_of_kernel [] (distinct_free p [] b) in
      rw (r0, same)
        record { after = p; left = []; returns = refl; books = b; conserved = λ a. refl }
  take-Kept p (x ∷ xs) b =
      let (rx, list, junk) = kalloc-Allocated end_of_kernel (x ∷ xs) (distinct_free p (x ∷ xs) b) in
      let taken : Pages = record {
        memory = (kalloc end_of_kernel p.memory).1;
        owned = x ∷ p.owned;
      } in
      let nonzero : (x == 0) ≡ false = ground (arith, b.chain.1) in
      rw (rx, nonzero)
        record {
          after = taken;
          left = xs;
          returns = refl;
          books = record {
            chain = list.chain;
            once = λ a. omega (arith, b.once a);
            pages = λ a h. b.pages a (omega arith);
          };
          conserved = λ a. omega arith;
        }

  owned_not_free :
      (p : Pages) (free : List ℕ) (i a : ℕ)
      → Books p free
      → get_elem? p.owned i ≡ some a
      → has a free ≡ false
  owned_not_free p free i a b e =
      let mine = count_of_elem p.owned i a e in count-has a free (omega (arith, b.once a))

  write-Kept :
      (p : Pages) (free : List ℕ) (i : ℕ) (c : Page)
      → Books p free
      → Kept (step end_of_kernel (write i c) p) p free
  unfolding step
  write-Kept p free i c b = elim (Option-cases (get_elem? p.owned i)) [
    | inl e ↦
        rw (e, step)
          record { after = p; left = free; returns = refl; books = b; conserved = λ a. refl }
    | inr (a, e) ↦
        let gone = owned_not_free p free i a b e in
        rw (e, step)
          record {
            after = record p { memory = record (p.memory) { page = update p.memory.page a c } };
            left = free;
            returns = refl;
            books = record {
              chain = Chain-update p.memory.page p.memory.freelist a c free gone b.chain;
              once = b.once;
              pages = b.pages;
            };
            conserved = λ a. refl;
          }
  ]

  give-Kept :
      (p : Pages) (free : List ℕ) (i : ℕ)
      → 0 < end_of_kernel
      → Books p free
      → Kept (step end_of_kernel (give i) p) p free
  unfolding step
  give-Kept p free i pos b = elim (Option-cases (get_elem? p.owned i)) [
    | inl e ↦
        rw (e, step)
          record { after = p; left = free; returns = refl; books = b; conserved = λ a. refl }
    | inr (a, e) ↦
        let gone = owned_not_free p free i a b e in
        let mine = count_of_elem p.owned i a e in
        let v = b.pages a (omega arith) in
        let f = kfree-Freed end_of_kernel a free v pos (distinct_free p free b) gone in
        let moved : (x : ℕ)
            → count x (a ∷ free) + count x (remove p.owned i) ≡ count x free + count x p.owned =
          λ x. omega (arith, count-remove p.owned i x a e) in
        rw (e, f.returns, step)
          record {
            after = record { memory = f.after; owned = remove p.owned i };
            left = a ∷ free;
            returns = refl;
            books = record {
              chain = f.list.chain;
              once = λ x. omega (arith, moved x, b.once x);
              pages = λ x h. b.pages x (omega (arith, moved x));
            };
            conserved = moved;
          }
  ]

  step-Kept :
      (e : Event) (p : Pages) (free : List ℕ)
      → 0 < end_of_kernel
      → Books p free
      → Kept (step end_of_kernel e p) p free
  step-Kept take p free pos b = take-Kept p free b
  step-Kept (write i c) p free pos b = write-Kept p free i c b
  step-Kept (give i) p free pos b = give-Kept p free i pos b

  -- From books in which each page is free or owned at most once, any sequence of `kalloc` calls,
  -- writes into owned pages and `kfree` calls on owned pages runs without a panic, and leaves books
  -- in which every page stands as often as before: none is lost, doubled or invented, and the free
  -- list is still intact.
  pub run-Kept :
      (es : List Event) {p : Pages} {free : List ℕ}
      → 0 < end_of_kernel
      → Books p free
      → Kept (run end_of_kernel es p) p free
  unfolding run
  run-Kept [] {p} {free} pos b = record {
    after = p;
    left = free;
    returns = refl;
    books = b;
    conserved = λ a. refl;
  }
  run-Kept (e ∷ es) {p} {free} pos b =
      let k = step-Kept e p free pos b in
      let l = run-Kept es pos k.books in
      rw (k.returns, run)
        record {
          after = l.after;
          left = l.left;
          returns = l.returns;
          books = l.books;
          conserved = λ a. l.conserved a ∙ k.conserved a;
        }

  kalloc_unowned :
      (p : Pages) (free : List ℕ)
      → Books p free
      → (kalloc end_of_kernel p.memory).0 ≢ 0
      → has (kalloc end_of_kernel p.memory).0 p.owned ≡ false
  kalloc_unowned p [] b n =
      let (r0, same) = kalloc-Allocated end_of_kernel [] (distinct_free p [] b) in absurd (n r0)
  kalloc_unowned p (x ∷ xs) b n =
      let (rx, list, junk) = kalloc-Allocated end_of_kernel (x ∷ xs) (distinct_free p (x ∷ xs) b) in
      rw rx (count-has x p.owned (ground (arith, b.once x)))

  -- After any such sequence, the page that `kalloc` gives out next, if it gives one out, is owned by
  -- nobody.
  pub kalloc_is_fresh :
      (es : List Event) {p q : Pages} {free : List ℕ}
      → 0 < end_of_kernel
      → Books p free
      → run end_of_kernel es p ≡ ok q
      → (kalloc end_of_kernel q.memory).0 ≢ 0
      → has (kalloc end_of_kernel q.memory).0 q.owned ≡ false
  kalloc_is_fresh es {p} {q} {free} pos b e n =
      let k = run-Kept es pos b in
      let same : k.after ≡ q = cc in kalloc_unowned q k.left (rw same at k.books) n

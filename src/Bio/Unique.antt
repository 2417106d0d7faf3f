-- ===== src/Bio/Unique.antt =====
-- kernel/bio.c: no two buffers have the same block, and the list has every buffer once.
use mathlib.Core.List.{reverse}
use tdt4186_lab.Base.{
  ℕ, zero, suc, ◌+◌, ◌<◌, ◌≡◌, ◌≢◌, refl, subst, ◌∙◌, Bool, true, false, ◌==◌, ◌%◌, ◌^◌, ltb, List,
  [], ◌∷◌, has, length, arith, ok, none, some, Bool-cases, Option-cases, inl, inr, update,
}
use tdt4186_lab.Bio.{
  Cache, Buf, head, num_buf, modify, caches, is_spare, recycled, got, bget, brelse, holds, binit,
  link_from, push_front,
}
use tdt4186_lab.Bio.Ring.{
  IsRing, move_front, countdown, has-countdown, binit-IsRing, brelse-Released,
}
use tdt4186_lab.Bio.Search.{find, bget_lem, found}

-- The pointers are a list of all buffers, and no two buffers have the same block of a device.
pub record IsCache (c : Cache) (xs : List ℕ) : Type 0 where
  pub ring : IsRing c xs
  pub size : length xs ≡ num_buf
  pub full : (i : ℕ) → has i xs ≡ ltb i num_buf
  pub unique :
      (i j : ℕ)
      → i < num_buf
      → j < num_buf
      → (c.buf i).dev ≢ 0
      → (c.buf i).dev ≡ (c.buf j).dev
      → (c.buf i).blockno ≡ (c.buf j).blockno
      → i ≡ j

abbrev pub InOrder : Cache → Type 0
InOrder c = (xs : List ℕ) × IsCache c xs

find-none :
    (test : ℕ → Bool) (xs : List ℕ) (i : ℕ) → find test xs ≡ none → has i xs ≡ true → test i ≡ false
unfolding find
find-none test [] i e h = cc
find-none test (x ∷ xs) i e h = elim (Bool-cases (i == x)) [
  | inl same ↦ let at : i ≡ x = ground arith in rw at (ground arith)
  | inr other ↦ find-none test xs i (ground arith) (ground arith)
]

find-some :
    (test : ℕ → Bool) (xs : List ℕ) {b : ℕ}
    → find test xs ≡ some b
    → (test b ≡ true) × (has b xs ≡ true)
unfolding find
find-some test [] e = cc
find-some test (x ∷ xs) {b} e = elim (Bool-cases (test x)) [
  | inl h ↦ let at : x ≡ b = ground arith in rw (← at) (h, ground arith)
  | inr h ↦ let (p, q) = find-some test xs {b = b} (ground arith) in (p, ground arith)
]

abbrev pub SameBlocks : Cache → Cache → Type 0
SameBlocks c d = (i : ℕ) → ((d.buf i).dev ≡ (c.buf i).dev) × ((d.buf i).blockno ≡ (c.buf i).blockno)

-- A change that leaves the blocks of all buffers alone, and at most their order.
kept :
    {c d : Cache} {xs ys : List ℕ}
    → IsCache c xs
    → IsRing d ys
    → length ys ≡ length xs
    → ((i : ℕ) → has i ys ≡ has i xs)
    → SameBlocks c d
    → IsCache d ys
kept {c} {d} v r size has same = record {
  ring = r;
  size = size ∙ v.size;
  full = λ i. has i ∙ v.full i;
  unique = λ i j hi hj n e f.
      v.unique i j hi hj (ground (arith, same i, n)) (ground (arith, same i, same j, e))
        (ground (arith, same i, same j, f));
}

-- The same for a change that leaves the pointers alone too.
pub kept_in_place :
    {c d : Cache} {xs : List ℕ}
    → IsCache c xs
    → d.next ≡ c.next
    → d.prev ≡ c.prev
    → SameBlocks c d
    → IsCache d xs
kept_in_place {c} {d} {xs} v n p same =
    kept v (record { links = rw (n, p) v.ring.links; distinct = v.ring.distinct }) refl (λ i. refl)
      same

-- The block that no buffer has goes to one buffer.
recycled-IsCache :
    (dev blockno b : ℕ) {c : Cache} {xs : List ℕ}
    → IsCache c xs
    → dev ≢ 0
    → find (caches dev blockno c) xs ≡ none
    → IsCache (modify b (recycled dev blockno) c) xs
recycled-IsCache dev blockno b {c} {xs} v real missing =
    let absent : (i : ℕ) → i < num_buf → caches dev blockno c i ≡ false =
      λ i h. find-none (caches dev blockno c) xs i missing (v.full i ∙ ground arith) in
    record {
      ring = record { links = v.ring.links; distinct = v.ring.distinct };
      size = v.size;
      full = v.full;
      unique = λ i j hi hj n e f. ground (arith, absent i, absent j, v.unique i j);
    }

erase-size : (b : ℕ) (xs : List ℕ) → has b xs ≡ true → length (move_front b xs) ≡ length xs
erase-size b [] h = cc
erase-size b (x ∷ xs) h = ground (arith, erase-size b xs)

erase-has : (b i : ℕ) (xs : List ℕ) → has b xs ≡ true → has i (move_front b xs) ≡ has i xs
erase-has b i [] h = cc
erase-has b i (x ∷ xs) h = ground (arith, erase-has b i xs)

pub brelse-InOrder :
    (pid b : ℕ) {c d : Cache} {xs : List ℕ}
    → IsCache c xs
    → b < num_buf
    → brelse pid b c ≡ ok d
    → InOrder d
unfolding brelse
brelse-InOrder pid b {c} {d} {xs} v h e =
    let there : has b xs ≡ true = v.full b ∙ ground arith in
    elim (Bool-cases (holds (c.buf b).owner pid)) [
      | inl mine ↦
          let r = brelse-Released pid b v.ring there mine in
          let same : r.after ≡ d = cc in
          let blocks : SameBlocks c r.after = λ i. rw r.bufs (ground arith) in
          subst InOrder same (elim (Bool-cases ((r.after.buf b).refcnt == 0)) [
            | inl last ↦
                let ring : IsRing r.after (move_front b xs) = rw last at r.ring in
                (
                  move_front b xs,
                  kept v ring (erase-size b xs there) (λ i. erase-has b i xs there) blocks,
                )
            | inr more ↦
                let ring : IsRing r.after xs = rw more at r.ring in
                (xs, kept v ring refl (λ i. refl) blocks)
          ])
      | inr other ↦ ground (arith, other)
    ]

pub bget-InOrder :
    (dev blockno : ℕ) {c d : Cache} {b : ℕ} {xs : List ℕ}
    → IsCache c xs
    → dev ≢ 0
    → bget dev blockno c ≡ ok (b, d)
    → IsCache d xs
bget-InOrder dev blockno {c} {d} {b} {xs} v real e =
    let e' : found dev blockno c xs ≡ ok (b, d) =
      rw (bget_lem dev blockno v.ring (omega (arith, v.size))) at e in
    elim (Option-cases (find (caches dev blockno c) xs)) [
      | inl missing ↦ elim (Option-cases (find (is_spare c) (reverse xs))) [
        | inl full ↦
            let no : got dev blockno c none none ≡ ok (b, d) = rw (missing, full) at e' in cc
        | inr (i, spare) ↦
            let taken : got dev blockno c none (some i) ≡ ok (b, d) = rw (missing, spare) at e' in
            let same : modify i (recycled dev blockno) c ≡ d = cc in
            subst (λ k. IsCache k xs) same (recycled-IsCache dev blockno i v real missing)
      ]
      | inr (i, hit) ↦
          let more = λ (f : Buf). record f { refcnt = (f.refcnt + 1) % 2 ^ 32 } in
          let spare = find (is_spare c) (reverse xs) in
          let taken : got dev blockno c (some i) spare ≡ ok (b, d) = rw hit at e' in
          let same : modify i more c ≡ d = cc in
          subst (λ k. IsCache k xs) same (kept_in_place v refl refl λ j. ground arith)
    ]

link_from_dev : (left b : ℕ) (c : Cache) (i : ℕ) → ((link_from left b c).buf i).dev ≡ (c.buf i).dev
unfolding link_from
link_from_dev zero b c i = refl
link_from_dev (suc left) b c i =
    let bare = modify b (λ f. record f { owner = none }) c in
    link_from_dev left (b + 1) (push_front b bare) i ∙ ground arith

-- The buffers start as zeroed memory, so none of them has a device yet.
pub binit-InOrder : (c : Cache) → ((i : ℕ) → (c.buf i).dev ≡ 0) → InOrder (binit c)
unfolding binit
binit-InOrder c zeroed =
    let empty : Cache = record c {
      prev = update c.prev head head;
      next = update c.next head head;
    } in
    let none_yet = λ (i : ℕ). link_from_dev num_buf 0 empty i ∙ zeroed i in
    (
      countdown num_buf,
      record {
        ring = binit-IsRing c;
        size = refl;
        full = λ i. has-countdown i num_buf;
        unique = λ i j hi hj n e f. absurd (n (none_yet i));
      },
    )

-- ===== src/Bio/Search.antt =====
-- kernel/bio.c: `bget` against a search of the list of buffers.
use mathlib.Core.List.{reverse, reverse-cons}
use tdt4186_lab.Base.{
  has-append, ℕ, zero, suc, ◌≤◌, ◌≡◌, refl, ap₂, ◌∙◌, Bool, false, if◌then◌else◌, List, [], ◌∷◌,
  ◌++◌, has, length, length-append, arith, Result, Option, none, some,
}
use tdt4186_lab.Bio.{Cache, head, num_buf, find_along, caches, is_spare, got, bget}
use tdt4186_lab.Bio.Links.{Links}
use tdt4186_lab.Bio.Ring.{IsRing}

-- The first buffer of a list that passes the test.
unfoldable pub find : (ℕ → Bool) → List ℕ → Option ℕ
find test [] = none
find test (x ∷ xs) = if test x then some x else find test xs

find_along-find :
    (next prev : ℕ → ℕ) (test : ℕ → Bool) (a : ℕ) (xs : List ℕ) (left : ℕ)
    → Links next prev a xs head
    → has head xs ≡ false
    → length xs ≤ left
    → find_along next test left (next a) ≡ find test xs
unfolding find_along find
find_along-find next prev test a [] zero l out fits = refl
find_along-find next prev test a [] (suc left) l out fits = ground (arith, l)
find_along-find next prev test a (x ∷ xs) zero l out fits = absurd (omega (arith, fits))
find_along-find next prev test a (x ∷ xs) (suc left) (e, f, l) out fits =
    let ih = find_along-find next prev test x xs left l (ground arith) (omega arith) in
    rw e (ground (arith, ih))

has-reverse : (b : ℕ) (xs : List ℕ) → has b (reverse xs) ≡ has b xs
has-reverse b [] = refl
has-reverse b (x ∷ xs) =
    rw (reverse-cons x xs) (ground (arith, has-append b (reverse xs) (x ∷ []), has-reverse b xs))

length-reverse : (xs : List ℕ) → length (reverse xs) ≡ length xs
length-reverse [] = refl
length-reverse (x ∷ xs) =
    rw (reverse-cons x xs) (omega (arith, length-append (reverse xs) (x ∷ []), length-reverse xs))

Links-snoc :
    (next prev : ℕ → ℕ) (a : ℕ) (xs : List ℕ) (b z : ℕ)
    → Links next prev a xs b
    → next b ≡ z
    → prev z ≡ b
    → Links next prev a (xs ++ b ∷ []) z
Links-snoc next prev a [] b z (e, f) p q = (e, f, (p, q))
Links-snoc next prev a (x ∷ xs) b z (e, f, l) p q = (e, f, Links-snoc next prev x xs b z l p q)

Links-reverse :
    (next prev : ℕ → ℕ) (a : ℕ) (xs : List ℕ) (z : ℕ)
    → Links next prev a xs z
    → Links prev next z (reverse xs) a
Links-reverse next prev a [] z (e, f) = (f, e)
Links-reverse next prev a (x ∷ xs) z (e, f, l) =
    rw (reverse-cons x xs)
      (Links-snoc prev next z (reverse xs) x a (Links-reverse next prev x xs z l) f e)

-- The buffer that has the block, or else the unused buffer that was released longest ago.
abbrev pub found : (dev blockno : ℕ) → Cache → List ℕ → Result (ℕ × Cache)
found dev blockno c xs =
    got dev blockno c (find (caches dev blockno c) xs) (find (is_spare c) (reverse xs))

-- Where the pointers form a list of at most 30 buffers, most recently used first, `bget` takes the
-- first one on it that has the block; if there is none, the last one that is unused, which it gives
-- to the block; and it panics only if all are in use.
pub bget_lem :
    (dev blockno : ℕ) {xs : List ℕ} {c : Cache}
    → IsRing c xs
    → length xs ≤ num_buf
    → bget dev blockno c ≡ found dev blockno c xs
unfolding bget
bget_lem dev blockno {xs} {c} r fits =
    let out = r.distinct.0 in
    let on =
      find_along-find c.next c.prev (caches dev blockno c) head xs num_buf r.links out fits in
    let back =
      find_along-find c.prev c.next (is_spare c) head (reverse xs) num_buf
        (Links-reverse c.next c.prev head xs head r.links) (has-reverse head xs ∙ out)
        (omega (arith, length-reverse xs)) in
    ap₂ (got dev blockno c) on back

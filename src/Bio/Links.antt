-- ===== src/Bio/Links.antt =====
-- kernel/bio.c: a stretch of the doubly linked list as a list of buffers.
use tdt4186_lab.Base.{
  ℕ, ◌≡◌, ◌≢◌, refl, ap, ◌∙◌, true, false, ◌||◌, List, [], ◌∷◌, ◌++◌, has, has-append, Distinct,
  update, arith,
}

-- From `a` the `next` pointers lead through `xs` to `z`, and the `prev` pointers back.
abbrev pub Links : (next prev : ℕ → ℕ) → ℕ → List ℕ → ℕ → Type 0
Links next prev a [] z = (next a ≡ z) × (prev z ≡ a)
Links next prev a (x ∷ xs) z = (next a ≡ x) × (prev x ≡ a) × Links next prev x xs z

pub Distinct-append :
    (xs : List ℕ) (b : ℕ) (zs : List ℕ)
    → Distinct (xs ++ b ∷ zs)
    → (has b xs ≡ false) × (has b zs ≡ false) × Distinct (xs ++ zs)
Distinct-append [] b zs d = (refl, d.0, d.1)
Distinct-append (x ∷ xs) b zs (n, d) =
    let (p, q, r) = Distinct-append xs b zs d in
    let m : (has x xs || has x (b ∷ zs)) ≡ false = rw (has-append x xs (b ∷ zs)) at n in
    (ground (arith, m), q, (ground (arith, m, has-append x xs zs), r))

-- A pointer of a buffer elsewhere may change.
pub Links-frame :
    (next prev : ℕ → ℕ) (a : ℕ) (xs : List ℕ) (z u v p q : ℕ)
    → (has u (a ∷ xs) ≡ false)
    → (has v (z ∷ xs) ≡ false)
    → Links next prev a xs z
    → Links (update next u p) (update prev v q) a xs z
Links-frame next prev a [] z u v p q hu hv (e, f) = (ground arith, ground arith)
Links-frame next prev a (x ∷ xs) z u v p q hu hv (e, f, l) = (
  ground arith,
  ground arith,
  Links-frame next prev x xs z u v p q (ground arith) (ground arith) l,
)

pub Links-append :
    (next prev : ℕ → ℕ) (a : ℕ) (xs : List ℕ) (b : ℕ) (zs : List ℕ) (z : ℕ)
    → Links next prev a (xs ++ b ∷ zs) z
    → Links next prev a xs b × Links next prev b zs z
Links-append next prev a [] b zs z (e, f, l) = ((e, f), l)
Links-append next prev a (x ∷ xs) b zs z (e, f, l) =
    let (m, n) = Links-append next prev x xs b zs z l in ((e, f, m), n)

next_in :
    (next prev : ℕ → ℕ) (b : ℕ) (zs : List ℕ) (z : ℕ)
    → Links next prev b zs z
    → has (next b) (z ∷ zs) ≡ true
next_in next prev b [] z (e, f) = ground arith
next_in next prev b (y ∷ zs) z (e, f, l) = ground arith

prev_in :
    (next prev : ℕ → ℕ) (a : ℕ) (xs : List ℕ) (b : ℕ)
    → Links next prev a xs b
    → has (prev b) (a ∷ xs) ≡ true
prev_in next prev a [] b (e, f) = ground arith
prev_in next prev a (x ∷ xs) b (e, f, l) = ground (arith, prev_in next prev x xs b l)

has_ne : (u v : ℕ) (xs : List ℕ) → has u xs ≡ true → has v xs ≡ false → u ≢ v
has_ne u v xs p q e = let r : has v xs ≡ true = rw (← e) p in cc

-- A buffer that leaves the list: its neighbours point past it.
pub Links-unlink :
    (next prev : ℕ → ℕ) (a : ℕ) (xs : List ℕ) (b : ℕ) (zs : List ℕ) (z : ℕ)
    → Distinct (a ∷ xs ++ b ∷ zs)
    → has z (xs ++ b ∷ zs) ≡ false
    → Links next prev a (xs ++ b ∷ zs) z
    → Links (update next (prev b) (next b)) (update prev (next b) (prev b)) a (xs ++ zs) z
Links-unlink next prev a [] b [] z d fresh l = ground (arith, d, fresh, l)
Links-unlink next prev a [] b (y ∷ zs) z (n, (m, d)) fresh (e, f, (g, h, l)) =
    let off_a : has a (y ∷ zs) ≡ false = ground arith in
    let off_prev : has (prev b) (y ∷ zs) ≡ false = ap (λ u. has u (y ∷ zs)) f ∙ off_a in
    let fresh_y : has y (z ∷ zs) ≡ false = ground arith in
    let off_next : has (next b) (z ∷ zs) ≡ false = ap (λ u. has u (z ∷ zs)) g ∙ fresh_y in
    (
      ground (arith, f, g),
      ground (arith, f, g),
      Links-frame next prev y zs z (prev b) (next b) (next b) (prev b) off_prev off_next l,
    )
Links-unlink next prev a (x ∷ xs) b zs z (n, (m, d)) fresh (e, f, l) =
    let (p, q) = Links-append next prev x xs b zs z l in
    let out : (has a (x ∷ xs) || has a (b ∷ zs)) ≡ false =
      rw (has-append a (x ∷ xs) (b ∷ zs)) at n in
    let out_x : (has x xs || has x (b ∷ zs)) ≡ false = rw (has-append x xs (b ∷ zs)) at m in
    let prev_ne : prev b ≢ a =
      has_ne (prev b) a (x ∷ xs) (prev_in next prev x xs b p) (ground (arith, out)) in
    let next_ne : next b ≢ x =
      has_ne (next b) x (z ∷ zs) (next_in next prev b zs z q) (ground (arith, out_x, fresh)) in
    (
      ground (arith, prev_ne, e),
      ground (arith, next_ne, f),
      Links-unlink next prev x xs b zs z (m, d) (ground (arith, fresh)) l,
    )

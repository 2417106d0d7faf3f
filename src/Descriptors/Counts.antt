-- ===== src/Descriptors/Counts.antt =====
-- kernel/sysfile.c: descriptors counted, for one process beside the others.
use tdt4186_lab.Base.{
  ℕ, zero, suc, ◌+◌, ◌<◌, ◌≡◌, ◌≢◌, ◌⊎◌, inl, inr, refl, ◌∙◌, ◌==◌, if◌then◌else◌, none, some, [],
  ◌∷◌, get_elem?, update, ok, arith, Bool-cases, Option-cases,
}
use tdt4186_lab.File.{File, Files, num_file, with_ref, filealloc, filedup, fileclose, Release}
use tdt4186_lab.File.Counts.{alloc_ends, filedup_lem, given_back, left_of, left_of-ref, close_ends}
use tdt4186_lab.Descriptors.{Ofile, argfd, clear_fd, fdalloc}

-- How many of the entries are file `i`.
unfoldable pub uses : (i : ℕ) → Ofile → ℕ
uses i [] = 0
uses i (none ∷ o) = uses i o
uses i (some f ∷ o) = (if i == f then 1 else 0) + uses i o

abbrev pub one : ℕ → ℕ → ℕ
one f i = if i == f then 1 else 0

-- The count of each file is what `c` says.
pub record Agree (fs : Files) (c : ℕ → ℕ) : Type 0 where
  pub counts : (i : ℕ) → (fs i).ref ≡ c i
  pub known : (i : ℕ) → 0 < c i → i < num_file

pub Agree-cong : (fs : Files) (c d : ℕ → ℕ) → ((i : ℕ) → c i ≡ d i) → Agree fs c → Agree fs d
Agree-cong fs c d same a = record {
  counts = λ i. a.counts i ∙ same i;
  known = λ i h. a.known i (omega (arith, h, same i));
}

pub update-Agree :
    (fs : Files) (c d : ℕ → ℕ) (f : ℕ) (x : File)
    → Agree fs c
    → f < num_file
    → x.ref ≡ d f
    → ((i : ℕ) → i ≢ f → c i ≡ d i)
    → Agree (update fs f x) d
update-Agree fs c d f x a l e same = record {
  counts = λ i. elim (Bool-cases (i == f)) [
    | inl h ↦ let here : i ≡ f = ground arith in rw (h, here) e
    | inr h ↦ rw h (a.counts i ∙ same i (ground (arith, h)))
  ];
  known = λ i h. elim (Bool-cases (i == f)) [
    | inl g ↦ ground (arith, g, l)
    | inr g ↦ a.known i (omega (arith, h, same i (ground (arith, g))))
  ];
}

-- `filealloc` finds no file, or gives one with one use.
pub filealloc-Agree :
    (fs : Files) (c : ℕ → ℕ)
    → Agree fs c
    → (filealloc fs ≡ none)
      ⊎ ((f : ℕ) × (gs : Files) × (filealloc fs ≡ some (f, gs)) × Agree gs (λ i. one f i + c i))
filealloc-Agree fs c a = elim (alloc_ends fs) [
  | inl out ↦ inl out
  | inr (f, l, free, found) ↦ inr (
    f,
    update fs f (with_ref 1 (fs f)),
    found,
    update-Agree fs c (λ i. one f i + c i) f (with_ref 1 (fs f)) a l
        (ground (arith, free, a.counts f)) λ i h. ground (arith, h),
  )
]

pub filedup-Agree :
    (fs : Files) (c : ℕ → ℕ) (f : ℕ)
    → Agree fs c
    → 0 < c f
    → (gs : Files) × (filedup f fs ≡ ok gs) × Agree gs (λ i. one f i + c i)
filedup-Agree fs c f a used =
    let x = with_ref ((fs f).ref + 1) (fs f) in
    (
      update fs f x,
      filedup_lem f fs (omega (arith, a.counts f, used)),
      update-Agree fs c (λ i. one f i + c i) f x a (a.known f used) (ground (arith, a.counts f))
          λ i h. ground (arith, h),
    )

pub fileclose-Agree :
    (fs : Files) (c : ℕ → ℕ) (f : ℕ)
    → Agree fs (λ i. one f i + c i)
    → (r : Release) × (gs : Files) × (fileclose f fs ≡ ok (r, gs)) × Agree gs c
fileclose-Agree fs c f a =
    let x = left_of (c f) (fs f) in
    (
      given_back (c f) (fs f),
      update fs f x,
      close_ends (c f) f fs (ground (arith, a.counts f)),
      update-Agree fs (λ i. one f i + c i) c f x a (a.known f (ground arith))
          (left_of-ref (c f) (fs f)) λ i h. ground (arith, h),
    )

pub uses-fdalloc :
    (f : ℕ) (o : Ofile) (fd : ℕ) (p : Ofile)
    → fdalloc f o ≡ some (fd, p)
    → (i : ℕ) → uses i p ≡ one f i + uses i o
unfolding fdalloc uses
uses-fdalloc f [] fd p e i = cc
uses-fdalloc f (none ∷ o) fd p e i = let is : p ≡ some f ∷ o = cc in rw is refl
uses-fdalloc f (some g ∷ o) fd p e i = elim (Option-cases (fdalloc f o)) [
  | inl q ↦ let bad : none ≡ some (fd, p) = rw q at e in cc
  | inr ((k, r), q) ↦
      let found : some (k + 1, some g ∷ r) ≡ some (fd, p) = rw q at e in
      let is : p ≡ some g ∷ r = cc in
      let rest = uses-fdalloc f o k r q i in rw is (omega (arith, rest))
]

entries_behind :
    (f : ℕ) (o : Ofile) (k g : ℕ)
    → get_elem? (none ∷ o) k ≡ some (some g)
    → (k ≢ 0) × (get_elem? (some f ∷ o) k ≡ some (some g))
entries_behind f o zero g h = let bad : some none ≡ some (some g) = h in cc
entries_behind f o (suc k) g h = (omega arith, h)

entries_with :
    (x fd : ℕ) (o p : Ofile)
    → ((k g : ℕ) → get_elem? o k ≡ some (some g) → (k ≢ fd) × (get_elem? p k ≡ some (some g)))
    → (k g : ℕ) → get_elem? (some x ∷ o) k ≡ some (some g)
    → (k ≢ suc fd) × (get_elem? (some x ∷ p) k ≡ some (some g))
entries_with x fd o p same zero g h = (omega arith, h)
entries_with x fd o p same (suc k) g h =
    let (differs, there) = same k g h in (omega (arith, differs), there)

-- The entry that `fdalloc` has taken, and the others.
pub get_elem?-fdalloc :
    (f : ℕ) (o : Ofile) (fd : ℕ) (p : Ofile)
    → fdalloc f o ≡ some (fd, p)
    → (get_elem? p fd ≡ some (some f))
      × ((k g : ℕ) → get_elem? o k ≡ some (some g) → (k ≢ fd) × (get_elem? p k ≡ some (some g)))
unfolding fdalloc
get_elem?-fdalloc f [] fd p e = cc
get_elem?-fdalloc f (none ∷ o) fd p e =
    let is : p ≡ some f ∷ o = cc in
    let first : fd ≡ 0 = cc in rw (is, first) (refl, entries_behind f o)
get_elem?-fdalloc f (some g ∷ o) fd p e = elim (Option-cases (fdalloc f o)) [
  | inl q ↦ let bad : none ≡ some (fd, p) = rw q at e in cc
  | inr ((k, r), q) ↦
      let found : some (k + 1, some g ∷ r) ≡ some (fd, p) = rw q at e in
      let is : p ≡ some g ∷ r = cc in
      let step : k + 1 ≡ fd = cc in
      let at : fd ≡ suc k = omega (arith, step) in
      let (here, others) = get_elem?-fdalloc f o k r q in
      rw (is, at) (here, entries_with g k o r others)
]

pub uses-clear_fd :
    (fd f : ℕ) (o : Ofile)
    → get_elem? o fd ≡ some (some f)
    → (i : ℕ) → uses i o ≡ one f i + uses i (clear_fd fd o)
unfolding clear_fd uses
uses-clear_fd fd f [] e i = cc
uses-clear_fd zero f (x ∷ o) e i = let is : x ≡ some f = cc in rw is refl
uses-clear_fd (suc fd) f (none ∷ o) e i = uses-clear_fd fd f o e i
uses-clear_fd (suc fd) f (some g ∷ o) e i = omega (arith, uses-clear_fd fd f o e i)

pub get_elem?-clear_fd :
    (fd k : ℕ) (o : Ofile) → k ≢ fd → get_elem? (clear_fd fd o) k ≡ get_elem? o k
unfolding clear_fd
get_elem?-clear_fd fd k [] n = refl
get_elem?-clear_fd zero zero (x ∷ o) n = absurd (n refl)
get_elem?-clear_fd zero (suc k) (x ∷ o) n = refl
get_elem?-clear_fd (suc fd) zero (x ∷ o) n = refl
get_elem?-clear_fd (suc fd) (suc k) (x ∷ o) n = get_elem?-clear_fd fd k o (omega (arith, n))

pub argfd_lem : (fd f : ℕ) (o : Ofile) → argfd fd o ≡ some f → get_elem? o fd ≡ some (some f)
unfolding argfd
argfd_lem fd f o e = elim (Option-cases (get_elem? o fd)) [
  | inl q ↦ ground (arith, e, q)
  | inr (x, q) ↦ ground (arith, e, q)
]

-- ===== src/Fs/Path/Elements.antt =====
-- kernel/fs.c: what `skipelem` takes off a path that is made of names and slashes.
use mathlib.Core.List.{append-nil}
use tdt4186_lab.Base.{
  ℕ, zero, suc, ◌≤◌, ◌<◌, ◌≡◌, ◌≢◌, ◌⊎◌, refl, ap, ap₂, ◌∙◌, none, some, List, [], ◌∷◌, ◌++◌,
  length, length-append, All, arith, inl, inr,
}
use tdt4186_lab.Fs.Path.{
  Name, dir_size, slash, skip_slashes, element, behind, take, skip_from, skipelem,
}

-- A name, and how many slashes follow it.
pub record Part : Type 0 where
  pub name : Name
  pub slashes : ℕ

abbrev pub slashes : ℕ → Name
slashes zero = []
slashes (suc n) = slash ∷ slashes n

abbrev pub render : List Part → Name
render [] = []
render (p ∷ ps) = p.name ++ (slashes p.slashes ++ render ps)

-- Names are not empty and have no slash; all but the last are followed by one at least.
abbrev pub IsName : Name → Type 0
IsName n = (n ≢ []) × All (λ c. c ≢ slash) n

abbrev pub Parted : List Part → Type 0
Parted [] = Unit
Parted (p ∷ []) = IsName p.name
Parted (p ∷ q ∷ ps) = IsName p.name × (0 < p.slashes) × Parted (q ∷ ps)

skip_slashes_past : (k : ℕ) (cs : Name) → skip_slashes (slashes k ++ cs) ≡ skip_slashes cs
unfolding skip_slashes
skip_slashes_past zero cs = refl
skip_slashes_past (suc k) cs = skip_slashes_past k cs

element-append : (n cs : Name) → All (λ c. c ≢ slash) n → element (n ++ cs) ≡ n ++ element cs
unfolding element
element-append [] cs h = refl
element-append (c ∷ n) cs (h, hs) = ground (arith, h, element-append n cs hs)

behind-append : (n cs : Name) → All (λ c. c ≢ slash) n → behind (n ++ cs) ≡ behind cs
unfolding behind
behind-append [] cs h = refl
behind-append (c ∷ n) cs (h, hs) = ground (arith, h, behind-append n cs hs)

-- A path that goes on with a slash, or ends.
abbrev AtEnd : Name → Type 0
AtEnd cs = (element cs ≡ []) × (behind cs ≡ cs)

slashes-AtEnd : (k : ℕ) (cs : Name) → (0 < k) ⊎ (cs ≡ []) → AtEnd (slashes k ++ cs)
unfolding element behind
slashes-AtEnd zero cs h = ground (arith, h)
slashes-AtEnd (suc k) cs h = (refl, refl)

pub tail-Parted : (p : Part) (ps : List Part) → Parted (p ∷ ps) → Parted ps
tail-Parted p [] h = tt
tail-Parted p (q ∷ ps) h = h.2

pub head-IsName : (p : Part) (ps : List Part) → Parted (p ∷ ps) → IsName p.name
head-IsName p [] h = h
head-IsName p (q ∷ ps) h = h.0

gap : (p : Part) (ps : List Part) → Parted (p ∷ ps) → (0 < p.slashes) ⊎ (render ps ≡ [])
gap p [] h = inr refl
gap p (q ∷ ps) h = inl h.1

skip_name : (n cs : Name) → IsName n → skip_slashes (n ++ cs) ≡ n ++ cs
unfolding skip_slashes
skip_name [] cs h = absurd (h.0 refl)
skip_name (c ∷ n) cs (h, (ne, hs)) = ground (arith, ne)

pub skip_slashes-render : (ps : List Part) → Parted ps → skip_slashes (render ps) ≡ render ps
unfolding skip_slashes
skip_slashes-render [] h = refl
skip_slashes-render (p ∷ ps) h =
    skip_name p.name (slashes p.slashes ++ render ps) (head-IsName p ps h)

skip_from_name :
    (n cs : Name)
    → IsName n
    → AtEnd cs
    → skip_from (n ++ cs) ≡ some (take dir_size n, skip_slashes cs)
skip_from_name [] cs h e = absurd (h.0 refl)
skip_from_name (c ∷ n) cs (h, hs) (e, b) =
    let whole = element-append (c ∷ n) cs hs ∙ (ap (λ x. (c ∷ n) ++ x) e ∙ append-nil (c ∷ n)) in
    ap₂ (λ x y. some (take dir_size x, skip_slashes y)) whole (behind-append (c ∷ n) cs hs ∙ b)

-- The path in hand, up to leading slashes, is these parts.
abbrev pub Is : Name → List Part → Type 0
Is path ps = skip_slashes path ≡ render ps

pub skipelem_ends : (path : Name) → Is path [] → skipelem path ≡ none
unfolding skipelem
skipelem_ends path e = ap skip_from e

pub skipelem_part :
    (path : Name) (p : Part) (ps : List Part)
    → Parted (p ∷ ps)
    → Is path (p ∷ ps)
    → skipelem path ≡ some (take dir_size p.name, render ps)
unfolding skipelem
skipelem_part path p ps h e =
    let cs = slashes p.slashes ++ render ps in
    let rest : skip_slashes cs ≡ render ps =
      skip_slashes_past p.slashes (render ps) ∙ skip_slashes-render ps (tail-Parted p ps h) in
    let at_end = slashes-AtEnd p.slashes (render ps) (gap p ps h) in
    ap skip_from e
    ∙ (skip_from_name p.name cs (head-IsName p ps h) at_end
        ∙ ap (λ x. some (take dir_size p.name, x)) rest)

pub render-Is : (k : ℕ) (ps : List Part) → Parted ps → Is (slashes k ++ render ps) ps
render-Is k ps h = skip_slashes_past k (render ps) ∙ skip_slashes-render ps h

nonempty : (n : Name) → n ≢ [] → 0 < length n
nonempty [] h = absurd (h refl)
nonempty (c ∷ n) h = omega arith

pub length-render : (ps : List Part) → Parted ps → length ps ≤ length (render ps)
length-render [] h = omega arith
length-render (p ∷ ps) h =
    let gap_and_rest = slashes p.slashes ++ render ps in
    omega (
      arith,
      length-append p.name gap_and_rest,
      length-append (slashes p.slashes) (render ps),
      nonempty p.name (head-IsName p ps h).0,
      length-render ps (tail-Parted p ps h),
    )

pub length_lead : (k : ℕ) (cs : Name) → length cs ≤ length (slashes k ++ cs)
length_lead k cs = omega (arith, length-append (slashes k) cs)

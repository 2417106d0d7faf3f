-- ===== src/Strings/Copy.antt =====
-- kernel/string.c: `memset`, `strncpy` and `safestrcpy`, where source and destination are apart.
use tdt4186_lab.Base.{
  ℕ, zero, suc, ◌+◌, ◌-◌, ◌%◌, ◌≤◌, ◌<◌, ◌≡◌, ◌≢◌, ◌⊎◌, inl, inr, refl, ◌&&◌, ltb, leb,
  if◌then◌else◌, update, arith,
}
use tdt4186_lab.Strings.{Bytes, memset, fill_zero, strncpy, copy_then_nul, safestrcpy}

-- The `n` bytes from `s` on and the `n` bytes from `t` on do not overlap.
abbrev pub Apart : (n s t : ℕ) → Type 0
Apart n s t = (t + n ≤ s) ⊎ (s + n ≤ t)

-- `len` bytes, none of them NUL, have come from `t` in `before` to `s` in `after`; they end at a NUL
-- of the source or at the limit; and no byte but the `n` from `s` on is another one.
pub record Copied (len n s t limit : ℕ) (before after : Bytes) : Type 0 where
  pub fits : len ≤ limit
  pub prefix : (j : ℕ) → j < len → after (s + j) ≡ before (t + j)
  pub no_nul : (j : ℕ) → j < len → before (t + j) ≢ 0
  pub stops : (before (t + len) ≡ 0) ⊎ (len ≡ limit)
  pub outside : (a : ℕ) → (a < s) ⊎ (s + n ≤ a) → after a ≡ before a

-- A string of at most `n` bytes and its NUL.
pub record Terminated (n s t : ℕ) (before after : Bytes) : Type 0 where
  pub len : ℕ
  pub copied : Copied len (suc n) s t n before after
  pub nul : after (s + len) ≡ 0

pub record Padded (n s t : ℕ) (before after : Bytes) : Type 0 where
  pub len : ℕ
  pub copied : Copied len n s t n before after
  pub zeros : (j : ℕ) → len ≤ j → j < n → after (s + j) ≡ 0

byte-cases : (x : ℕ) → (x ≡ 0) ⊎ ((c : ℕ) × (x ≡ suc c))
byte-cases zero = inl refl
byte-cases (suc c) = inr (c, refl)

first_and_rest :
    (P : ℕ → Type 0) {len : ℕ} → P 0 → ((i : ℕ) → i < len → P (suc i)) → (j : ℕ) → j < suc len → P j
first_and_rest P first rest zero h = first
first_and_rest P first rest (suc i) h = rest i (omega arith)

-- One byte copied in front of the rest.
one_more :
    (len n s t limit : ℕ) (m after : Bytes)
    → Apart (suc n) s t
    → limit ≤ n
    → m t ≢ 0
    → Copied len n (s + 1) (t + 1) limit (update m s (m t)) after
    → Copied (suc len) (suc n) s t (suc limit) m after
one_more len n s t limit m after apart small nonzero c =
    let source : (j : ℕ) → (j < n) → update m s (m t) (t + 1 + j) ≡ m (t + suc j) =
      λ j h. grind (arith, apart) in
    let first : after (s + 0) ≡ m (t + 0) = grind (arith, c.outside s) in
    record {
      fits = omega (arith, c.fits);
      prefix =
          first_and_rest (λ j. after (s + j) ≡ m (t + j)) first
            λ i h. grind (arith, c.prefix i, source i);
      no_nul =
          first_and_rest (λ j. m (t + j) ≢ 0) (grind (arith, nonzero))
            λ i h. grind (arith, c.no_nul i, source i);
      stops = grind (arith, c.stops, source len, nonzero);
      outside = λ a h. grind (arith, c.outside a);
    }

nothing-Copied :
    (n s t limit : ℕ) (m after : Bytes)
    → (m t ≡ 0) ⊎ (0 ≡ limit)
    → ((a : ℕ) → (a < s) ⊎ (s + n ≤ a) → after a ≡ m a)
    → Copied 0 n s t limit m after
nothing-Copied n s t limit m after end same = record {
  fits = omega arith;
  prefix = λ j h. absurd (omega (arith, h));
  no_nul = λ j h. absurd (omega (arith, h));
  stops = grind (arith, end);
  outside = same;
}

copy_then_nul_goes_on :
    (n s t : ℕ) (m : Bytes)
    → m t ≢ 0
    → copy_then_nul (suc n) s t m ≡ copy_then_nul n (s + 1) (t + 1) (update m s (m t))
unfolding copy_then_nul
copy_then_nul_goes_on n s t m h = ground arith

strncpy_goes_on :
    (n s t : ℕ) (m : Bytes)
    → m t ≢ 0
    → strncpy (suc n) s t m ≡ strncpy n (s + 1) (t + 1) (update m s (m t))
unfolding strncpy
strncpy_goes_on n s t m h = ground arith

copy_then_nul-Terminated :
    (n s t : ℕ) (m : Bytes) → Apart (suc n) s t → Terminated n s t m (copy_then_nul n s t m)
unfolding copy_then_nul
copy_then_nul-Terminated zero s t m apart = record {
  len = 0;
  copied = nothing-Copied 1 s t 0 m (update m s 0) (inr refl) λ a h. ground arith;
  nul = ground arith;
}
copy_then_nul-Terminated (suc n) s t m apart = elim (byte-cases (m t)) [
  | inl e ↦
      rw (e, copy_then_nul)
        record {
          len = 0;
          copied = nothing-Copied (suc (suc n)) s t (suc n) m _ (inl e) λ a h. ground arith;
          nul = ground (arith, e);
        }
  | inr (c, e) ↦
      let nonzero : m t ≢ 0 = ground (arith, e) in
      let r =
        copy_then_nul-Terminated n (s + 1) (t + 1) (update m s (m t)) (omega (arith, apart)) in
      rw (copy_then_nul_goes_on n s t m nonzero) record {
        len = suc r.len;
        copied = one_more r.len (suc n) s t n m _ apart (omega arith) nonzero r.copied;
        nul = grind (arith, r.nul);
      }
]

fill_zero_lem :
    (n s : ℕ) (m : Bytes) (a : ℕ)
    → fill_zero n s m a ≡ (if leb s a && ltb a (s + n) then 0 else m a)
unfolding fill_zero
fill_zero_lem zero s m a = ground arith
fill_zero_lem (suc n) s m a = ground (arith, fill_zero_lem n (s + 1) (update m s 0) a)

-- `safestrcpy(s, t, n + 1)` between objects that do not overlap: the bytes of the string at `t`, up
-- to its NUL or to the first `n`, are then at `s`, a NUL is behind them, and no byte outside the
-- `n + 1` from `s` on has changed.
pub safestrcpy-Terminated :
    (n s t : ℕ) (m : Bytes) → Apart (suc n) s t → Terminated n s t m (safestrcpy (suc n) s t m)
unfolding safestrcpy
safestrcpy-Terminated n s t m apart = copy_then_nul-Terminated n s t m apart

-- `strncpy(s, t, n)` between objects that do not overlap: the bytes of the string at `t`, up to its
-- NUL or to the first `n`, are then at `s`, the rest of the `n` bytes from `s` on is NUL, and no
-- other byte has changed.
pub strncpy-Padded : (n s t : ℕ) (m : Bytes) → Apart n s t → Padded n s t m (strncpy n s t m)
unfolding strncpy
strncpy-Padded zero s t m apart = record {
  len = 0;
  copied = nothing-Copied 0 s t 0 m m (inr refl) λ a h. refl;
  zeros = λ j l h. absurd (omega (arith, h));
}
strncpy-Padded (suc n) s t m apart = elim (byte-cases (m t)) [
  | inl e ↦
      rw (e, strncpy)
        record {
          len = 0;
          copied =
              nothing-Copied (suc n) s t (suc n) m _ (inl e)
                λ a h. ground (arith, e, fill_zero_lem n (s + 1) (update m s (m t)) a);
          zeros = λ j l h. ground (arith, e, fill_zero_lem n (s + 1) (update m s (m t)) (s + j));
        }
  | inr (c, e) ↦
      let nonzero : m t ≢ 0 = ground (arith, e) in
      let r = strncpy-Padded n (s + 1) (t + 1) (update m s (m t)) (omega (arith, apart)) in
      rw (strncpy_goes_on n s t m nonzero) record {
        len = suc r.len;
        copied = one_more r.len n s t n m _ apart (omega arith) nonzero r.copied;
        zeros = λ j l h. grind (arith, r.zeros (j - 1));
      }
]

-- After `memset(dst, c, n)` the `n` bytes from `dst` on are `c % 256`, and no other byte has changed.
pub memset_lem :
    (dst c n : ℕ) (m : Bytes) (a : ℕ)
    → memset dst c n m a ≡ (if leb dst a && ltb a (dst + n) then c % 256 else m a)
unfolding memset
memset_lem dst c zero m a = ground arith
memset_lem dst c (suc n) m a = ground (arith, memset_lem (dst + 1) c n (update m dst (c % 256)) a)

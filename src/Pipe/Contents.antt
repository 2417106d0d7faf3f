-- ===== src/Pipe/Contents.antt =====
-- kernel/pipe.c: the bytes that are in a pipe, oldest first, and what one byte in or out does.
use tdt4186_lab.Base.{
  ℕ, zero, suc, ◌+◌, ◌-◌, ◌%◌, ◌≤◌, ◌<◌, ◌≡◌, ◌≢◌, ◌∙◌, refl, sym, ap, ap₂, true, false, List, [],
  ◌∷◌, ◌++◌, arith, length, update,
}
use tdt4186_lab.Pipe.{Pipe, pipe_size, uint_mod, put, take_byte, is_full, is_empty}

-- `n` bytes of the ring from counter `h` on.
abbrev pub window : (ℕ → ℕ) → ℕ → ℕ → List ℕ
window ring h zero = []
window ring h (suc n) = ring (h % pipe_size) ∷ window ring ((h + 1) % uint_mod) n

-- `nwrite - nread` in 32-bit arithmetic.
abbrev pub count : Pipe → ℕ
count p = (p.nwrite + uint_mod - p.nread) % uint_mod

abbrev pub contents : Pipe → List ℕ
contents p = window p.ring p.nread (count p)

pub record IsPipe (p : Pipe) : Type 0 where
  pub read_small : p.nread < uint_mod
  pub write_small : p.nwrite < uint_mod
  pub fits : count p ≤ pipe_size

pub length-window : (ring : ℕ → ℕ) (h n : ℕ) → length (window ring h n) ≡ n
length-window ring h zero = refl
length-window ring h (suc n) = ap suc (length-window ring ((h + 1) % uint_mod) n)

-- A byte just behind the window extends it, and no byte of it is overwritten.
window-update :
    (ring : ℕ → ℕ) (h n i ch : ℕ)
    → n < pipe_size
    → i ≡ (h + n) % pipe_size
    → window (update ring i ch) h (suc n) ≡ window ring h n ++ ch ∷ []
window-update ring h zero i ch fits e = ap (λ x. x ∷ []) (ground arith)
window-update ring h (suc n) i ch fits e =
    ap₂ ◌∷◌ (ground arith)
      (window-update ring ((h + 1) % uint_mod) n i ch (omega arith) (omega arith))

window_pos :
    (ring : ℕ → ℕ) (h n : ℕ)
    → n ≢ 0
    → window ring h n ≡ ring (h % pipe_size) ∷ window ring ((h + 1) % uint_mod) (n - 1)
window_pos ring h zero p = absurd (p refl)
window_pos ring h (suc n) p = ap (λ k. window ring h (suc k)) (omega arith)

module _ {p : Pipe} (v : IsPipe p) where
  pub is_full_iff : (is_full p ≡ true) → count p ≡ pipe_size
  is_full_iff e = ground arith

  pub not_full : is_full p ≡ false → count p < pipe_size
  not_full e = ground arith

  pub put-contents : is_full p ≡ false → (ch : ℕ) → contents (put ch p) ≡ contents p ++ ch ∷ []
  unfolding put
  put-contents e ch =
      let grown : count (put ch p) ≡ suc (count p) = ground arith in
      ap (window (put ch p).ring p.nread) grown
      ∙ window-update p.ring p.nread (count p) (p.nwrite % pipe_size) ch (not_full e) (omega arith)

  pub put-IsPipe : is_full p ≡ false → (ch : ℕ) → IsPipe (put ch p)
  unfolding put
  put-IsPipe e ch = ground arith

  pub take_byte-contents :
      is_empty p ≡ false → contents p ≡ (take_byte p).0 ∷ contents (take_byte p).1
  unfolding take_byte
  take_byte-contents e =
      let shrunk : count (take_byte p).1 ≡ count p - 1 = ground arith in
      window_pos p.ring p.nread (count p) (ground arith)
      ∙ ap (λ n. p.ring (p.nread % pipe_size) ∷ window p.ring ((p.nread + 1) % uint_mod) n)
          (sym shrunk)

  pub take_byte-IsPipe : is_empty p ≡ false → IsPipe (take_byte p).1
  unfolding take_byte
  take_byte-IsPipe e = ground arith

  pub empty_contents : is_empty p ≡ true → contents p ≡ []
  empty_contents e = let z : count p ≡ 0 = ground arith in ap (window p.ring p.nread) z

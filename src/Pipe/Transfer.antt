-- ===== src/Pipe/Transfer.antt =====
-- kernel/pipe.c: what a run of `pipewrite` and of `piperead` moves.
use mathlib.Core.List.{append_assoc, append-nil}
use tdt4186_lab.Base.{
  ◌==◌, ℕ, zero, suc, ◌+◌, ◌≤◌, ◌<◌, ◌≡◌, ◌∙◌, ◌⊎◌, inl, inr, refl, sym, ap, Bool, true, false,
  ◌||◌, ◌&&◌, not, Option, none, some, List, [], ◌∷◌, ◌++◌, arith, length, Bool-cases, Option-cases,
}
use tdt4186_lab.Pipe.{
  Pipe, Wrote, Read, pipewrite, piperead, read_loop, put, take_byte, is_full, is_empty,
}
use tdt4186_lab.Pipe.Contents.{
  contents, IsPipe, put-contents, put-IsPipe, take_byte-contents, take_byte-IsPipe, empty_contents,
}

-- `bs` are the bytes that `copyin` delivers from `i` up to `j`.
abbrev pub Copied : (ℕ → Option ℕ) → ℕ → List ℕ → ℕ → Type 0
Copied copyin i [] j = i ≡ j
Copied copyin i (b ∷ bs) j = (copyin i ≡ some b) × Copied copyin (i + 1) bs j

abbrev pub Appended : (ℕ → Option ℕ) → ℕ → ℕ → Pipe → Pipe → Type 0
Appended copyin i j p q =
    (bs : List ℕ) × Copied copyin i bs j × (contents q ≡ contents p ++ bs) × IsPipe q

-- In the rounds from `i` up to `j` the read end was open and the process not killed.
abbrev pub Live : (ℕ → Bool) → (i j : ℕ) → Pipe → Type 0
Live killed i j p = (k : ℕ) → i ≤ k → k < j → (not p.readopen || killed k) ≡ false

-- What a run of `pipewrite` with `left` bytes to go from `i` on may end with.
abbrev pub WriteEnds : (ℕ → Bool) → (ℕ → Option ℕ) → (left i : ℕ) → Pipe → Wrote → Type 0
WriteEnds killed copyin left i p (Wrote.sleeps l j q) =
    Appended copyin i j p q
    × (is_full q ≡ true)
    × (j + l ≡ i + left)
    × (0 < l)
    × Live killed i (suc j) p
WriteEnds killed copyin left i p (Wrote.returns j q) =
    Appended copyin i j p q
    × (((j ≡ i + left) × Live killed i j p)
        ⊎ ((j < i + left) × (copyin j ≡ none) × Live killed i (suc j) p))
WriteEnds killed copyin left i p (Wrote.fails j q) =
    Appended copyin i j p q
    × ((p.readopen ≡ false) ⊎ (killed j ≡ true))
    × (j < i + left)
    × Live killed i j p

behind-Live :
    (killed : ℕ → Bool) (i j : ℕ) (p : Pipe)
    → (not p.readopen || killed i) ≡ false
    → Live killed (i + 1) j p
    → Live killed i j p
behind-Live killed i j p first rest k lo hi = elim (Bool-cases (k == i)) [
  | inl e ↦
      let here : i ≡ k = ground (arith, e) in
      ap (λ x. not p.readopen || killed x) (sym here) ∙ first
  | inr e ↦ rest k (ground (arith, e, lo)) hi
]

one_round-Live :
    (killed : ℕ → Bool) (i : ℕ) (p : Pipe)
    → (not p.readopen || killed i) ≡ false
    → Live killed i (suc i) p
one_round-Live killed i p first =
    behind-Live killed i (suc i) p first λ k lo hi. absurd (omega (arith, lo, hi))

pipewrite-put :
    (killed : ℕ → Bool) (copyin : ℕ → Option ℕ) (left i ch : ℕ) (p : Pipe) (r : Wrote)
    → (not p.readopen || killed i) ≡ false
    → copyin i ≡ some ch
    → contents (put ch p) ≡ contents p ++ ch ∷ []
    → WriteEnds killed copyin left (i + 1) (put ch p) r
    → WriteEnds killed copyin (suc left) i p r
unfolding put
pipewrite-put killed copyin left i ch p (Wrote.sleeps l j q) live e c
      ((bs, cs, more, v), full, n, h, more_live) =
    (
      (ch ∷ bs, (e, cs), more ∙ ap (λ l. l ++ bs) c ∙ append_assoc (contents p) (ch ∷ []) bs, v),
      full,
      omega arith,
      h,
      behind-Live killed i (suc j) p live more_live,
    )
pipewrite-put killed copyin left i ch p (Wrote.returns j q) live e c ((bs, cs, more, v), d) = (
  (ch ∷ bs, (e, cs), more ∙ ap (λ l. l ++ bs) c ∙ append_assoc (contents p) (ch ∷ []) bs, v),
  elim d [
    | inl (n, m) ↦ inl (omega arith, behind-Live killed i j p live m)
    | inr (n, f, m) ↦ inr (omega arith, f, behind-Live killed i (suc j) p live m)
  ],
)
pipewrite-put killed copyin left i ch p (Wrote.fails j q) live e c ((bs, cs, more, v), why, n, m) =
    (
      (ch ∷ bs, (e, cs), more ∙ ap (λ l. l ++ bs) c ∙ append_assoc (contents p) (ch ∷ []) bs, v),
      why,
      omega arith,
      behind-Live killed i j p live m,
    )

closed_or_killed : (a b : Bool) → (not a || b) ≡ true → (a ≡ false) ⊎ (b ≡ true)
closed_or_killed false b h = inl refl
closed_or_killed true b h = inr h

-- `pipewrite` appends the bytes from user memory in order and nothing else. It sleeps only on a
-- full pipe, with the bytes that are left; it returns early only where `copyin` fails; and it
-- returns -1 only where the read end is closed, or the process is killed in the round that follows
-- the bytes that it has appended before. In all rounds before that, and in all rounds of a run that
-- ends otherwise, the read end was open and the process not killed.
pub pipewrite_ends :
    (killed : ℕ → Bool) (copyin : ℕ → Option ℕ) (left i : ℕ) (p : Pipe)
    → IsPipe p
    → WriteEnds killed copyin left i p (pipewrite killed copyin left i p)
unfolding pipewrite
pipewrite_ends killed copyin zero i p v = (
  ([], refl, sym (append-nil (contents p)), v),
  inl (omega arith, λ k lo hi. absurd (omega (arith, lo, hi))),
)
pipewrite_ends killed copyin (suc left) i p v = elim (Bool-cases (not p.readopen || killed i)) [
  | inl dead ↦ rw dead (
    ([], refl, sym (append-nil (contents p)), v),
    closed_or_killed p.readopen (killed i) dead,
    omega arith,
    λ k lo hi. absurd (omega (arith, lo, hi)),
  )
  | inr live ↦ elim (Bool-cases (is_full p)) [
    | inl full ↦
        rw (live, full)
          (
            ([], refl, sym (append-nil (contents p)), v),
            full,
            omega arith,
            omega arith,
            one_round-Live killed i p live,
          )
    | inr room ↦ elim (Option-cases (copyin i)) [
      | inl f ↦
          rw (live, room, f)
            (
              ([], refl, sym (append-nil (contents p)), v),
              inr (omega arith, f, one_round-Live killed i p live),
            )
      | inr (ch, e) ↦
          rw (live, room, e)
            (pipewrite-put killed copyin left i ch p _ live e (put-contents v room ch)
              (pipewrite_ends killed copyin left (i + 1) (put ch p) (put-IsPipe v room ch)))
    ]
  ]
]

-- Why the loop stopped, and what is lost of the content: nothing when all is read or the pipe is
-- empty, and the one byte that `copyout` refused else.
abbrev pub Stopped : (copyout : ℕ → Bool) → (left i : ℕ) → (bytes lost rest : List ℕ) → Type 0
Stopped copyout left i bytes lost rest =
    ((length bytes ≡ left) × (lost ≡ []))
    ⊎ ((length bytes < left) × (rest ≡ []) × (lost ≡ []))
    ⊎ ((length bytes < left) × (copyout (i + length bytes) ≡ false) × (length lost ≡ 1))

-- What the loop of `piperead` leaves: the bytes that went out, then those lost, then the rest.
pub record Taken (copyout : ℕ → Bool) (left i : ℕ) (p : Pipe) (r : List ℕ × Pipe) : Type 0 where
  pub lost : List ℕ
  pub split : contents p ≡ r.0 ++ lost ++ contents r.1
  pub short : length r.0 ≤ left
  pub stopped : Stopped copyout left i (r.0) lost (contents r.1)
  pub valid : IsPipe r.1

read_loop-Taken :
    (copyout : ℕ → Bool) (left i : ℕ) (p : Pipe)
    → IsPipe p
    → Taken copyout left i p (read_loop copyout left i p)
unfolding read_loop
read_loop-Taken copyout zero i p v = record {
  lost = [];
  split = refl;
  short = omega arith;
  stopped = inl (refl, refl);
  valid = v;
}
read_loop-Taken copyout (suc left) i p v = elim (Bool-cases (is_empty p)) [
  | inl none_left ↦ rw none_left (record {
    lost = [];
    split = refl;
    short = omega arith;
    stopped = inr (inl (omega arith, empty_contents v none_left, refl));
    valid = v;
  })
  | inr some_left ↦
      let out = take_byte-contents v some_left in
      let q = (take_byte p).1 in
      elim (Bool-cases (copyout i)) [
        | inl good ↦
            rw (some_left, good)
              (let t = read_loop-Taken copyout left (i + 1) q (take_byte-IsPipe v some_left) in
                let rest = (read_loop copyout left (i + 1) q).0 in
                let shift : copyout (i + suc (length rest)) ≡ copyout (i + 1 + length rest) =
                  ap copyout (omega arith) in
                record {
                  lost = t.lost;
                  split = out ∙ ap (λ l. (take_byte p).0 ∷ l) t.split;
                  short = omega (arith, t.short);
                  stopped = elim t.stopped [
                    | inl (all, none_lost) ↦ inl (ap suc all, none_lost)
                    | inr (inl (fewer, gone, none_lost)) ↦
                        inr (inl (omega (arith, fewer), gone, none_lost))
                    | inr (inr (fewer, bad, one)) ↦
                        inr (inr (omega (arith, fewer), shift ∙ bad, one))
                  ];
                  valid = t.valid;
                })
        | inr bad ↦
            rw (some_left, bad)
              (record {
                lost = (take_byte p).0 ∷ [];
                split = out;
                short = omega arith;
                stopped = inr (inr (omega arith, ap copyout (omega arith) ∙ bad, refl));
                valid = take_byte-IsPipe v some_left;
              })
      ]
]

abbrev pub ReadEnds : Bool → (ℕ → Bool) → ℕ → Pipe → Read → Type 0
ReadEnds killed copyout n p (Read.sleeps q) =
    (q ≡ p) × (is_empty p ≡ true) × (p.writeopen ≡ true) × (killed ≡ false)
ReadEnds killed copyout n p (Read.fails q) =
    (q ≡ p) × (is_empty p ≡ true) × (p.writeopen ≡ true) × (killed ≡ true)
ReadEnds killed copyout n p (Read.returns bs q) =
    ((is_empty p && p.writeopen) ≡ false) × Taken copyout n 0 p (bs, q)

-- `piperead` waits, or fails if the process was killed, exactly on an empty pipe whose write end
-- is open, and changes nothing then. Else it takes the oldest bytes out in order, at most `n`, and
-- fewer only where the pipe runs empty or `copyout` fails. When it fails, exactly one byte is lost:
-- the one behind those taken out; else none is.
pub piperead_ends :
    (killed : Bool) (copyout : ℕ → Bool) (n : ℕ) (p : Pipe)
    → IsPipe p
    → ReadEnds killed copyout n p (piperead killed copyout n p)
unfolding piperead
piperead_ends killed copyout n p v = elim (Bool-cases (is_empty p && p.writeopen)) [
  | inl wait ↦ elim (Bool-cases killed) [
    | inl dead ↦ rw (wait, dead) (refl, ground arith, ground arith, refl)
    | inr live ↦ rw (wait, live) (refl, ground arith, ground arith, refl)
  ]
  | inr go ↦ rw go (go, read_loop-Taken copyout n 0 p v)
]

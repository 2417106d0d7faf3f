-- ===== src/Descriptors/Calls.antt =====
-- kernel/sysfile.c: each system call keeps the counts of the files.
use tdt4186_lab.Base.{
  ℕ, ◌+◌, ◌≡◌, ◌<◌, inl, inr, refl, sym, ◌∙◌, Bool, ◌==◌, Option, none, some, [], ◌∷◌, Result, ok,
  arith, Bool-cases, Option-cases,
}
use tdt4186_lab.File.{Files}
use tdt4186_lab.Descriptors.{
  Ofile, argfd, clear_fd, fdalloc, Left, fails, sys_dup, close_then, sys_close, open_file,
  pipe_ends, pipealloc, pipe_files, sys_pipe, inherit, close_all,
}
use tdt4186_lab.Descriptors.Counts.{
  uses, one, Agree, Agree-cong, filealloc-Agree, filedup-Agree, fileclose-Agree, uses-fdalloc,
  get_elem?-fdalloc, uses-clear_fd, get_elem?-clear_fd, argfd_lem,
}

-- The uses by a process with list `o`, and those by the `rest`.
abbrev pub with_rest : Ofile → (ℕ → ℕ) → ℕ → ℕ
with_rest o rest i = uses i o + rest i

pub record Done (rest : ℕ → ℕ) (result : Result Left) : Type 0 where
  pub after : Left
  pub returns : result ≡ ok after
  pub agree : Agree after.files (with_rest after.ofile rest)

-- The counts do not depend on what a file is.
pipe_ends-Agree :
    (page f g : ℕ) (fs : Files) (c : ℕ → ℕ) → Agree fs c → Agree (pipe_ends page f g fs) c
pipe_ends-Agree page f g fs c a = record {
  counts = λ i. ground (arith, a.counts i);
  known = a.known;
}

module _ (rest : ℕ → ℕ) where
  unchanged : (fs : Files) (o : Ofile) → Agree fs (with_rest o rest) → Done rest (ok (fails fs o))
  unchanged fs o a = record { after = fails fs o; returns = refl; agree = a }

  -- Closing one of the uses, and going on.
  closing :
      {A : Type 0} (f : ℕ) (fs : Files) (c : ℕ → ℕ) (next : Files → Result A)
      → Agree fs (λ i. one f i + c i)
      → (gs : Files) × (close_then f fs next ≡ next gs) × Agree gs c
  closing f fs c next a =
      let (r, gs, e, b) = fileclose-Agree fs c f a in (gs, rw (close_then, e) refl, b)

  pub sys_dup-Done :
      (fd : ℕ) (fs : Files) (o : Ofile) → Agree fs (with_rest o rest) → Done rest (sys_dup fd fs o)
  unfolding sys_dup
  sys_dup-Done fd fs o a = elim (Option-cases (argfd fd o)) [
    | inl e ↦ rw (e, sys_dup) (unchanged fs o a)
    | inr (f, e) ↦ elim (Option-cases (fdalloc f o)) [
      | inl q ↦ rw (e, q, sys_dup) (unchanged fs o a)
      | inr ((new, p), q) ↦
          let held = uses-clear_fd fd f o (argfd_lem fd f o e) f in
          let (gs, d, b) = filedup-Agree fs (with_rest o rest) f a (ground (arith, held)) in
          rw (e, q, d, sys_dup)
            record {
              after = record { value = some new; files = gs; ofile = p };
              returns = refl;
              agree =
                  Agree-cong gs (λ i. one f i + with_rest o rest i) (with_rest p rest)
                    (λ i. omega (arith, uses-fdalloc f o new p q i)) b;
            }
    ]
  ]

  pub sys_close-Done :
      (fd : ℕ) (fs : Files) (o : Ofile)
      → Agree fs (with_rest o rest)
      → Done rest (sys_close fd fs o)
  unfolding sys_close
  sys_close-Done fd fs o a = elim (Option-cases (argfd fd o)) [
    | inl e ↦ rw (e, sys_close) (unchanged fs o a)
    | inr (f, e) ↦
        let freed = uses-clear_fd fd f o (argfd_lem fd f o e) in
        let b =
          Agree-cong fs (with_rest o rest) (λ i. one f i + with_rest (clear_fd fd o) rest i)
            (λ i. omega (arith, freed i)) a in
        let (r, gs, c, d) = fileclose-Agree fs (with_rest (clear_fd fd o) rest) f b in
        rw (e, sys_close, close_then, c)
          record {
            after = record { value = some 0; files = gs; ofile = clear_fd fd o };
            returns = refl;
            agree = d;
          }
  ]

  pub open_file-Done :
      (fs : Files) (o : Ofile) → Agree fs (with_rest o rest) → Done rest (open_file fs o)
  unfolding open_file
  open_file-Done fs o a = elim (filealloc-Agree fs (with_rest o rest) a) [
    | inl e ↦ rw (e, open_file) (unchanged fs o a)
    | inr (f, gs, e, b) ↦ elim (Option-cases (fdalloc f o)) [
      | inl q ↦
          let (r, hs, c, d) = fileclose-Agree gs (with_rest o rest) f b in
          rw (e, q, open_file, close_then, c) (unchanged hs o d)
      | inr ((fd, p), q) ↦
          rw (e, q, open_file)
            record {
              after = record { value = some fd; files = gs; ofile = p };
              returns = refl;
              agree =
                  Agree-cong gs (λ i. one f i + with_rest o rest i) (with_rest p rest)
                    (λ i. omega (arith, uses-fdalloc f o fd p q i)) b;
            }
    ]
  ]

  -- The two files of a pipe are closed again.
  closing_two :
      (f g : ℕ) (fs : Files) (o : Ofile)
      → Agree fs (λ i. one g i + (one f i + with_rest o rest i))
      → Done rest (close_then f fs λ gs. close_then g gs λ hs. ok (fails hs o))
  closing_two f g fs o a =
      let b =
        Agree-cong fs (λ i. one g i + (one f i + with_rest o rest i))
          (λ i. one f i + (one g i + with_rest o rest i)) (λ i. omega arith) a in
      let (gs, first, c) =
        closing f fs (λ i. one g i + with_rest o rest i)
          (λ gs. close_then {A = Left} g gs λ hs. ok (fails hs o)) b in
      let (hs, second, d) = closing g gs (with_rest o rest) (λ hs. ok (fails hs o)) c in
      record { after = fails hs o; returns = first ∙ second; agree = d }

  pub pipe_files-Done :
      (copies : Bool) (f g : ℕ) (fs : Files) (o : Ofile)
      → Agree fs (λ i. one g i + (one f i + with_rest o rest i))
      → Done rest (pipe_files copies f g fs o)
  unfolding pipe_files
  pipe_files-Done copies f g fs o a = elim (Option-cases (fdalloc f o)) [
    | inl e ↦ rw (e, pipe_files) (closing_two f g fs o a)
    | inr ((fd0, p), e) ↦
        let grown = uses-fdalloc f o fd0 p e in
        let (at0, others) = get_elem?-fdalloc f o fd0 p e in
        elim (Option-cases (fdalloc g p)) [
          | inl q ↦
              let back = uses-clear_fd fd0 f p at0 in
              rw (e, q, pipe_files)
                (closing_two f g fs (clear_fd fd0 p) (
                  Agree-cong fs (λ i. one g i + (one f i + with_rest o rest i))
                    (λ i. one g i + (one f i + with_rest (clear_fd fd0 p) rest i))
                    (λ i. omega (arith, grown i, back i)) a))
          | inr ((fd1, r), q) ↦
              let more = uses-fdalloc g p fd1 r q in
              let (at1, kept) = get_elem?-fdalloc g p fd1 r q in
              let (apart, still0) = kept fd0 f at0 in
              let back0 = uses-clear_fd fd0 f r still0 in
              let back1 =
                uses-clear_fd fd1 g (clear_fd fd0 r)
                  (get_elem?-clear_fd fd0 fd1 r (λ s. apart (sym s)) ∙ at1) in
              elim (Bool-cases copies) [
                | inl c ↦
                    rw (e, q, c, pipe_files)
                      record {
                        after = record { value = some 0; files = fs; ofile = r };
                        returns = refl;
                        agree =
                            Agree-cong fs (λ i. one g i + (one f i + with_rest o rest i))
                              (with_rest r rest) (λ i. omega (arith, grown i, more i)) a;
                      }
                | inr c ↦
                    rw (e, q, c, pipe_files)
                      (closing_two f g fs (clear_fd fd1 (clear_fd fd0 r)) (
                        Agree-cong fs (λ i. one g i + (one f i + with_rest o rest i))
                          (λ i.
                            one g i + (one f i + with_rest (clear_fd fd1 (clear_fd fd0 r)) rest i))
                          (λ i. omega (arith, grown i, more i, back0 i, back1 i)) a))
              ]
        ]
  ]

  pub sys_pipe-Done :
      (page : ℕ) (copies : Bool) (fs : Files) (o : Ofile)
      → Agree fs (with_rest o rest)
      → Done rest (sys_pipe page copies fs o)
  unfolding sys_pipe pipealloc
  sys_pipe-Done page copies fs o a = elim (filealloc-Agree fs (with_rest o rest) a) [
    | inl e ↦ rw (e, sys_pipe, pipealloc) (unchanged fs o a)
    | inr (f, gs, e, b) ↦ elim (filealloc-Agree gs (λ i. one f i + with_rest o rest i) b) [
      | inl q ↦
          let (hs, first, d) =
            closing {A = Option (ℕ × ℕ) × Files} f gs (with_rest o rest) (λ hs. ok (none, hs)) b in
          let made : pipealloc page fs ≡ ok (none, hs) = rw (e, q, pipealloc) first in
          rw (made, sys_pipe) (unchanged hs o d)
      | inr (g, hs, q, c) ↦ elim (Bool-cases (page == 0)) [
        | inl z ↦
            let b2 =
              Agree-cong hs (λ i. one g i + (one f i + with_rest o rest i))
                (λ i. one f i + (one g i + with_rest o rest i)) (λ i. omega arith) c in
            let (is, first, d) =
              closing {A = Option (ℕ × ℕ) × Files} f hs (λ i. one g i + with_rest o rest i)
                (λ is. close_then {A = Option (ℕ × ℕ) × Files} g is λ js. ok (none, js)) b2 in
            let (js, second, d2) =
              closing {A = Option (ℕ × ℕ) × Files} g is (with_rest o rest) (λ js. ok (none, js))
                d in
            let made : pipealloc page fs ≡ ok (none, js) =
              rw (e, q, z, pipealloc) (first ∙ second) in
            rw (made, sys_pipe) (unchanged js o d2)
        | inr z ↦
            rw (e, q, z, sys_pipe, pipealloc)
              (pipe_files-Done copies f g (pipe_ends page f g hs) o
                (pipe_ends-Agree page f g hs (λ i. one g i + (one f i + with_rest o rest i)) c))
      ]
    ]
  ]

-- The loop of `fork`: the child has what the parent has.
pub inherit-Agree :
    (o : Ofile) (fs : Files) (c : ℕ → ℕ)
    → Agree fs c
    → ((i : ℕ) → 0 < uses i o → 0 < c i)
    → (gs : Files) × (inherit o fs ≡ ok (o, gs)) × Agree gs (λ i. uses i o + c i)
unfolding inherit uses
inherit-Agree [] fs c a held = (fs, refl, Agree-cong fs c (λ i. 0 + c i) (λ i. omega arith) a)
inherit-Agree (none ∷ o) fs c a held =
    let (gs, e, b) = inherit-Agree o fs c a held in (gs, rw (e, inherit) refl, b)
inherit-Agree (some f ∷ o) fs c a held =
    let (gs, e, b) = filedup-Agree fs c f a (held f (ground arith)) in
    let (hs, q, d) = inherit-Agree o gs (λ i. one f i + c i) b λ i h. ground (arith, held i) in
    (
      hs,
      rw (e, q, inherit) refl,
      Agree-cong hs (λ i. uses i o + (one f i + c i)) (λ i. one f i + uses i o + c i)
          (λ i. omega arith) d,
    )

-- The loop of `exit`: all are closed.
pub close_all-Agree :
    (o : Ofile) (fs : Files) (c : ℕ → ℕ)
    → Agree fs (λ i. uses i o + c i)
    → (p : Ofile) × (gs : Files) × (close_all o fs ≡ ok (p, gs))
      × Agree gs c
      × ((i : ℕ) → uses i p ≡ 0)
unfolding close_all uses
close_all-Agree [] fs c a =
    ([], fs, refl, Agree-cong fs (λ i. 0 + c i) c (λ i. omega arith) a, λ i. refl)
close_all-Agree (none ∷ o) fs c a =
    let (p, gs, e, b, z) = close_all-Agree o fs c a in (none ∷ p, gs, rw (e, close_all) refl, b, z)
close_all-Agree (some f ∷ o) fs c a =
    let b =
      Agree-cong fs (λ i. one f i + uses i o + c i) (λ i. one f i + (uses i o + c i))
        (λ i. omega arith) a in
    let (r, gs, e, d) = fileclose-Agree fs (λ i. uses i o + c i) f b in
    let (p, hs, q, d2, z) = close_all-Agree o gs c d in
    (none ∷ p, hs, rw (close_all, close_then, e, q) refl, d2, z)

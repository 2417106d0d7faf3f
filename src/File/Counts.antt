-- ===== src/File/Counts.antt =====
-- kernel/file.c: the uses of the open files by the rest of the kernel.
--
-- A handle is one use of a file: an entry of a process's table of open files, or a local variable of
-- a system call. An event opens a file (`filealloc`), copies a handle (`filedup`) or gives one up
-- (`fileclose`); its `k` is a place in the list of handles.
use tdt4186_lab.Base.{
  ℕ, zero, suc, ◌+◌, ◌-◌, ◌≤◌, ◌<◌, ◌≡◌, ◌⊎◌, inl, inr, refl, true, false, ◌==◌, ltb, if◌then◌else◌,
  none, some, List, [], ◌∷◌, get_elem?, remove, count, count-remove, count_of_elem, update, Result,
  ok, panic, arith, Bool-cases, Option-cases,
}
use tdt4186_lab.File.{
  File, Files, fd_none, num_file, with_ref, filealloc_from, filealloc, filedup, fileclose, Release,
  nothing, release_of,
}

pub record Table : Type 0 where
  pub files : Files
  pub handles : List ℕ

pub data Event : Type 0 where
  obtain : Event
  dup close : (k : ℕ) → Event

unfoldable pub step : Event → Table → Result Table
unfolding filealloc filedup fileclose
step obtain t = elim (filealloc t.files) [
  | none ↦ ok t
  | some (i, fs) ↦ ok (record t { files = fs; handles = i ∷ t.handles })
]
step (dup k) t = elim (get_elem? t.handles k) [
  | none ↦ ok t
  | some i ↦ elim (filedup i t.files) [
    | panic m ↦ panic m
    | ok fs ↦ ok (record t { files = fs; handles = i ∷ t.handles })
  ]
]
step (close k) t = elim (get_elem? t.handles k) [
  | none ↦ ok t
  | some i ↦ elim (fileclose i t.files) [
    | panic m ↦ panic m
    | ok (r, fs) ↦ ok (record { files = fs; handles = remove t.handles k })
  ]
]

unfoldable pub run : List Event → Table → Result Table
unfolding step
run [] t = ok t
run (e ∷ es) t = elim (step e t) [ panic m ↦ panic m | ok u ↦ run es u ]

-- The count of each file is the number of its handles.
pub record Counted (t : Table) : Type 0 where
  pub counts : (i : ℕ) → (t.files i).ref ≡ count i t.handles
  pub known : (i : ℕ) → 0 < count i t.handles → i < num_file

ref-update :
    (fs : Files) (i : ℕ) (f : File) (j : ℕ)
    → (update fs i f j).ref ≡ (if j == i then f.ref else (fs j).ref)
ref-update fs i f j = ground arith

alloc_from_ends :
    (left i : ℕ) (fs : Files)
    → ((filealloc_from left i fs ≡ none) × ((j : ℕ) → i ≤ j → j < i + left → 0 < (fs j).ref))
      ⊎ ((k : ℕ) × (k < i + left)
          × ((fs k).ref ≡ 0)
          × (filealloc_from left i fs ≡ some (k, update fs k (with_ref 1 (fs k)))))
unfolding filealloc_from
alloc_from_ends zero i fs = inl (refl, λ j h l. omega arith)
alloc_from_ends (suc left) i fs = elim (Bool-cases ((fs i).ref == 0)) [
  | inl e ↦ inr (i, omega arith, ground arith, ground (arith, e))
  | inr e ↦ elim (alloc_from_ends left (i + 1) fs) [
    | inr (k, l, free, q) ↦ inr (k, omega arith, free, ground (arith, e, q))
    | inl (q, used) ↦ inl (
      ground (arith, e, q),
      λ j h l. elim (Bool-cases (j == i)) [
        | inl here ↦ let same : j ≡ i = ground arith in rw same (ground (arith, e))
        | inr ne ↦ used j (ground (arith, ne)) (omega arith)
      ],
    )
  ]
]

pub alloc_ends :
    (fs : Files)
    → (filealloc fs ≡ none)
      ⊎ ((k : ℕ) × (k < num_file)
          × ((fs k).ref ≡ 0)
          × (filealloc fs ≡ some (k, update fs k (with_ref 1 (fs k)))))
unfolding filealloc
alloc_ends fs = elim (alloc_from_ends num_file 0 fs) [
  | inl (q, used) ↦ inl q
  | inr found ↦ inr found
]

pub filedup_lem :
    (i : ℕ) (fs : Files)
    → 0 < (fs i).ref
    → filedup i fs ≡ ok (update fs i (with_ref ((fs i).ref + 1) (fs i)))
unfolding filedup
filedup_lem i fs used = let alive : ltb (fs i).ref 1 ≡ false = ground (arith, used) in rw alive refl

-- A file with no count, when a handle to it is added.
opened-Counted :
    (t : Table) (i : ℕ) (f : File)
    → Counted t
    → i < num_file
    → f.ref ≡ (t.files i).ref + 1
    → Counted (record { files = update t.files i f; handles = i ∷ t.handles })
opened-Counted t i f c l up = record {
  counts = λ j. elim (Bool-cases (j == i)) [
    | inl e ↦ let same : j ≡ i = ground arith in ground (arith, c.counts j, e, up, same)
    | inr e ↦ ground (arith, c.counts j, e)
  ];
  known = λ j h. elim (Bool-cases (j == i)) [
    | inl e ↦ ground (arith, e, l)
    | inr e ↦ c.known j (ground (arith, e, h))
  ];
}

closed-Counted :
    (t : Table) (k i : ℕ) (f : File)
    → Counted t
    → get_elem? t.handles k ≡ some i
    → f.ref + 1 ≡ (t.files i).ref
    → Counted (record { files = update t.files i f; handles = remove t.handles k })
closed-Counted t k i f c e down = record {
  counts = λ j. elim (Bool-cases (j == i)) [
    | inl h ↦
        let same : j ≡ i = ground arith in
        ground (arith, c.counts j, h, down, count-remove t.handles k j i e, same)
    | inr h ↦ ground (arith, c.counts j, h, count-remove t.handles k j i e)
  ];
  known = λ j h. c.known j (omega (arith, count-remove t.handles k j i e));
}

pub record Kept (result : Result Table) : Type 0 where
  pub after : Table
  pub returns : result ≡ ok after
  pub counted : Counted after

obtain-Kept : (t : Table) → Counted t → Kept (step obtain t)
unfolding step filealloc
obtain-Kept t c = elim (alloc_from_ends num_file 0 t.files) [
  | inl (q, used) ↦ rw (q, step) record { after = t; returns = refl; counted = c }
  | inr (k, l, free, q) ↦
      rw (q, step)
        record {
          after = record {
            files = update t.files k (with_ref 1 (t.files k));
            handles = k ∷ t.handles;
          };
          returns = refl;
          counted = opened-Counted t k (with_ref 1 (t.files k)) c l (omega arith);
        }
]

dup-Kept : (k : ℕ) (t : Table) → Counted t → Kept (step (dup k) t)
unfolding step filedup
dup-Kept k t c = elim (Option-cases (get_elem? t.handles k)) [
  | inl e ↦ rw (e, step) record { after = t; returns = refl; counted = c }
  | inr (i, e) ↦
      let some_use = count_of_elem t.handles k i e in
      let alive : ltb (t.files i).ref 1 ≡ false = ground (arith, c.counts i) in
      let f = with_ref ((t.files i).ref + 1) (t.files i) in
      rw (e, step, alive)
        record {
          after = record { files = update t.files i f; handles = i ∷ t.handles };
          returns = refl;
          counted = opened-Counted t i f c (c.known i some_use) refl;
        }
]

-- What `fileclose` gives back, and what it leaves of the file.
unfoldable pub given_back : (others : ℕ) → File → Release
given_back zero f = release_of f.type f
given_back (suc n) f = nothing

unfoldable pub left_of : (others : ℕ) → File → File
left_of zero f = record f { ref = 0; type = fd_none }
left_of (suc n) f = with_ref (suc n) f

pub close_ends :
    (others i : ℕ) (fs : Files)
    → (fs i).ref ≡ suc others
    → fileclose i fs ≡ ok (given_back others (fs i), update fs i (left_of others (fs i)))
unfolding fileclose given_back left_of
close_ends zero i fs e = rw e refl
close_ends (suc n) i fs e =
    let alive : ltb (suc (suc n)) 1 ≡ false = ground arith in
    let down : suc (suc n) - 1 ≡ suc n = omega arith in
    let more : ltb 0 (suc n) ≡ true = ground arith in rw (e, alive, down, more) refl

-- Closing a handle of a counted table gives back what the file stands for if there is no other
-- handle to it, and else nothing.
pub fileclose_lem :
    (t : Table) (k i : ℕ)
    → Counted t
    → get_elem? t.handles k ≡ some i
    → fileclose i t.files
      ≡ ok (
        given_back (count i (remove t.handles k)) (t.files i),
        update t.files i (left_of (count i (remove t.handles k)) (t.files i)),
      )
fileclose_lem t k i c e =
    close_ends (count i (remove t.handles k)) i t.files
      (ground (arith, count-remove t.handles k i i e, c.counts i))

pub left_of-ref : (others : ℕ) (f : File) → (left_of others f).ref ≡ others
unfolding left_of
left_of-ref zero f = refl
left_of-ref (suc n) f = refl

close-Kept : (k : ℕ) (t : Table) → Counted t → Kept (step (close k) t)
unfolding step
close-Kept k t c = elim (Option-cases (get_elem? t.handles k)) [
  | inl e ↦ rw (e, step) record { after = t; returns = refl; counted = c }
  | inr (i, e) ↦
      let others = count i (remove t.handles k) in
      let f = left_of others (t.files i) in
      let down : f.ref + 1 ≡ (t.files i).ref =
        ground
          (arith, left_of-ref others (t.files i), count-remove t.handles k i i e, c.counts i) in
      rw (e, step, fileclose_lem t k i c e)
        record {
          after = record { files = update t.files i f; handles = remove t.handles k };
          returns = refl;
          counted = closed-Counted t k i f c e down;
        }
]

step-Kept : (e : Event) (t : Table) → Counted t → Kept (step e t)
step-Kept obtain t c = obtain-Kept t c
step-Kept (dup k) t c = dup-Kept k t c
step-Kept (close k) t c = close-Kept k t c

-- From a table in which the count of each file is the number of its handles, any sequence of
-- `filealloc` calls, and of `filedup` and `fileclose` calls on handles, runs without a panic, and
-- leaves such a table.
pub handles-Counted : (es : List Event) {t : Table} → Counted t → Kept (run es t)
unfolding run
handles-Counted [] {t} c = record { after = t; returns = refl; counted = c }
handles-Counted (e ∷ es) {t} c =
    let k = step-Kept e t c in
    let l = handles-Counted es k.counted in
    rw (k.returns, run) record { after = l.after; returns = l.returns; counted = l.counted }

-- ===== src/Descriptors/System.antt =====
-- kernel/sysfile.c, kernel/proc.c: the descriptors of all processes, under any sequence of calls.
use tdt4186_lab.Base.{
  ℕ, zero, suc, ◌+◌, ◌≡◌, ◌<◌, ◌≤◌, inl, inr, refl, sym, Bool, true, false, ◌==◌, ◌&&◌, ltb,
  if◌then◌else◌, Option, none, some, List, [], ◌∷◌, update, Result, ok, panic, arith, Bool-cases,
}
use tdt4186_lab.File.{Files}
use tdt4186_lab.Descriptors.{
  Ofile, Left, sys_dup, sys_close, open_file, sys_pipe, inherit, close_all,
}
use tdt4186_lab.Descriptors.Counts.{uses, Agree, Agree-cong}
use tdt4186_lab.Descriptors.Calls.{
  with_rest, Done, sys_dup-Done, sys_close-Done, open_file-Done, sys_pipe-Done, inherit-Agree,
  close_all-Agree,
}

-- `NPROC`
abbrev pub num_proc : ℕ
num_proc = 64

pub record Users : Type 0 where
  pub files : Files
  pub ofile : ℕ → Ofile

-- A call by process `p`, with what other parts return. A child of `fork` is a free slot, in which no
-- file is open.
pub data Call : Type 0 where
  dup close : (p fd : ℕ) → Call
  open_one : (p : ℕ) → Call
  pipe : (p page : ℕ) → (copies : Bool) → Call
  fork_from : (p child : ℕ) → Call
  exit_by : (p : ℕ) → Call

abbrev pub is_open : Option ℕ → Bool
is_open none = false
is_open (some f) = true

unfoldable pub any_open : Ofile → Bool
any_open [] = false
any_open (none ∷ o) = any_open o
any_open (some f ∷ o) = true

-- What a call leaves for process `p`.
abbrev pub keep : (p : ℕ) → Users → Result Left → Result Users
keep p u (ok l) = ok (record { files = l.files; ofile = update u.ofile p l.ofile })
keep p u (panic m) = panic m

abbrev pub keep_list : (p : ℕ) → Users → Result (Ofile × Files) → Result Users
keep_list p u (ok (o, fs)) = ok (record { files = fs; ofile = update u.ofile p o })
keep_list p u (panic m) = panic m

unfoldable pub step : Call → Users → Result Users
unfolding any_open
step (dup p fd) u = if ltb p num_proc then keep p u (sys_dup fd u.files (u.ofile p)) else ok u
step (close p fd) u = if ltb p num_proc then keep p u (sys_close fd u.files (u.ofile p)) else ok u
step (open_one p) u = if ltb p num_proc then keep p u (open_file u.files (u.ofile p)) else ok u
step (pipe p page copies) u =
    if ltb p num_proc then keep p u (sys_pipe page copies u.files (u.ofile p)) else ok u
step (fork_from p child) u =
    if ltb p num_proc && ltb child num_proc
    then (if any_open (u.ofile child)
        then ok u
        else keep_list child u (inherit (u.ofile p) u.files))
    else ok u
step (exit_by p) u = if ltb p num_proc then keep_list p u (close_all (u.ofile p) u.files) else ok u

unfoldable pub run : List Call → Users → Result Users
unfolding step
run [] u = ok u
run (c ∷ cs) u = elim (step c u) [ panic m ↦ panic m | ok v ↦ run cs v ]

-- How often file `i` is open, in the first `n` processes.
unfoldable pub total : (i n : ℕ) → (ℕ → Ofile) → ℕ
unfolding uses
total i zero ofile = 0
total i (suc n) ofile = uses i (ofile n) + total i n ofile

total-update :
    (i n p : ℕ) (ofile : ℕ → Ofile) (o : Ofile)
    → total i n (update ofile p o) + (if ltb p n then uses i (ofile p) else 0)
      ≡ total i n ofile + (if ltb p n then uses i o else 0)
unfolding total
total-update i zero p ofile o = ground arith
total-update i (suc n) p ofile o = elim (Bool-cases (n == p)) [
  | inl e ↦ let same : n ≡ p = ground arith in ground (arith, total-update i n p ofile o, e, same)
  | inr e ↦ ground (arith, total-update i n p ofile o, e)
]

-- The count of each file is the number of its descriptors in all processes.
abbrev pub Counted : Users → Type 0
Counted u = Agree u.files (λ i. total i num_proc u.ofile)

pub record Kept (result : Result Users) : Type 0 where
  pub after : Users
  pub returns : result ≡ ok after
  pub counted : Counted after

-- The uses by the processes other than `p`.
abbrev others : ℕ → (ℕ → Ofile) → ℕ → ℕ
others p ofile i = total i num_proc (update ofile p [])

split :
    (p : ℕ) (ofile : ℕ → Ofile) (o : Ofile) (i : ℕ)
    → p < num_proc
    → total i num_proc (update ofile p o) ≡ with_rest o (others p ofile) i
unfolding uses
split p ofile o i less =
    ground (arith, total-update i num_proc p ofile o, total-update i num_proc p ofile [], less)

split_self :
    (p : ℕ) (ofile : ℕ → Ofile) (i : ℕ)
    → p < num_proc
    → total i num_proc ofile ≡ with_rest (ofile p) (others p ofile) i
unfolding uses
split_self p ofile i less = ground (arith, total-update i num_proc p ofile [], less)

stays : (u : Users) → Counted u → Kept (ok u)
stays u c = record { after = u; returns = refl; counted = c }

keep-Kept :
    (p : ℕ) (u : Users) (result : Result Left)
    → p < num_proc
    → Done (others p u.ofile) result
    → Kept (keep p u result)
keep-Kept p u result less d = rw (d.returns) record {
  after = record { files = d.after.files; ofile = update u.ofile p d.after.ofile };
  returns = refl;
  counted =
      Agree-cong d.after.files (with_rest d.after.ofile (others p u.ofile))
        (λ i. total i num_proc (update u.ofile p d.after.ofile))
        (λ i. sym (split p u.ofile d.after.ofile i less)) d.agree;
}

on_process :
    (p : ℕ) (u : Users) (call : Result Left)
    → Counted u
    → (Agree u.files (with_rest (u.ofile p) (others p u.ofile)) → Done (others p u.ofile) call)
    → Kept (if ltb p num_proc then keep p u call else ok u)
on_process p u call c done = elim (Bool-cases (ltb p num_proc)) [
  | inr e ↦ rw e (stays u c)
  | inl e ↦
      let less : p < num_proc = ground (arith, e) in
      rw e (
        keep-Kept p u call less (
          done (
            Agree-cong u.files (λ i. total i num_proc u.ofile)
              (with_rest (u.ofile p) (others p u.ofile)) (λ i. split_self p u.ofile i less) c)))
]

unused_list : (o : Ofile) (i : ℕ) → any_open o ≡ false → uses i o ≡ 0
unfolding any_open uses
unused_list [] i h = refl
unused_list (none ∷ o) i h = unused_list o i h
unused_list (some f ∷ o) i h = cc

uses_below_total : (i n p : ℕ) (ofile : ℕ → Ofile) → p < n → uses i (ofile p) ≤ total i n ofile
unfolding total
uses_below_total i zero p ofile h = absurd (omega (arith, h))
uses_below_total i (suc n) p ofile h = elim (Bool-cases (p == n)) [
  | inl e ↦ let same : p ≡ n = ground arith in rw same (omega arith)
  | inr e ↦ let below = uses_below_total i n p ofile (ground (arith, e, h)) in omega (arith, below)
]

fork-Kept : (p child : ℕ) (u : Users) → Counted u → Kept (step (fork_from p child) u)
unfolding step
fork-Kept p child u c = elim (Bool-cases (ltb p num_proc && ltb child num_proc)) [
  | inr e ↦ rw (e, step) (stays u c)
  | inl e ↦ elim (Bool-cases (any_open (u.ofile child))) [
    | inl q ↦ rw (e, q, step) (stays u c)
    | inr q ↦
        let p_less : p < num_proc = ground (arith, e) in
        let c_less : child < num_proc = ground (arith, e) in
        let (gs, d, a) =
          inherit-Agree (u.ofile p) u.files (λ i. total i num_proc u.ofile) c
            λ i h.
              let below = uses_below_total i num_proc p u.ofile p_less in omega (arith, h, below) in
        rw (e, q, step, d)
          record {
            after = record { files = gs; ofile = update u.ofile child (u.ofile p) };
            returns = refl;
            counted =
                Agree-cong gs (λ i. uses i (u.ofile p) + total i num_proc u.ofile)
                  (λ i. total i num_proc (update u.ofile child (u.ofile p)))
                  (λ i.
                    let all = split child u.ofile (u.ofile p) i c_less in
                    let before = split_self child u.ofile i c_less in
                    let empty = unused_list (u.ofile child) i q in
                    omega (arith, all, before, empty))
                  a;
          }
  ]
]

exit-Kept : (p : ℕ) (u : Users) → Counted u → Kept (step (exit_by p) u)
unfolding step
exit-Kept p u c = elim (Bool-cases (ltb p num_proc)) [
  | inr e ↦ rw (e, step) (stays u c)
  | inl e ↦
      let less : p < num_proc = ground (arith, e) in
      let (o, gs, d, a, empty) = close_all-Agree (u.ofile p) u.files (others p u.ofile) (
        Agree-cong u.files (λ i. total i num_proc u.ofile)
          (with_rest (u.ofile p) (others p u.ofile)) (λ i. split_self p u.ofile i less) c) in
      rw (e, step, d)
        record {
          after = record { files = gs; ofile = update u.ofile p o };
          returns = refl;
          counted =
              Agree-cong gs (others p u.ofile) (λ i. total i num_proc (update u.ofile p o))
                (λ i. let all = split p u.ofile o i less in omega (arith, all, empty i)) a;
        }
]

step-Kept : (c : Call) (u : Users) → Counted u → Kept (step c u)
unfolding step
step-Kept (dup p fd) u a =
    on_process p u (sys_dup fd u.files (u.ofile p)) a
      (sys_dup-Done (others p u.ofile) fd u.files (u.ofile p))
step-Kept (close p fd) u a =
    on_process p u (sys_close fd u.files (u.ofile p)) a
      (sys_close-Done (others p u.ofile) fd u.files (u.ofile p))
step-Kept (open_one p) u a =
    on_process p u (open_file u.files (u.ofile p)) a
      (open_file-Done (others p u.ofile) u.files (u.ofile p))
step-Kept (pipe p page copies) u a =
    on_process p u (sys_pipe page copies u.files (u.ofile p)) a
      (sys_pipe-Done (others p u.ofile) page copies u.files (u.ofile p))
step-Kept (fork_from p child) u a = fork-Kept p child u a
step-Kept (exit_by p) u a = exit-Kept p u a

-- From a state in which the count of each open file is the number of descriptors for it in all
-- processes, any sequence of opens, `dup`, `close` and `pipe` calls, forks and exits, with all their
-- error paths, runs without a panic, and leaves such a state.
pub descriptors-Counted : (cs : List Call) (u : Users) → Counted u → Kept (run cs u)
unfolding run
descriptors-Counted [] u a = stays u a
descriptors-Counted (c ∷ cs) u a =
    let k = step-Kept c u a in
    let l = descriptors-Counted cs k.after k.counted in
    rw (k.returns, run) record { after = l.after; returns = l.returns; counted = l.counted }

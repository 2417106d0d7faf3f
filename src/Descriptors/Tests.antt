-- ===== src/Descriptors/Tests.antt =====
-- kernel/sysfile.c: a parent that opens a file, and its child.
use tdt4186_lab.Base.{
  ℕ, ◌≡◌, refl, true, false, List, [], ◌∷◌, none, some, Option, Result, ok, panic, arith,
}
use tdt4186_lab.File.{File, fd_none, filealloc, filedup, fileclose}
use tdt4186_lab.Descriptors.{Ofile, open_file, sys_dup, sys_pipe, inherit, close_all, sys_close}
use tdt4186_lab.Descriptors.Counts.{uses}
use tdt4186_lab.Descriptors.System.{
  Users, Call, dup, close, open_one, pipe, fork_from, exit_by, run, total, Counted, Kept,
  descriptors-Counted,
}

abbrev blank : File
blank = record {
  type = fd_none;
  ref = 0;
  readable = false;
  writable = false;
  pipe = 0;
  ip = 0;
  off = 0;
  major = 0;
}

abbrev nothing_open : Ofile
nothing_open =
    none ∷ none ∷ none ∷ none ∷ none ∷ none ∷ none ∷ none ∷ none ∷ none ∷ none ∷ none ∷ none ∷ none
    ∷ none ∷ none ∷ []

abbrev at_boot : Users
at_boot = record { files = λ i. blank; ofile = λ p. nothing_open }

none_used : (i : ℕ) → total i 64 at_boot.ofile ≡ 0
unfolding total uses
none_used i = refl

at_boot-Counted : Counted at_boot
at_boot-Counted = record {
  counts = λ i. rw (none_used i) refl;
  known = λ i h. absurd (omega (arith, h, none_used i));
}

abbrev calls : List Call
calls =
    open_one 0
    ∷ dup 0 0
    ∷ pipe 0 0x80001000 true
    ∷ fork_from 0 1
    ∷ exit_by 0
    ∷ close 1 0
    ∷ close 1 0
    ∷ []

descriptors-Counted_example : Kept (run calls at_boot)
descriptors-Counted_example = descriptors-Counted calls at_boot at_boot-Counted

abbrev left_of_file : ℕ → Result Users → Option ℕ
left_of_file i (ok u) = some (u.files i).ref
left_of_file i (panic m) = none

-- The child has the copy of the descriptor left, and both ends of the pipe.
refs_after :
    (left_of_file 0 (run calls at_boot) ≡ some 1) × (left_of_file 2 (run calls at_boot) ≡ some 1)
unfolding run filealloc filedup fileclose open_file sys_dup sys_pipe inherit close_all sys_close
refs_after = (refl, refl)

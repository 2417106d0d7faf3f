-- ===== src/File/Tests.antt =====
-- kernel/file.c: runs of the table of open files at concrete inputs.
use tdt4186_lab.Base.{
  ℕ, ◌+◌, ◌≡◌, ◌⊎◌, refl, true, false, ltb, if◌then◌else◌, Option, none, some, List, [], ◌∷◌, ok,
  panic, Result, arith,
}
use tdt4186_lab.File.{
  begin_op, ilock, iunlock, end_op, write, File, Files, Release, fd_none, fd_inode, fd_pipe,
  put_inode, filealloc, filedup, fileclose, fileread, write_from, write_inode,
}
use tdt4186_lab.File.Counts.{Table, Event, obtain, dup, close, run, Counted}
use tdt4186_lab.File.Write.{Pieces, write_inode_ends}

abbrev blank : File
blank = record {
  type = fd_none;
  ref = 0;
  readable = false;
  writable = false;
  pipe = 0;
  ip = 0;
  off = 0;
  major = 0;
}

abbrev empty_table : Table
empty_table = record { files = λ i. blank; handles = [] }

empty_table-Counted : Counted empty_table
empty_table-Counted = record { counts = λ i. refl; known = λ i h. absurd (omega arith) }

abbrev uses : List Event
uses = obtain ∷ dup 0 ∷ obtain ∷ close 1 ∷ close 1 ∷ obtain ∷ []

abbrev handles_of : Result Table → List ℕ
handles_of (ok t) = t.handles
handles_of (panic m) = 7 ∷ []

-- The last `obtain` takes file 0 again, which has been closed.
handles_after : handles_of (run uses empty_table) ≡ 0 ∷ 1 ∷ []
unfolding run filealloc filedup fileclose
handles_after = refl

abbrev two_uses : Files
two_uses i = record blank { type = fd_pipe; ref = 2; pipe = 5; writable = true }

abbrev first : {A B : Type 0} → Result (A × B) → Option A
first (ok (a, b)) = some a
first (panic m) = none

abbrev one_use : Files
one_use i = record blank { type = fd_inode; ref = 1; ip = 5 }

close_of_two : first (fileclose 3 two_uses) ≡ some Release.nothing
unfolding fileclose
close_of_two = refl

close_last : first (fileclose 3 one_use) ≡ some (put_inode 5)
unfolding fileclose
close_last = refl

-- A disk with room for 5000 bytes of the file.
abbrev small_disk : ℕ → ℕ → ℕ → Option ℕ
small_disk i off n = if ltb 5000 (off + n) then none else some n

abbrev at_100 : File
at_100 = record blank { type = fd_inode; ref = 1; writable = true; off = 100 }

-- Nobody else uses the file.
abbrev still : ℕ → ℕ → ℕ
still i off = off

write_inode_ends_example :
    let w = write_from still small_disk (4000 + 1) 4000 0 100 in
    let (value, after) = write_inode still small_disk 4000 at_100 in
    ((value ≡ some 4000) × Pieces still small_disk 4000 0 100 true after.off w.calls)
    ⊎ ((value ≡ none) × Pieces still small_disk 4000 0 100 false after.off w.calls)
write_inode_ends_example = write_inode_ends still small_disk 4000 at_100

calls_of_4000 :
    (write_from still small_disk 3 4000 0 100).calls
    ≡ begin_op
      ∷ ilock
      ∷ write 0 100 3072
      ∷ iunlock
      ∷ end_op
      ∷ begin_op
      ∷ ilock
      ∷ write 3072 3172 928
      ∷ iunlock
      ∷ end_op
      ∷ []
unfolding write_from
calls_of_4000 = refl

write_too_much : (write_from still small_disk 3 6000 0 100).at ≡ 3072
unfolding write_from
write_too_much = refl

read_unreadable :
    fileread (λ p. none) (λ d. true) (λ d n. none) (λ off n. some n) 8 at_100 ≡ ok (none, at_100)
unfolding fileread
read_unreadable = refl

read_moves :
    fileread
      (λ p. none)
      (λ d. true)
      (λ d n. none)
      (λ off n. some n)
      8
      (record at_100 { readable = true })
    ≡ ok (some 8, record at_100 { readable = true; off = 108 })
unfolding fileread
read_moves = refl

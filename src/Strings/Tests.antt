-- ===== src/Strings/Tests.antt =====
-- kernel/string.c: a memory with a short string at 3, and the theorems about it.
use tdt4186_lab.Base.{◌+◌, ◌≡◌, refl, update, leb, ltb, ◌&&◌, if◌then◌else◌, ◌%◌}
use tdt4186_lab.Strings.{Bytes, memset, memmove, safestrcpy}
use tdt4186_lab.Strings.Move.{moved, memmove_lem}
use tdt4186_lab.Strings.Copy.{memset_lem}

abbrev text : Bytes
text = update (update (update (λ a. 0) 3 97) 4 98) 5 99

memmove_up : memmove 4 3 3 text 6 ≡ 99
unfolding memmove
memmove_up = refl

safestrcpy_cuts : safestrcpy 3 20 3 text 22 ≡ 0
unfolding safestrcpy
safestrcpy_cuts = refl

memmove_lem_example : memmove 4 3 3 text 5 ≡ moved 4 3 3 text 5
memmove_lem_example = memmove_lem 4 3 3 text 5

memset_truncates : memset 4 300 2 text 5 ≡ (if leb 4 5 && ltb 5 (4 + 2) then 300 % 256 else text 5)
memset_truncates = memset_lem 4 300 2 text 5

-- ===== src/Log/Ops/Tests.antt =====
-- kernel/log.c: calls that interleave, and the theorems about log space at them.
use tdt4186_lab.Base.{
  ℕ, zero, suc, ◌+◌, ◌≤◌, ◌≡◌, refl, true, none, some, List, [], ◌∷◌, ◌++◌, arith, has, length,
  get_elem?, Distinct, ok, panic,
}
use tdt4186_lab.Log.{Machine, log_size, boot}
use tdt4186_lab.Log.Ops.{LogState, System, Event, begin, write, log_write, run, idle}
use tdt4186_lab.Log.Ops.Space.{log_write-has_room}

abbrev fresh : Machine
fresh = boot 0 (λ b w. 0)

-- The call `op` writes `n` blocks, each of which is new.
abbrev writes : ℕ → ℕ → ℕ → List Event
writes op first zero = []
writes op first (suc n) = write op (first + n) ∷ writes op first n

-- Three calls start; the last two write ten blocks each and the first one nine.
abbrev busy : List Event
busy = begin ∷ begin ∷ begin ∷ writes 0 100 10 ++ writes 1 200 10 ++ writes 2 300 9

abbrev after : ℕ → List Event → System → System
after size es s = elim (run 2 size es s) [ some t ↦ t | none ↦ s ]

busy_runs :
    (run 2 30 busy (idle fresh) ≡ some (after 30 busy (idle fresh)))
    × (get_elem? (after 30 busy (idle fresh)).ops 2 ≡ some 9)
    × (length (after 30 busy (idle fresh)).log.machine.lh ≡ 29)
unfolding run
busy_runs = (refl, refl, refl)

-- The same call on a log with one block more.
log_write-has_room_example :
    (l : LogState) × (log_write 31 309 (after 31 busy (idle fresh)).log ≡ ok l)
    × (length l.machine.lh ≤ log_size)
    × Distinct l.machine.lh
    × (has 309 l.machine.lh ≡ true)
unfolding run
log_write-has_room_example =
    log_write-has_room 2 31 busy fresh (after 31 busy (idle fresh)) 2 9 309 (omega arith) refl refl
      refl (omega arith)

-- The tenth block of the first call, on a log of the size that mkfs makes.
tenth_block_panics :
    log_write 30 309 (after 30 busy (idle fresh)).log ≡ panic "too big a transaction"
unfolding run log_write
tenth_block_panics = refl

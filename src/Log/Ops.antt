-- ===== src/Log/Ops.antt =====
-- kernel/log.c: `begin_op`, `end_op` and `log_write`, and the operations that go on at once.
--
-- Each function holds `log.lock` throughout (`end_op` twice, around `commit`), so it is one step.
-- `wakeup(&log)` makes the sleepers of `begin_op` try again, which they may do at any step here.
pub mod Space
mod Tests
use mathlib.Core.Option
use tdt4186_lab.Base.{
  ℕ, zero, suc, ◌+◌, ◌-◌, ◌*◌, Bool, true, false, ◌||◌, Option, none, some, List, [], ◌∷◌, ◌==◌,
  ltb, leb, if◌then◌else◌, length, has, get_elem?, set, remove, Result, ok, panic,
}
use tdt4186_lab.Log.{Machine, done, crash, bpin, log_size, max_op_blocks, commit}

pub record LogState : Type 0 where
  pub machine : Machine
  pub outstanding : ℕ
  pub committing : Bool

-- One turn of the loop of `begin_op`; `none` is `sleep(&log, &log.lock)`.
pub begin_op : LogState → Option LogState
begin_op s =
    if s.committing
    then none
    else if ltb log_size (length s.machine.lh + (s.outstanding + 1) * max_op_blocks)
    then none
    else some (record s { outstanding = s.outstanding + 1 })

-- The loop that looks for `b` in `log.lh.block`, and the store behind it.
unfoldable pub absorb : List ℕ → ℕ → List ℕ
absorb [] b = b ∷ []
absorb (x ∷ xs) b = if x == b then b ∷ xs else x ∷ absorb xs b

-- What `log_write` does behind its guards: the block is pinned if it is new in the log.
pub record_block : ℕ → LogState → LogState
unfolding bpin absorb
record_block b s =
    let logged : Machine = record (s.machine) { lh = absorb s.machine.lh b } in
    record s { machine = if has b s.machine.lh then logged else bpin b logged }

-- `log_write(b)` where `size` is `log.size`.
pub log_write : ℕ → ℕ → LogState → Result LogState
unfolding record_block
log_write size b s =
    if leb log_size (length s.machine.lh) || leb (size - 1) (length s.machine.lh)
    then panic "too big a transaction"
    else if ltb s.outstanding 1
    then panic "log_write outside of trans"
    else ok (record_block b s)

-- The first half of `end_op`. At `outstanding` 0 the counter of the source would become -1, which
-- this record cannot hold.
pub data Ended : Type 0 where
  waits : LogState → Ended
  commits : LogState → Ended
  panics : Ended
  negative : Ended

pub end_op : LogState → Ended
end_op s =
    if s.outstanding == 0
    then negative
    else if s.committing
    then panics
    else let left = s.outstanding - 1 in
      if left == 0
      then commits (record s { outstanding = left; committing = true })
      else waits (record s { outstanding = left })

-- The second half of `end_op`, behind `if(do_commit)`; `none` if power fails.
pub finish_commit : ℕ → LogState → Option LogState
finish_commit start s = elim (commit start s.machine) [
  | done t ↦ some (record s { machine = t; committing = false })
  | crash d ↦ none
]

-- The file system calls in progress, each by the number of blocks that it has added to the log.
pub record System : Type 0 where
  pub log : LogState
  pub ops : List ℕ

pub data Event : Type 0 where
  begin : Event
  write : (op block : ℕ) → Event
  end : (op : ℕ) → Event
  committed : Event

abbrev pub added : List ℕ → ℕ → ℕ
added lh b = if has b lh then 0 else 1

module _ (start size : ℕ) where
  pub write_by : ℕ → ℕ → ℕ → System → Option System
  unfolding log_write
  write_by op used b s =
      if ltb max_op_blocks (used + added s.log.machine.lh b)
      then none
      else elim (log_write size b s.log) [
        | ok l ↦ some (record { log = l; ops = set s.ops op (used + added s.log.machine.lh b) })
        | panic m ↦ none
      ]

  pub end_by : ℕ → System → Option System
  unfolding end_op
  end_by op s = elim (end_op s.log) [
    | waits l ↦ some (record { log = l; ops = remove s.ops op })
    | commits l ↦ some (record { log = l; ops = remove s.ops op })
    | panics ↦ none
    | negative ↦ none
  ]

  -- What happens next; `none` where it cannot happen, or where a call writes more than
  -- `MAXOPBLOCKS` blocks, which a file system call never does.
  pub step : Event → System → Option System
  unfolding begin_op write_by end_by finish_commit
  step begin s = Option.map (λ l. record { log = l; ops = 0 ∷ s.ops }) (begin_op s.log)
  step (write op b) s = elim (get_elem? s.ops op) [ none ↦ none | some u ↦ write_by op u b s ]
  step (end op) s = elim (get_elem? s.ops op) [ none ↦ none | some u ↦ end_by op s ]
  step committed s =
      if s.log.committing
      then Option.map (λ l. record s { log = l }) (finish_commit start s.log)
      else none

  -- The calls interleave as the events say.
  pub run : List Event → System → Option System
  unfolding step
  run [] s = some s
  run (e ∷ es) s = elim (step e s) [ none ↦ none | some t ↦ run es t ]

abbrev pub idle : Machine → System
idle m = record { log = record { machine = m; outstanding = 0; committing = false }; ops = [] }

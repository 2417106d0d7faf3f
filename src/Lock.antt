-- ===== src/Lock.antt =====
-- kernel/spinlock.c: spin locks, and the interrupts that are off while one is held.
--
-- `acquire` and `release` run on several processors at once, so they are cut where another
-- processor can come between: around the swap of `lk->locked`, and around the stores to it and to
-- `lk->cpu`. A processor is its number. `noff` is an `int`, which stays far below its bound.
pub mod Nesting
pub mod Exclusion
pub mod Sleep
mod Tests
use tdt4186_lab.Base.{
  ℕ, zero, suc, ◌+◌, ◌-◌, Bool, true, false, ◌&&◌, ◌==◌, ltb, if◌then◌else◌, Option, none, some,
  List, [], ◌∷◌, update, Result, ok, panic,
}

-- `noff` and `intena` of `struct cpu`, and whether the processor takes interrupts (`intr_get`).
pub record Cpu : Type 0 where
  pub noff : ℕ
  pub intena : Bool
  pub interrupts : Bool

pub push_off : Cpu → Cpu
push_off c = record {
  noff = c.noff + 1;
  intena = if c.noff == 0 then c.interrupts else c.intena;
  interrupts = false;
}

pub pop_off : Cpu → Result Cpu
pop_off c =
    if c.interrupts
    then panic "pop_off - interruptible"
    else if ltb c.noff 1
    then panic "pop_off"
    else let down = c.noff - 1 in
      ok (record c {
        noff = down;
        interrupts = if down == 0 && c.intena then true else c.interrupts;
      })

-- `locked` and `cpu` of `struct spinlock`.
pub record Spinlock : Type 0 where
  pub locked : Bool
  pub cpu : Option ℕ

abbrev pub initlock : Spinlock
initlock = record { locked = false; cpu = none }

abbrev pub is_cpu : ℕ → Option ℕ → Bool
is_cpu i none = false
is_cpu i (some j) = j == i

abbrev pub holding : ℕ → Spinlock → Bool
holding i lk = lk.locked && is_cpu i lk.cpu

-- Where a processor is: outside; in the loop of `acquire`; behind its swap; in the critical
-- section; in `release` behind `lk->cpu = 0`; and behind `lk->locked = 0`.
pub data Place : Type 0 where
  outside spinning won inside leaving unlocked : Place

pub record System : Type 0 where
  pub lock : Spinlock
  pub cpu : ℕ → Cpu
  pub place : ℕ → Place

abbrev pub go : ℕ → Place → System → System
go i p s = record s { place = update s.place i p }

abbrev pub with_cpu : ℕ → Cpu → System → System
with_cpu i c s = record s { cpu = update s.cpu i c }

-- The next piece of `acquire`, of the critical section's end or of `release` on processor `i`.
pub advance : ℕ → Place → System → Result System
unfolding push_off pop_off
advance i outside s =
    if holding i s.lock
    then panic "acquire"
    else ok (go i spinning (with_cpu i (push_off (s.cpu i)) s))
advance i spinning s = ok (
    go i (if s.lock.locked then spinning else won)
      (record s { lock = record (s.lock) { locked = true } }))
advance i won s = ok (go i inside (record s { lock = record (s.lock) { cpu = some i } }))
advance i inside s =
    if holding i s.lock
    then ok (go i leaving (record s { lock = record (s.lock) { cpu = none } }))
    else panic "release"
advance i leaving s = ok (go i unlocked (record s { lock = record (s.lock) { locked = false } }))
advance i unlocked s = elim (pop_off (s.cpu i)) [
  | ok c ↦ ok (go i outside (with_cpu i c s))
  | panic m ↦ panic m
]

-- Processors take turns as the list says.
pub run : List ℕ → System → Result System
unfolding advance
run [] s = ok s
run (i ∷ is) s = elim (advance i (s.place i) s) [ ok t ↦ run is t | panic m ↦ panic m ]

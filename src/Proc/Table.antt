-- ===== src/Proc/Table.antt =====
-- kernel/proc.c: `wakeup`, `kill`, `setkilled`, `killed`, `sleep`, `sched` and `yield`.
pub mod Wakeup
pub mod Kill
pub mod Promotion
mod Tests
use tdt4186_lab.Base.{
  ℕ, zero, suc, ◌+◌, ◌-◌, ◌%◌, ◌^◌, ◌≡◌, refl, Bool, true, false, ◌&&◌, not, Option, none, some,
  List, [], ◌∷◌, ◌==◌, ltb, if◌then◌else◌, get_elem?, Result, ok, panic, map,
}
use tdt4186_lab.Proc.{
  Proc, ProcState, unused, used, sleeping, runnable, running, zombie, Chan, nowhere, chan_eq, Procs,
  is_sleeping, is_running, modify, max_prio, prom_time,
}

abbrev pub wake : Proc → Proc
wake p = record p { state = runnable }

-- `wakeup(chan)` of process `me`, from index `i` on.
pub wakeup_from : ℕ → ℕ → Chan → Procs → Procs
wakeup_from me i chan [] = []
wakeup_from me i chan (p ∷ ps) =
    (if not (i == me) && (is_sleeping p.state && chan_eq p.chan chan) then wake p else p)
    ∷ wakeup_from me (i + 1) chan ps

unfoldable pub wakeup : ℕ → Chan → Procs → Procs
unfolding wakeup_from
wakeup me chan ps = wakeup_from me 0 chan ps

abbrev pub victim : Proc → Proc
victim p = let q : Proc = record p { killed = true } in if is_sleeping p.state then wake q else q

-- `kill(pid)`; `none` is the return value -1, and else it is 0.
unfoldable pub kill : ℕ → Procs → Option Procs
kill pid [] = none
kill pid (p ∷ ps) =
    let rest : Option Procs = elim (kill pid ps) [ none ↦ none | some qs ↦ some (p ∷ qs) ] in
    if p.pid == pid then some (victim p ∷ ps) else rest

pub setkilled : ℕ → Procs → Procs
unfolding modify
setkilled i ps = modify i (λ p. record p { killed = true }) ps

-- The body of the loop in `sched`: `p->priority > 0 && --p->promotion_timer == 0`. The loop does not
-- take the lock of the process, so another processor that counts at the same time may have changed
-- both: it finds the given priority and timer. The timer is an `int`, by its bit pattern.
pub promote : ℕ × ℕ → Proc → Proc
promote (priority, timer) p =
    let left = (timer + 2 ^ 32 - 1) % 2 ^ 32 in
    if ltb 0 priority
    then record p { priority = if left == 0 then 0 else priority; promotion_timer = left }
    else record p { priority = priority; promotion_timer = timer }

-- The loop in `sched` from slot `k` on; `seen` is what it finds there.
unfoldable pub count_down : (seen : ℕ → Proc → ℕ × ℕ) → (k : ℕ) → Procs → Procs
unfolding promote
count_down seen k [] = []
count_down seen k (p ∷ ps) = promote (seen k p) p ∷ count_down seen (k + 1) ps

-- What `sched` tests about this processor: `holding(&p->lock)`, `noff` and `intr_get()`; and the
-- priority and timer that it finds in each slot as it counts.
pub record Cpu : Type 0 where
  pub holding : Bool
  pub noff : ℕ
  pub interrupts : Bool
  pub seen : ℕ → Proc → ℕ × ℕ

abbrev pub state_at : ℕ → Procs → ProcState
state_at i ps = elim (get_elem? ps i) [ none ↦ unused | some p ↦ p.state ]

-- `sched()` of process `i` up to its `swtch`.
unfoldable pub sched : Cpu → ℕ → Procs → Result Procs
unfolding count_down
sched c i ps =
    let qs = count_down c.seen 0 ps in
    if not c.holding
    then panic "sched p->lock"
    else if not (c.noff == 1)
    then panic "sched locks"
    else if is_running (state_at i qs)
    then panic "sched running"
    else if c.interrupts
    then panic "sched interruptible"
    else ok qs

-- `YIELD_TIMER` and `YIELD_OTHER`.
pub data Reason : Type 0 where
  timer other : Reason

abbrev pub demote : Proc → Proc
demote p = record p {
  priority = if ltb max_prio (p.priority + 1) then p.priority else p.priority + 1;
  promotion_timer = prom_time;
}

abbrev pub yielding : Reason → Proc → Proc
yielding timer p = demote (wake p)
yielding other p = wake p

-- `yield(reason)` up to the `swtch` in `sched`; it does nothing behind that.
pub yield_cpu : Reason → Cpu → ℕ → Procs → Result Procs
unfolding sched modify
yield_cpu reason c i ps = sched c i (modify i (yielding reason) ps)

-- `sleep(chan, lk)` up to the `swtch`, and what it does when the process runs again.
unfoldable pub fall_asleep : Chan → Cpu → ℕ → Procs → Result Procs
unfolding sched modify
fall_asleep chan c i ps = sched c i (modify i (λ p. record p { chan = chan; state = sleeping }) ps)

pub tidy_up : ℕ → Procs → Procs
unfolding modify
tidy_up i ps = modify i (λ p. record p { chan = nowhere }) ps

-- ===== src/Proc/Sched.antt =====
-- kernel/proc.c: `rr_scheduler` and `mlfq_scheduler`.
--
-- `run i s` is what happens from the `swtch` to process `i` until it switches back, to the table
-- and to `sched_pointer`. `others i s` is what happens, between the release of one lock and the
-- `acquire` of that of slot `i`, by interrupts and by the other processors. A scheduler returns the
-- processes that it ran, in order.
pub mod Fair
pub mod Levels
mod Tests
use tdt4186_lab.Base.{
  ℕ, zero, suc, ◌+◌, ◌≡◌, Bool, true, false, ◌&&◌, ◌||◌, not, Option, none, some, List, [], ◌∷◌,
  ◌++◌, ltb, if◌then◌else◌, get_elem?, length,
}
use tdt4186_lab.Proc.{Proc, ProcState, runnable, running, Procs, is_runnable, modify}
use tdt4186_lab.Proc.Table.{state_at}
use tdt4186_lab.Proc.Ps.{Scheduler, round_robin, mlfq}

pub record State : Type 0 where
  pub procs : Procs
  pub pointer : Scheduler

abbrev pub priority_at : ℕ → Procs → ℕ
priority_at i ps = elim (get_elem? ps i) [ none ↦ 0 | some p ↦ p.priority ]

abbrev pub is_ready : ℕ → State → Bool
is_ready i s = is_runnable (state_at i s.procs)

abbrev pub is_high : ℕ → State → Bool
is_high i s = not (ltb 0 (priority_at i s.procs))

abbrev pub is_mlfq : Scheduler → Bool
is_mlfq round_robin = false
is_mlfq mlfq = true

-- `p->state = RUNNING; c->proc = p; swtch(...)`
pub dispatch : (ℕ → State → State) → ℕ → State → State
unfolding modify
dispatch run i s = run i (record s { procs = modify i (λ p. record p { state = running }) s.procs })

abbrev pub ran : Bool → ℕ → List ℕ → List ℕ
ran ready i is = if ready then i ∷ is else is

-- The loop of `rr_scheduler` from slot `i` on.
pub rr_from : (run others : ℕ → State → State) → (left i : ℕ) → State → List ℕ × State
unfolding dispatch
rr_from run others zero i s = ([], s)
rr_from run others (suc left) i s =
    let here = others i s in
    let ready = is_ready i here in
    let (is, t) = rr_from run others left (i + 1) (if ready then dispatch run i here else here) in
    (ran ready i is, t)

pub rr_scheduler : (run others : ℕ → State → State) → State → List ℕ × State
unfolding rr_from
rr_scheduler run others s = rr_from run others (length s.procs) 0 s

-- A pass of `mlfq_scheduler`: what it ran, where it left the machine, whether it met a runnable
-- process of high priority, and whether it returned because `sched_pointer` had changed.
pub record Pass : Type 0 where
  pub trace : List ℕ
  pub state : State
  pub high_avail : Bool
  pub stopped : Bool

abbrev pub through : ℕ → Bool → Pass → Pass
through i high p = record p {
  trace = i ∷ p.trace;
  high_avail = if high then true else p.high_avail;
}

abbrev pub stop_at : ℕ → Bool → State → Pass
stop_at i high s = record { trace = i ∷ []; state = s; high_avail = high; stopped = true }

-- The body of the inner loop of the do-while, at slot `i`; `next` is the rest of the loop.
pub high_at : (ℕ → State → State) → (next : State → Pass) → ℕ → State → Pass
unfolding dispatch
high_at run next i s =
    let t = dispatch run i s in
    if not (is_high i s) || not (is_ready i s)
    then next s
    else if is_mlfq t.pointer
    then through i true (next t)
    else stop_at i true t

pub high_from : (run others : ℕ → State → State) → (left i : ℕ) → State → Pass
unfolding high_at
high_from run others zero i s = record {
  trace = [];
  state = s;
  high_avail = false;
  stopped = false;
}
high_from run others (suc left) i s = high_at run (high_from run others left (i + 1)) i (others i s)

-- The do-while. Each round with a runnable process of high priority may be followed by another
-- one, so the number of rounds is not bounded; `none` is that it goes on after `rounds` of them.
pub high_loop : (run others : ℕ → State → State) → (rounds : ℕ) → State → Option Pass
unfolding high_from
high_loop run others zero s = none
high_loop run others (suc rounds) s =
    let p = high_from run others (length s.procs) 0 s in
    let again : Option Pass = elim (high_loop run others rounds p.state) [
      | none ↦ none
      | some q ↦ some (record q { trace = p.trace ++ q.trace })
    ] in
    if p.stopped then some p else if p.high_avail then again else some p

-- The body of the loop over the processes of low priority, and that loop.
pub low_at : (ℕ → State → State) → (next : State → Pass) → ℕ → State → Pass
unfolding dispatch
low_at run next i s =
    let t = dispatch run i s in
    if not (is_ready i s)
    then next s
    else if is_high i s
    then record { trace = []; state = s; high_avail = true; stopped = false }
    else if is_mlfq t.pointer
    then through i false (next t)
    else stop_at i false t

pub low_from : (run others : ℕ → State → State) → (left i : ℕ) → State → Pass
unfolding low_at
low_from run others zero i s = record { trace = []; state = s; high_avail = false; stopped = false }
low_from run others (suc left) i s = low_at run (low_from run others left (i + 1)) i (others i s)

pub mlfq_scheduler :
    (run others : ℕ → State → State) → (rounds : ℕ) → State → Option (List ℕ × State)
unfolding high_loop low_from
mlfq_scheduler run others rounds s = elim (high_loop run others rounds s) [
  | none ↦ none
  | some p ↦
      let q = low_from run others (length p.state.procs) 0 p.state in
      if p.stopped then some (p.trace, p.state) else some (p.trace ++ q.trace, q.state)
]

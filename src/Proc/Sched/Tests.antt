-- ===== src/Proc/Sched/Tests.antt =====
-- kernel/proc.c: the two schedulers on small tables, with processes that yield at once.
use tdt4186_lab.Base.{ℕ, ◌≡◌, refl, true, false, none, some, [], ◌∷◌, has}
use tdt4186_lab.Proc.{Proc, ProcState, runnable, running, sleeping, nowhere}
use tdt4186_lab.Proc.Ps.{mlfq}
use tdt4186_lab.Proc.Sched.{State, rr_scheduler, high_loop, low_from, mlfq_scheduler, Pass}
use tdt4186_lab.Proc.Sched.Fair.{Stable, rr_scheduler_fair}
use tdt4186_lab.Proc.Sched.Levels.{LastRound, high_loop_quiet}

abbrev proc : ProcState → ℕ → ℕ → Proc
proc state pid priority = record {
  state = state;
  chan = nowhere;
  killed = false;
  xstate = 0;
  pid = pid;
  priority = priority;
  promotion_timer = 0;
  parent = none;
  sz = 0;
  pagetable = 0;
  trapframe = 0;
  ofile = [];
  cwd = 0;
  name = [];
}

abbrev low_high : State
low_high = record {
  procs = proc runnable 1 1 ∷ proc runnable 2 0 ∷ proc sleeping 3 0 ∷ proc runnable 4 1 ∷ [];
  pointer = mlfq;
}

-- The process stays RUNNING for the rest of the pass, as one on another processor does.
abbrev keeps : ℕ → State → State
keeps i s = s

abbrev nothing_else : ℕ → State → State
nothing_else i s = s

keeps-Stable : Stable keeps nothing_else
keeps-Stable = record { ready = λ i j s ne e. e; still_ready = λ i j s e. e }

schedulers_run :
    ((rr_scheduler keeps nothing_else low_high).0 ≡ 0 ∷ 1 ∷ 3 ∷ [])
    × (elim (mlfq_scheduler keeps nothing_else 3 low_high) [ none ↦ [] | some (is, t) ↦ is ]
        ≡ 1 ∷ 0 ∷ 3 ∷ [])
    × ((low_from keeps nothing_else 4 0 low_high).trace ≡ 0 ∷ [])
unfolding rr_scheduler mlfq_scheduler
schedulers_run = (refl, refl, refl)

rr_scheduler_fair_example : has 3 (rr_scheduler keeps nothing_else low_high).0 ≡ true
rr_scheduler_fair_example = rr_scheduler_fair keeps-Stable low_high 3 refl

abbrev last : Pass
last = record {
  trace = 1 ∷ [];
  state = record low_high {
    procs = proc runnable 1 1 ∷ proc running 2 0 ∷ proc sleeping 3 0 ∷ proc runnable 4 1 ∷ [];
  };
  high_avail = false;
  stopped = false;
}

high_loop_quiet_example : LastRound keeps nothing_else (last.state)
unfolding high_loop
high_loop_quiet_example = high_loop_quiet keeps nothing_else 3 low_high {p = last} refl refl

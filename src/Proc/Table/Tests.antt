-- ===== src/Proc/Table/Tests.antt =====
-- kernel/proc.c: a table of four processes, and the theorems about one call at it.
use tdt4186_lab.Base.{
  ℕ, ◌+◌, ◌≡◌, refl, true, false, none, some, [], ◌∷◌, arith, get_elem?, ltb, if◌then◌else◌, map,
}
use tdt4186_lab.Proc.{
  Proc, ProcState, unused, sleeping, runnable, running, Chan, nowhere, at_proc, at_object, Procs,
  max_prio, prom_time, modify,
}
use tdt4186_lab.Proc.Table.{
  wakeup, Cpu, timer, yield_cpu, fall_asleep, state_at, yielding, count_down,
}
use tdt4186_lab.Proc.Table.Wakeup.{sleeper_is_woken}
use tdt4186_lab.Proc.Table.Promotion.{exact, rounds, demotion_ends}

abbrev proc : ProcState → Chan → ℕ → Proc
proc state chan pid = record {
  state = state;
  chan = chan;
  killed = false;
  xstate = 0;
  pid = pid;
  priority = 0;
  promotion_timer = 0;
  parent = none;
  sz = 0;
  pagetable = 0;
  trapframe = 0;
  ofile = [];
  cwd = 0;
  name = [];
}

abbrev table : Procs
table =
    proc running nowhere 1
    ∷ proc sleeping (at_object 7) 2
    ∷ proc sleeping (at_proc 0) 3
    ∷ proc unused nowhere 0
    ∷ []

abbrev cpu : Cpu
cpu = record { holding = true; noff = 1; interrupts = false; seen = exact }

states_after_wakeup :
    map (λ p. p.state) (wakeup 0 (at_object 7) table) ≡ running ∷ runnable ∷ sleeping ∷ unused ∷ []
unfolding wakeup
states_after_wakeup = refl

abbrev asleep : Procs
asleep =
    proc sleeping (at_object 9) 1
    ∷ proc sleeping (at_object 7) 2
    ∷ proc sleeping (at_proc 0) 3
    ∷ proc unused nowhere 0
    ∷ []

sleeper_is_woken_example : state_at 0 (wakeup 1 (at_object 9) asleep) ≡ runnable
unfolding fall_asleep
sleeper_is_woken_example =
    sleeper_is_woken cpu (at_object 9) 0 1 table asleep {p = proc running nowhere 1} refl refl
      (omega arith)

abbrev yielded : Procs
yielded = count_down exact 0 (modify 0 (yielding timer) table)

demotion_ends_example :
    (q : Proc) × (get_elem? (rounds 3 yielded) 0 ≡ some q)
    × (q.priority ≡ (if ltb (3 + 1) prom_time then max_prio else 0))
unfolding yield_cpu
demotion_ends_example =
    demotion_ends cpu 0 table yielded {p = proc running nowhere 1} (λ k x. refl) refl (omega arith)
      refl 3

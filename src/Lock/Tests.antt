-- ===== src/Lock/Tests.antt =====
-- kernel/spinlock.c and kernel/sleeplock.c: two processors at a lock, and the theorems about it.
use tdt4186_lab.Base.{ℕ, refl, true, false, none, [], ◌∷◌, arith}
use tdt4186_lab.Proc.{Proc, Procs, ProcState, running, sleeping, nowhere, at_object}
use tdt4186_lab.Proc.Table.{fall_asleep}
use tdt4186_lab.Proc.Table.Promotion.{exact}
use tdt4186_lab.Proc.Table
use tdt4186_lab.Lock.{Cpu, run}
use tdt4186_lab.Lock.Exclusion.{Exclusive, start, lock-Exclusive}
use tdt4186_lab.Lock.Sleep.{
  Sleeplock, initsleeplock, acquiresleep, releasesleep, Handover, sleep_lock-Handover,
}

abbrev idle : Cpu
idle = record { noff = 0; intena = false; interrupts = true }

-- Processor 1 spins while 0 is in its critical section, and gets the lock afterwards.
lock-Exclusive_example :
    Exclusive (run (0 ∷ 1 ∷ 0 ∷ 1 ∷ 0 ∷ 1 ∷ 0 ∷ 0 ∷ 1 ∷ 0 ∷ 1 ∷ []) (start λ i. idle))
lock-Exclusive_example =
    lock-Exclusive (0 ∷ 1 ∷ 0 ∷ 1 ∷ 0 ∷ 1 ∷ 0 ∷ 0 ∷ 1 ∷ 0 ∷ 1 ∷ []) (λ i. idle) λ i. refl

abbrev in_sched : Table.Cpu
in_sched = record { holding = true; noff = 1; interrupts = false; seen = exact }

abbrev proc : ProcState → ℕ → Proc
proc state pid = record {
  state = state;
  chan = nowhere;
  killed = false;
  xstate = 0;
  pid = pid;
  priority = 0;
  promotion_timer = 0;
  parent = none;
  sz = 0;
  pagetable = 0;
  trapframe = 0;
  ofile = [];
  cwd = 0;
  name = [];
}

abbrev table : Procs
table = proc running 5 ∷ proc running 6 ∷ []

abbrev asleep : Procs
asleep = proc running 5 ∷ record (proc sleeping 6) { chan = at_object 77 } ∷ []

abbrev held : Sleeplock
held = record { locked = true; pid = 5 }

sleep_lock-Handover_example : Handover 77 5 6 1 held asleep (releasesleep 77 0 asleep)
unfolding acquiresleep fall_asleep
sleep_lock-Handover_example =
    sleep_lock-Handover 77 in_sched in_sched 0 1 5 6 initsleeplock table refl refl refl
      (omega arith)

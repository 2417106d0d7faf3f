-- ===== src/Proc/Life/Tests.antt =====
-- kernel/proc.c: a family of processes, and the theorems about `exit`, `wait` and `kill` at it.
use tdt4186_lab.Base.{ℕ, ◌≡◌, refl, true, false, Option, none, some, [], ◌∷◌, arith, get_elem?, ok}
use tdt4186_lab.Proc.{
  Proc, ProcState, unused, sleeping, runnable, running, zombie, Chan, nowhere, at_proc, Procs,
}
use tdt4186_lab.Proc.Table.{Cpu, kill}
use tdt4186_lab.Proc.Life.{
  Kernel, Memory, exit, wait, Waited, fork, allocproc, reaped, failed, waits,
}
use tdt4186_lab.Proc.Table.Promotion.{exact}
use tdt4186_lab.Proc.Life.Exit.{Exited, exit-Exited, WaitEnds, wait_after_exit}
use tdt4186_lab.Proc.Life.KillZero.{kill_zero_taints}

abbrev proc : ProcState → Chan → ℕ → Option ℕ → Proc
proc state chan pid parent = record {
  state = state;
  chan = chan;
  killed = false;
  xstate = 0;
  pid = pid;
  priority = 0;
  promotion_timer = 0;
  parent = parent;
  sz = 0;
  pagetable = 0;
  trapframe = 0;
  ofile = 5 ∷ 0 ∷ [];
  cwd = 0;
  name = [];
}

-- init, which waits; its child, which runs; a child of that; and a free slot.
abbrev family : Kernel
family = record {
  procs =
      proc sleeping (at_proc 0) 1 none
      ∷ proc running nowhere 2 (some 0)
      ∷ proc sleeping (at_proc 9) 3 (some 1)
      ∷ proc unused nowhere 0 none
      ∷ [];
  nextpid = 4;
  initproc = 0;
}

abbrev cpu : Cpu
cpu = record { holding = true; noff = 1; interrupts = false; seen = exact }

abbrev orphaned : Kernel
orphaned = record family {
  procs =
      proc runnable (at_proc 0) 1 none
      ∷ record (proc zombie nowhere 2 (some 0)) { xstate = 7; ofile = 0 ∷ 0 ∷ [] }
      ∷ proc sleeping (at_proc 9) 3 (some 0)
      ∷ proc unused nowhere 0 none
      ∷ [];
}

exit_runs : exit cpu 7 1 family ≡ ok orphaned
unfolding exit
exit_runs = refl

abbrev outcome : Waited → ℕ
outcome (reaped pid k) = pid
outcome (failed k) = 1000
outcome (waits r) = 2000

wait_runs :
    (outcome (wait cpu false 0 orphaned) ≡ 2)
    × (outcome (wait cpu false 2 orphaned) ≡ 1000)
    × (outcome (wait cpu false 0 family) ≡ 2000)
unfolding wait
wait_runs = (refl, refl, refl)

abbrev memory : Memory
memory = record { trapframe = 4096; pagetable = 8192; copied = true }

fork_runs : (fork 1 (proc running nowhere 2 (some 0)) memory family).0 ≡ some 4
unfolding fork
fork_runs = refl

exit-Exited_example : Exited 7 1 family orphaned
unfolding exit
exit-Exited_example = exit-Exited cpu 7 1 family {p = proc running nowhere 2 (some 0)} refl refl

wait_after_exit_example : WaitEnds 0 orphaned false (wait cpu false 0 orphaned)
unfolding exit
wait_after_exit_example =
    wait_after_exit cpu cpu false 7 1 0 family orphaned {p = proc running nowhere 2 (some 0)} refl
      refl (omega arith) refl

kill_zero_taints_example :
    (ps : Procs) × (kill 0 family.procs ≡ some ps)
    × (l : Kernel) × (allocproc memory (record family { procs = ps }) ≡ (some 3, l))
    × (p : Proc) × (get_elem? l.procs 3 ≡ some p)
    × (p.killed ≡ true)
    × (p.pid ≡ 4)
unfolding allocproc
kill_zero_taints_example =
    kill_zero_taints memory family 3 (ground arith) refl (omega arith) (omega arith)

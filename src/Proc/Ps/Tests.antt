-- ===== src/Proc/Ps/Tests.antt =====
-- kernel/proc.c: `ps` and `schedset` on small inputs.
use tdt4186_lab.Base.{◌≡◌, refl, true, none, some, [], ◌∷◌, arith, map}
use tdt4186_lab.Proc.{Proc, Procs, unused, running, nowhere}
use tdt4186_lab.Proc.Ps.{ps, schedset, ps_start, mlfq}

abbrev init : Proc
init = record {
  state = running;
  chan = nowhere;
  killed = true;
  xstate = 0;
  pid = 1;
  priority = 0;
  promotion_timer = 0;
  parent = none;
  sz = 0;
  pagetable = 0;
  trapframe = 0;
  ofile = [];
  cwd = 0;
  name = [];
}

abbrev table : Procs
table = init ∷ record init { pid = 2; parent = some 0 } ∷ record init { state = unused } ∷ init ∷ []

ps_runs : elim (ps 360 true 0 9 table) [ none ↦ [] | some us ↦ map (λ u. u.pid) us ] ≡ 1 ∷ 2 ∷ []
unfolding ps
ps_runs = refl

schedset_runs : (schedset 2 ≡ some mlfq) × (schedset 3 ≡ none)
unfolding schedset
schedset_runs = (refl, refl)

ps_start_example : ps 360 true 1 9 table ≡ none
ps_start_example = ps_start 360 true 1 9 table (omega arith) (omega arith)

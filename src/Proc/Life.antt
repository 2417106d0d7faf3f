-- ===== src/Proc/Life.antt =====
-- kernel/proc.c: `allocproc`, `freeproc`, `fork`, `reparent`, `exit` and `wait`.
--
-- The pages behind `trapframe` and `pagetable` and the reference counts behind `ofile` and `cwd`
-- belong to other parts of the kernel; here stand the pointers. `Memory` holds what the calls of
-- `kalloc`, `proc_pagetable` and `uvmcopy` return. A `name` is its characters before the NUL.
pub mod Exit
pub mod KillZero
mod Tests
use tdt4186_lab.Base.{
  ℕ, zero, suc, ◌+◌, ◌-◌, ◌%◌, ◌^◌, ◌≡◌, refl, Bool, true, false, ◌&&◌, ◌||◌, not, Option, none,
  some, List, [], ◌∷◌, ◌==◌, ltb, if◌then◌else◌, get_elem?, Result, ok, panic, map, length,
}
use tdt4186_lab.Proc.{
  Proc, ProcState, unused, used, sleeping, runnable, running, zombie, Chan, nowhere, at_proc, Procs,
  is_unused, is_zombie, modify,
}
use tdt4186_lab.Proc.Table.{wakeup, Cpu, sched, fall_asleep}

pub record Kernel : Type 0 where
  pub procs : Procs
  pub nextpid : ℕ
  pub initproc : ℕ

pub record Memory : Type 0 where
  pub trapframe : ℕ
  pub pagetable : ℕ
  pub copied : Bool

-- `allocpid`: the pid, and the counter behind it (an `int`, by its bit pattern).
pub allocpid : Kernel → ℕ × Kernel
allocpid k = (k.nextpid, record k { nextpid = (k.nextpid + 1) % 2 ^ 32 })

abbrev pub freed : Proc → Proc
freed p = record p {
  trapframe = 0;
  pagetable = 0;
  sz = 0;
  pid = 0;
  parent = none;
  name = [];
  chan = nowhere;
  killed = false;
  xstate = 0;
  state = unused;
}

pub freeproc : ℕ → Kernel → Kernel
unfolding modify
freeproc i k = record k { procs = modify i freed k.procs }

-- The loop of `allocproc`: the first unused slot.
unfoldable pub find_unused : Procs → Option ℕ
find_unused [] = none
find_unused (p ∷ ps) =
    let rest : Option ℕ = elim (find_unused ps) [ none ↦ none | some i ↦ some (suc i) ] in
    if is_unused p.state then some 0 else rest

abbrev pub claimed : ℕ → Memory → Proc → Proc
claimed pid m p = record p {
  pid = pid;
  state = used;
  priority = 0;
  promotion_timer = 0;
  trapframe = m.trapframe;
  pagetable = if m.trapframe == 0 then p.pagetable else m.pagetable;
}

pub allocproc : Memory → Kernel → Option ℕ × Kernel
unfolding allocpid freeproc find_unused modify
allocproc m k = elim (find_unused k.procs) [
  | none ↦ (none, k)
  | some i ↦
      let (pid, l) = allocpid k in
      let taken : Kernel = record l { procs = modify i (claimed pid m) l.procs } in
      if (m.trapframe == 0) || (m.pagetable == 0) then (none, freeproc i taken) else (some i, taken)
]

-- `safestrcpy(np->name, p->name, sizeof(p->name))`
unfoldable pub copy_name : ℕ → List ℕ → List ℕ
copy_name zero cs = []
copy_name (suc n) [] = []
copy_name (suc n) (c ∷ cs) = c ∷ copy_name n cs

abbrev pub child_of : ℕ → Proc → Proc → Proc
child_of me p np = record np {
  sz = p.sz;
  ofile = p.ofile;
  cwd = p.cwd;
  name = copy_name 15 p.name;
  parent = some me;
  state = runnable;
}

abbrev pub pid_at : ℕ → Procs → ℕ
pid_at i ps = elim (get_elem? ps i) [ none ↦ 0 | some p ↦ p.pid ]

-- `fork()` by the process `p` at `me`: the pid of the child, or `none` for -1.
pub fork : ℕ → Proc → Memory → Kernel → Option ℕ × Kernel
unfolding allocproc copy_name
fork me p m k =
    let (child, l) = allocproc m k in
    elim child [
      | none ↦ (none, l)
      | some i ↦
          if m.copied
          then (some (pid_at i l.procs), record l { procs = modify i (child_of me p) l.procs })
          else (none, freeproc i l)
    ]

abbrev pub names : ℕ → Option ℕ → Bool
names me none = false
names me (some i) = i == me

abbrev pub parent_at : ℕ → Procs → Option ℕ
parent_at i [] = none
parent_at zero (p ∷ ps) = p.parent
parent_at (suc i) (p ∷ ps) = parent_at i ps

abbrev pub is_child : ℕ → Proc → Bool
is_child me p = names me p.parent

abbrev pub child_at : ℕ → ℕ → Procs → Bool
child_at me i ps = names me (parent_at i ps)

-- The loop of `reparent(p)`, for `p` at `me`, from slot `i` on.
pub reparent_from : (init me : ℕ) → (left i : ℕ) → Procs → Procs
unfolding modify wakeup
reparent_from init me zero i ps = ps
reparent_from init me (suc left) i ps = reparent_from init me left (i + 1) (
    if child_at me i ps
    then wakeup me (at_proc init) (modify i (λ p. record p { parent = some init }) ps)
    else ps)

abbrev pub chan_of : Option ℕ → Chan
chan_of none = nowhere
chan_of (some i) = at_proc i

abbrev pub closed : Proc → Proc
closed p = record p { ofile = map (λ f. 0) p.ofile; cwd = 0 }

abbrev pub buried : ℕ → Proc → Proc
buried status p = record p { xstate = status; state = zombie }

-- `exit(status)` of process `me` up to its `swtch`.
pub exit : Cpu → ℕ → ℕ → Kernel → Result Kernel
unfolding reparent_from sched
exit c status me k =
    let open_none = modify me closed k.procs in
    let adopted = reparent_from k.initproc me (length open_none) 0 open_none in
    let told = wakeup me (chan_of (parent_at me adopted)) adopted in
    if me == k.initproc
    then panic "init exiting"
    else elim (sched c me (modify me (buried status) told)) [
      | ok ps ↦ ok (record k { procs = ps })
      | panic e ↦ panic e
    ]

-- The scan of `wait` for an exited child.
unfoldable pub zombie_child : ℕ → Procs → Option ℕ
zombie_child me [] = none
zombie_child me (p ∷ ps) =
    let rest : Option ℕ = elim (zombie_child me ps) [ none ↦ none | some i ↦ some (suc i) ] in
    if is_child me p && is_zombie p.state then some 0 else rest

unfoldable pub has_child : ℕ → Procs → Bool
has_child me [] = false
has_child me (p ∷ ps) = is_child me p || has_child me ps

abbrev pub killed_at : ℕ → Procs → Bool
killed_at i ps = elim (get_elem? ps i) [ none ↦ false | some p ↦ p.killed ]

-- One turn of the loop of `wait`: it returns a pid or -1, or falls asleep and tries again later.
pub data Waited : Type 0 where
  reaped : (pid : ℕ) → Kernel → Waited
  failed : Kernel → Waited
  waits : Result Procs → Waited

-- `copy_fails` is `addr != 0 && copyout(...) < 0`.
pub wait : Cpu → (copy_fails : Bool) → ℕ → Kernel → Waited
unfolding zombie_child has_child freeproc fall_asleep
wait c copy_fails me k = elim (zombie_child me k.procs) [
  | some i ↦ if copy_fails then failed k else reaped (pid_at i k.procs) (freeproc i k)
  | none ↦
      if not (has_child me k.procs) || killed_at me k.procs
      then failed k
      else waits (fall_asleep (at_proc me) c me k.procs)
]

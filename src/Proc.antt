-- ===== src/Proc.antt =====
-- kernel/proc.c and kernel/proc.h: the process table.
--
-- A process is named by its index in `proc[NPROC]`. Code under `p->lock`, or under `wait_lock`, is
-- one step; `acquire` and `release` do not appear. `swtch` ends a step: what the other side does
-- until it switches back is an argument of the scheduler loops. `Table` holds the calls on one
-- process or all of them, `Life` those from `fork` to `wait`, `Sched` the two schedulers.
pub mod Table
pub mod Life
pub mod Sched
pub mod Ps
use tdt4186_lab.Base.{
  ℕ, zero, suc, ◌+◌, ◌-◌, ◌%◌, ◌^◌, ◌≡◌, Bool, true, false, ◌&&◌, Option, none, some, List, [], ◌∷◌,
  ◌==◌, ltb, if◌then◌else◌,
}

pub data ProcState : Type 0 where
  unused used sleeping runnable running zombie : ProcState

abbrev pub is_unused : ProcState → Bool
is_unused unused = true
is_unused _ = false

abbrev pub is_sleeping : ProcState → Bool
is_sleeping sleeping = true
is_sleeping _ = false

abbrev pub is_runnable : ProcState → Bool
is_runnable runnable = true
is_runnable _ = false

abbrev pub is_running : ProcState → Bool
is_running running = true
is_running _ = false

abbrev pub is_zombie : ProcState → Bool
is_zombie zombie = true
is_zombie _ = false

-- An address to sleep on: none, that of a process, or another kernel object's.
pub data Chan : Type 0 where
  nowhere : Chan
  at_proc : ℕ → Chan
  at_object : ℕ → Chan

abbrev pub chan_eq : Chan → Chan → Bool
chan_eq nowhere nowhere = true
chan_eq (at_proc i) (at_proc j) = i == j
chan_eq (at_object i) (at_object j) = i == j
chan_eq _ _ = false

-- `struct proc` less its lock, `kstack` and `context`. Null pointers are 0; `parent` is an index.
pub record Proc : Type 0 where
  pub state : ProcState
  pub chan : Chan
  pub killed : Bool
  pub xstate : ℕ
  pub pid : ℕ
  pub priority : ℕ
  pub promotion_timer : ℕ
  pub parent : Option ℕ
  pub sz : ℕ
  pub pagetable : ℕ
  pub trapframe : ℕ
  pub ofile : List ℕ
  pub cwd : ℕ
  pub name : List ℕ

abbrev pub Procs : Type 0
Procs = List Proc

abbrev pub max_prio : ℕ
max_prio = 1

abbrev pub prom_time : ℕ
prom_time = 5

-- One field of the process at `i`; what `proc[i]` is beyond the table does not matter.
unfoldable pub modify : ℕ → (Proc → Proc) → Procs → Procs
modify i f [] = []
modify zero f (p ∷ ps) = f p ∷ ps
modify (suc i) f (p ∷ ps) = p ∷ modify i f ps

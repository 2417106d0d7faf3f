-- ===== src/Proc/Ps.antt =====
-- kernel/proc.c: `ps`, `schedls` and `schedset`, the calls that look at the table and pick a scheduler.
mod Tests
use tdt4186_lab.Base.{
  ℕ, zero, suc, ◌+◌, ◌-◌, ◌*◌, ◌≤◌, ◌<◌, ◌≡◌, ◌≢◌, refl, ap, Bool, true, false, Option, none, some,
  List, [], ◌∷◌, arith, ◌==◌, ltb, leb, if◌then◌else◌, get_elem?, drop, not, ◌↔◌, ◌⊎◌, length, All,
  Bool-cases, inl, inr,
}
use tdt4186_lab.Proc.{Proc, ProcState, unused, Procs, is_unused}
use tdt4186_lab.Proc.Life.{Kernel, pid_at}

abbrev pub nproc : ℕ
nproc = 64

-- `struct user_proc`; the field `parent_id` stays as it was on the stack where there is no parent.
pub record UserProc : Type 0 where
  pub state : ProcState
  pub killed : Bool
  pub xstate : ℕ
  pub pid : ℕ
  pub parent_id : Option ℕ
  pub name : List ℕ

abbrev pub user_proc : Procs → Proc → UserProc
user_proc table p = record {
  state = p.state;
  killed = p.killed;
  xstate = p.xstate;
  pid = p.pid;
  parent_id = elim (p.parent) [ none ↦ none | some i ↦ some (pid_at i table) ];
  name = p.name;
}

-- The loop of `ps` over the rest of the table, with `count - localCount` = `room`: the entries that
-- it fills in. It stops at the first free slot.
pub list_procs : Procs → (room : ℕ) → Procs → List UserProc
list_procs table room [] = []
list_procs table zero (p ∷ ps) = []
list_procs table (suc room) (p ∷ ps) =
    let rest = user_proc table p ∷ list_procs table room ps in
    if is_unused p.state then [] else rest

-- `ps(start, count)`. `grows` is whether `growproc` succeeds, and `proc_size` is
-- `sizeof(struct proc)`. `proc + (start * sizeof(proc))` advances by the size of the whole array,
-- in elements. The result is what is copied out to the old end of the process' memory, where the
-- entries are followed by one whose state is UNUSED, if there is room; `none` is a null pointer.
pub ps : (proc_size : ℕ) (grows : Bool) (start count : ℕ) → Procs → Option (List UserProc)
unfolding list_procs
ps proc_size grows start count table =
    let first = start * (nproc * proc_size) in
    if count == 0
    then none
    else if not grows
    then none
    else if leb nproc first
    then none
    else some (list_procs table count (drop first table))

pub data Scheduler : Type 0 where
  round_robin mlfq : Scheduler

-- `available_schedulers`, by name and id as `schedls` prints them, and what `sched_pointer` is
-- set to.
abbrev pub available_schedulers : List Scheduler
available_schedulers = round_robin ∷ mlfq ∷ []

-- `schedset(id)`, for an `id` that is not negative: the new `sched_pointer`, or `none` for what
-- lies outside the array.
pub schedset : ℕ → Option Scheduler
schedset zero = none
schedset (suc i) = get_elem? available_schedulers i

past_the_end :
    (start proc_size : ℕ) → 0 < proc_size → 0 < start → nproc ≤ start * (nproc * proc_size)
past_the_end zero proc_size size pos = absurd (omega arith)
past_the_end (suc start) proc_size size pos = omega arith

-- `ps` with any start but 0 returns a null pointer and lists nothing, whatever the table holds.
pub ps_start :
    (proc_size : ℕ) (grows : Bool) (start count : ℕ) (table : Procs)
    → 0 < proc_size
    → 0 < start
    → ps proc_size grows start count table ≡ none
unfolding ps
ps_start proc_size grows start count table size pos = ground (arith, past_the_end start proc_size)

-- `schedset` sets the scheduler to one of the available ones for the ids 1 and 2, and for no
-- other: it has no check of its range.
pub schedset_range : (id : ℕ) → (schedset id ≢ none) ↔ ((id ≡ 1) ⊎ (id ≡ 2))
unfolding schedset
schedset_range zero = (λ h. absurd (h refl), λ o. ground (arith, o))
schedset_range (suc zero) = (λ h. inl refl, λ o. ground arith)
schedset_range (suc (suc zero)) = (λ h. inr refl, λ o. ground arith)
schedset_range (suc (suc (suc id))) = (λ h. absurd (h refl), λ o. ground (arith, o))

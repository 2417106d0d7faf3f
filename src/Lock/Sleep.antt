-- ===== src/Lock/Sleep.antt =====
-- kernel/sleeplock.c: sleep locks, over the process table's `sleep` and `wakeup`.
--
-- Each function holds `lk->lk` except while it sleeps, so its run up to that, or to its return, is
-- one step. `at_object lk` is the address of the lock, on which its waiters sleep.
use tdt4186_lab.Base.{
  ℕ, ◌≡◌, ◌≢◌, refl, true, false, Bool, ◌&&◌, ◌==◌, if◌then◌else◌, Result, ok, arith, some,
  get_elem?,
}
use tdt4186_lab.Proc.{Proc, Procs, runnable, at_object}
use tdt4186_lab.Proc.Table.{Cpu, fall_asleep, wakeup, state_at}
use tdt4186_lab.Proc.Table.Wakeup.{sleeper_is_woken}

pub record Sleeplock : Type 0 where
  pub locked : Bool
  pub pid : ℕ

abbrev pub initsleeplock : Sleeplock
initsleeplock = record { locked = false; pid = 0 }

-- One turn of the loop of `acquiresleep`: it has the lock, or its `sleep` has gone as far as the
-- context switch.
pub data Acquired : Type 0 where
  taken : Sleeplock → Acquired
  sleeps : Result Procs → Acquired

-- `acquiresleep(lk)` by the process in slot `me`, which has the given pid.
unfoldable pub acquiresleep : (lk : ℕ) → Cpu → (me pid : ℕ) → Sleeplock → Procs → Acquired
acquiresleep lk c me pid l ps =
    if l.locked
    then sleeps (fall_asleep (at_object lk) c me ps)
    else taken (record { locked = true; pid = pid })

pub releasesleep : (lk me : ℕ) → Procs → Sleeplock × Procs
releasesleep lk me ps = (record { locked = false; pid = 0 }, wakeup me (at_object lk) ps)

pub holdingsleep : ℕ → Sleeplock → Bool
holdingsleep pid l = l.locked && l.pid == pid

-- The lock goes from one process to another.
pub record Handover (lk pid other : ℕ) (me : ℕ) (l : Sleeplock) (qs : Procs)
    (after : Sleeplock × Procs) : Type 0 where
  pub held : holdingsleep pid l ≡ true
  pub not_other : pid ≢ other → holdingsleep other l ≡ false
  pub awake : state_at me after.1 ≡ runnable
  pub next :
      (c : Cpu)
      → acquiresleep lk c me other after.0 after.1 ≡ taken (record { locked = true; pid = other })

-- If a process takes a sleep lock, and another one that wants it went to sleep: the first one holds
-- it, by its pid; and when it calls `releasesleep`, the sleeper is runnable, and gets the lock if it
-- then runs before others.
pub sleep_lock-Handover :
    (lk : ℕ) (c d : Cpu) (owner me pid other : ℕ) (l : Sleeplock) (ps : Procs) {l' : Sleeplock}
    {qs : Procs} {p : Proc}
    → acquiresleep lk c owner pid l ps ≡ taken l'
    → get_elem? ps me ≡ some p
    → acquiresleep lk d me other l' ps ≡ sleeps (ok qs)
    → me ≢ owner
    → Handover lk pid other me l' qs (releasesleep lk owner qs)
unfolding acquiresleep releasesleep holdingsleep
sleep_lock-Handover lk c d owner me pid other l ps {l'} {qs} got there slept ne =
    let l_is : l' ≡ record { locked = true; pid = pid } = ground (arith, got) in
    let slept_on : fall_asleep (at_object lk) d me ps ≡ ok qs = ground (arith, slept, l_is) in
    record {
      held = ground (arith, l_is);
      not_other = λ n. ground (arith, l_is, n);
      awake = sleeper_is_woken d (at_object lk) me owner ps qs there slept_on ne;
      next = λ e. refl;
    }

-- ===== src/Proc/Life/KillZero.antt =====
-- kernel/proc.c: `kill(0)` reaches a free slot.
use tdt4186_lab.Base.{
  ℕ, suc, ◌+◌, ◌%◌, ◌^◌, ◌≡◌, ◌≢◌, refl, true, some, [], ◌∷◌, get_elem?, arith, Bool-cases,
  Option-cases, inl, inr,
}
use tdt4186_lab.Proc.{Proc, unused, Procs, is_unused, modify}
use tdt4186_lab.Proc.Table.{kill, victim}
use tdt4186_lab.Proc.Table.Wakeup.{get_elem?-modify_self}
use tdt4186_lab.Proc.Life.{Kernel, Memory, allocproc, find_unused, claimed}

-- Only free slots have pid 0, as `freeproc` leaves them.
abbrev pub PidsPositive : Procs → Type 0
PidsPositive [] = Unit
PidsPositive (p ∷ ps) =
    ((p.pid ≡ 0) → p.state ≡ unused) × (p.state ≡ unused → p.pid ≡ 0) × PidsPositive ps

-- `kill(0)` succeeded, and the slot that the next `allocproc` takes is marked.
record Marked (ps : Procs) (i : ℕ) : Type 0 where
  after : Procs
  kills : kill 0 ps ≡ some after
  first_free : find_unused after ≡ some i
  slot : Proc
  there : get_elem? after i ≡ some slot
  marked : slot.killed ≡ true

kill_zero : (ps : Procs) (i : ℕ) → PidsPositive ps → find_unused ps ≡ some i → Marked ps i
unfolding find_unused kill
kill_zero [] i h e = cc
kill_zero (p ∷ ps) i h e = elim (Bool-cases (is_unused p.state)) [
  | inl free ↦
      let is_free : p.state ≡ unused = ground (arith, free) in
      let at_zero : i ≡ 0 = ground (arith, free, e) in
      rw at_zero (record {
        after = victim p ∷ ps;
        kills = ground (arith, h.1 is_free);
        first_free = ground (arith, is_free);
        slot = victim p;
        there = refl;
        marked = ground arith;
      })
  | inr busy ↦ elim (Option-cases (find_unused ps)) [
    | inl no_more ↦ ground (arith, busy, no_more, e)
    | inr (j, found) ↦
        let m = kill_zero ps j h.2 found in
        let next : i ≡ suc j = ground (arith, busy, found, e) in
        rw next (record {
          after = p ∷ m.after;
          kills = ground (arith, h.0, busy, m.kills);
          first_free = ground (arith, busy, m.first_free);
          slot = m.slot;
          there = m.there;
          marked = m.marked;
        })
  ]
]

-- In a table where exactly the free slots have pid 0 and that has a free slot, `kill(0)` does not
-- fail: it marks the first free slot as killed, and `allocproc`, if there is memory, gives out
-- that slot with the mark still set, so that the new process is killed from the start.
pub kill_zero_taints :
    (m : Memory) (k : Kernel) (i : ℕ)
    → PidsPositive k.procs
    → find_unused k.procs ≡ some i
    → m.trapframe ≢ 0
    → m.pagetable ≢ 0
    → (ps : Procs) × (kill 0 k.procs ≡ some ps)
      × (l : Kernel) × (allocproc m (record k { procs = ps }) ≡ (some i, l))
      × (p : Proc) × (get_elem? l.procs i ≡ some p)
      × (p.killed ≡ true)
      × (p.pid ≡ k.nextpid)
unfolding allocproc
kill_zero_taints m k i h e tf pt =
    let t = kill_zero k.procs i h e in
    (
      t.after,
      t.kills,
      record k {
        procs = modify i (claimed k.nextpid m) t.after;
        nextpid = (k.nextpid + 1) % 2 ^ 32;
      },
      ground (arith, t.first_free),
      claimed k.nextpid m t.slot,
      get_elem?-modify_self i (claimed k.nextpid m) t.after t.there,
      t.marked,
      refl,
    )

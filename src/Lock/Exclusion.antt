-- ===== src/Lock/Exclusion.antt =====
-- kernel/spinlock.c: one processor at a time holds a lock, and it takes no interrupts meanwhile.
use tdt4186_lab.Base.{
  ℕ, ◌≡◌, refl, true, false, Bool, Result, ok, arith, if◌then◌else◌, none, some, List, [], ◌∷◌,
  Bool-cases, inl, inr,
}
use tdt4186_lab.Lock.{
  Cpu, push_off, pop_off, initlock, is_cpu, Place, outside, spinning, won, inside, leaving,
  unlocked, System, go, with_cpu, advance, run,
}

-- Between the swap that takes the lock and the store that frees it.
abbrev pub has_lock : Place → Bool
has_lock won = true
has_lock inside = true
has_lock leaving = true
has_lock _ = false

abbrev pub is_outside : Place → Bool
is_outside outside = true
is_outside _ = false

abbrev pub is_inside : Place → Bool
is_inside inside = true
is_inside _ = false

pub record Inv (s : System) : Type 0 where
  pub locked : (i : ℕ) → has_lock (s.place i) ≡ true → s.lock.locked ≡ true
  pub held : s.lock.locked ≡ true → (i : ℕ) × (has_lock (s.place i) ≡ true)
  pub unique : (i j : ℕ) → has_lock (s.place i) ≡ true → has_lock (s.place j) ≡ true → i ≡ j
  pub owner : (i : ℕ) → is_cpu i s.lock.cpu ≡ is_inside (s.place i)
  pub depth : (i : ℕ) → (s.cpu i).noff ≡ (if is_outside (s.place i) then 0 else 1)
  pub quiet : (i : ℕ) → is_outside (s.place i) ≡ false → (s.cpu i).interrupts ≡ false

abbrev popped : Cpu → Cpu
popped c = record {
  noff = 0;
  intena = c.intena;
  interrupts = if c.intena then true else c.interrupts;
}

pub record Exclusive (result : Result System) : Type 0 where
  pub after : System
  pub returns : result ≡ ok after
  pub inv : Inv after

advance-Inv : (i : ℕ) (s : System) → Inv s → (p : Place) → s.place i ≡ p → Exclusive (advance i p s)
unfolding advance push_off pop_off
advance-Inv i s v outside e = record {
  after = go i spinning (with_cpu i (push_off (s.cpu i)) s);
  returns = ground (arith, v.owner i, v.locked i, v.depth i, v.quiet i, e);
  inv = record {
    locked = λ j h. ground (arith, v.locked j, v.unique i j, h, e);
    held = λ h. let (k, m) = v.held h in (k, ground (arith, m, e));
    unique = λ j k h m. ground (arith, v.unique j k, v.locked j, v.locked k, h, m, e);
    owner = λ j. ground (arith, v.owner j, v.unique i j, e);
    depth = λ j. ground (arith, v.depth i, v.depth j, e);
    quiet = λ j h. ground (arith, v.quiet i, v.quiet j, h, e);
  };
}
advance-Inv i s v spinning e = record {
  after =
      go i (if s.lock.locked then spinning else won)
        (record s { lock = record (s.lock) { locked = true } });
  returns = ground (arith, v.owner i, v.locked i, v.depth i, v.quiet i, e);
  inv = record {
    locked = λ j h. ground (arith, v.locked j, v.unique i j, h, e);
    held = λ h. elim (Bool-cases s.lock.locked) [
      | inl l ↦ let (k, m) = v.held l in (k, ground (arith, m, l, e))
      | inr l ↦ (i, ground (arith, l))
    ];
    unique = λ j k h m. ground (arith, v.unique j k, v.locked j, v.locked k, h, m, e);
    owner = λ j. ground (arith, v.owner j, v.unique i j, e);
    depth = λ j. ground (arith, v.depth i, v.depth j, e);
    quiet = λ j h. ground (arith, v.quiet i, v.quiet j, h, e);
  };
}
advance-Inv i s v won e = record {
  after = go i inside (record s { lock = record (s.lock) { cpu = some i } });
  returns = ground (arith, v.owner i, v.locked i, v.depth i, v.quiet i, e);
  inv = record {
    locked = λ j h. ground (arith, v.locked j, v.unique i j, h, e);
    held = λ h. (i, ground arith);
    unique = λ j k h m. ground (arith, v.unique j k, v.locked j, v.locked k, h, m, e);
    owner = λ j. ground (arith, v.owner j, v.unique i j, e);
    depth = λ j. ground (arith, v.depth i, v.depth j, e);
    quiet = λ j h. ground (arith, v.quiet i, v.quiet j, h, e);
  };
}
advance-Inv i s v inside e = record {
  after = go i leaving (record s { lock = record (s.lock) { cpu = none } });
  returns = ground (arith, v.owner i, v.locked i, v.depth i, v.quiet i, e);
  inv = record {
    locked = λ j h. ground (arith, v.locked j, v.unique i j, h, e);
    held = λ h. (i, ground arith);
    unique = λ j k h m. ground (arith, v.unique j k, v.locked j, v.locked k, h, m, e);
    owner = λ j. ground (arith, v.owner j, v.unique i j, e);
    depth = λ j. ground (arith, v.depth i, v.depth j, e);
    quiet = λ j h. ground (arith, v.quiet i, v.quiet j, h, e);
  };
}
advance-Inv i s v leaving e = record {
  after = go i unlocked (record s { lock = record (s.lock) { locked = false } });
  returns = ground (arith, v.owner i, v.locked i, v.depth i, v.quiet i, e);
  inv = record {
    locked = λ j h. ground (arith, v.locked j, v.unique i j, h, e);
    held = λ h. cc;
    unique = λ j k h m. ground (arith, v.unique j k, v.locked j, v.locked k, h, m, e);
    owner = λ j. ground (arith, v.owner j, v.unique i j, e);
    depth = λ j. ground (arith, v.depth i, v.depth j, e);
    quiet = λ j h. ground (arith, v.quiet i, v.quiet j, h, e);
  };
}
advance-Inv i s v unlocked e = record {
  after = go i outside (with_cpu i (popped (s.cpu i)) s);
  returns = ground (arith, v.owner i, v.locked i, v.depth i, v.quiet i, e);
  inv = record {
    locked = λ j h. ground (arith, v.locked j, v.unique i j, h, e);
    held = λ h. let (k, m) = v.held h in (k, ground (arith, m, e));
    unique = λ j k h m. ground (arith, v.unique j k, v.locked j, v.locked k, h, m, e);
    owner = λ j. ground (arith, v.owner j, v.unique i j, e);
    depth = λ j. ground (arith, v.depth i, v.depth j, e);
    quiet = λ j h. ground (arith, v.quiet i, v.quiet j, h, e);
  };
}

run-Exclusive : (is : List ℕ) {s : System} → Inv s → Exclusive (run is s)
unfolding run
run-Exclusive [] {s} v = record { after = s; returns = refl; inv = v }
run-Exclusive (i ∷ is) {s} v =
    let r = advance-Inv i s v (s.place i) refl in rw (r.returns, run) (run-Exclusive is r.inv)

abbrev pub start : (ℕ → Cpu) → System
start c = record { lock = initlock; cpu = c; place = λ i. outside }

-- From a new lock and processors that are in no `push_off`, whichever processors take turns, and
-- however they interleave inside `acquire` and `release`: none of them panics; at most one has the
-- lock, and one has it if it is locked; `holding` is true of exactly the one in its critical
-- section; and each processor is one `push_off` deep, and takes no interrupts, from its call of
-- `acquire` until its `release` ends.
pub lock-Exclusive :
    (is : List ℕ) (c : ℕ → Cpu) → ((i : ℕ) → (c i).noff ≡ 0) → Exclusive (run is (start c))
lock-Exclusive is c idle = run-Exclusive is (record {
  locked = λ i h. cc;
  held = λ h. cc;
  unique = λ i j h m. cc;
  owner = λ i. refl;
  depth = λ i. idle i;
  quiet = λ i h. cc;
})

-- ===== src/Lock/Nesting.antt =====
-- kernel/spinlock.c: `push_off` and `pop_off` are matched.
use tdt4186_lab.Base.{
  ℕ, zero, suc, ◌<◌, ◌≡◌, refl, false, Result, ok, panic, arith, ◌==◌, if◌then◌else◌,
}
use tdt4186_lab.Lock.{Cpu, push_off, pop_off}

unfoldable pub push_times : ℕ → Cpu → Cpu
push_times zero c = c
push_times (suc n) c = push_times n (push_off c)

unfoldable pub pop_times : ℕ → Cpu → Result Cpu
pop_times zero c = ok c
pop_times (suc n) c = elim (pop_off c) [ ok d ↦ pop_times n d | panic m ↦ panic m ]

-- Inside a `push_off` interrupts are off.
abbrev pub IsNested : Cpu → Type 0
IsNested c = 0 < c.noff → c.interrupts ≡ false

pub record Restored (c : Cpu) (result : Result Cpu) : Type 0 where
  pub after : Cpu
  pub returns : result ≡ ok after
  pub noff : after.noff ≡ c.noff
  pub interrupts : after.interrupts ≡ c.interrupts
  pub intena : 0 < c.noff → after.intena ≡ c.intena

last_first : (n : ℕ) (c : Cpu) → push_times (suc n) c ≡ push_off (push_times n c)
unfolding push_times
last_first zero c = refl
last_first (suc n) c = last_first n (push_off c)

push-IsNested : (n : ℕ) (c : Cpu) → IsNested c → IsNested (push_times n c)
unfolding push_times push_off
push-IsNested zero c h = h
push-IsNested (suc n) c h = push-IsNested n (push_off c) λ p. refl

pop_off-push_off : (c : Cpu) → IsNested c → Restored c (pop_off (push_off c))
unfolding push_off pop_off
pop_off-push_off c h = record {
  after = record {
    noff = c.noff;
    intena = if c.noff == 0 then c.interrupts else c.intena;
    interrupts = c.interrupts;
  };
  returns = ground (arith, h);
  noff = refl;
  interrupts = refl;
  intena = λ p. ground arith;
}

-- Where one is already open, a further pair changes nothing at all.
pop_off-push_off_inner : (c : Cpu) → IsNested c → 0 < c.noff → pop_off (push_off c) ≡ ok c
unfolding push_off pop_off
pop_off-push_off_inner c h p = ground (arith, h)

push_times_open : (n : ℕ) (c : Cpu) → 0 < (push_times (suc n) c).noff
unfolding push_times push_off
push_times_open zero c = omega arith
push_times_open (suc n) c = push_times_open n (push_off c)

one_pair : (c : Cpu) → IsNested c → Restored c (pop_times 1 (push_times 1 c))
unfolding push_times pop_times
one_pair c h =
    let r = pop_off-push_off c h in
    record {
      after = r.after;
      returns = ground (arith, r.returns);
      noff = r.noff;
      interrupts = r.interrupts;
      intena = r.intena;
    }

-- On a processor that takes no interrupts inside a `push_off`: any number of further calls of
-- `push_off`, and then as many of `pop_off`, run without a panic, and leave the depth, and whether
-- the processor takes interrupts, as they were.
pub pop_times-push_times :
    (n : ℕ) (c : Cpu) → IsNested c → Restored c (pop_times (suc n) (push_times (suc n) c))
unfolding pop_times
pop_times-push_times zero c h = one_pair c h
pop_times-push_times (suc n) c h =
    let inner =
      pop_off-push_off_inner (push_times (suc n) c) (push-IsNested (suc n) c h)
        (push_times_open n c) in
    rw (last_first (suc n) c, inner, pop_times) (pop_times-push_times n c h)

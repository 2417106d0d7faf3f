-- ===== src/Proc/Table/Promotion.antt =====
-- kernel/proc.c: a process that used up its time slice is back at high priority in time.
use tdt4186_lab.Base.{
  ℕ, zero, suc, ◌+◌, ◌^◌, ◌≤◌, ◌<◌, ◌≡◌, some, arith, ltb, if◌then◌else◌, get_elem?, ok, ap, ◌∙◌,
}
use tdt4186_lab.Proc.{Proc, Procs, max_prio, prom_time, modify}
use tdt4186_lab.Proc.Table.{promote, count_down, Cpu, yield_cpu, timer, yielding}
use tdt4186_lab.Proc.Table.Wakeup.{get_elem?-count_down, get_elem?-modify_self}

-- What is found in a slot where no other processor counts at the same time.
abbrev pub exact : ℕ → Proc → ℕ × ℕ
exact k p = (p.priority, p.promotion_timer)

-- `n` more calls of `sched`, by any processes.
unfoldable pub rounds : ℕ → Procs → Procs
rounds zero ps = ps
rounds (suc n) ps = rounds n (count_down exact 0 ps)

unfoldable pub rounds_of : ℕ → Proc → Proc
rounds_of zero p = p
rounds_of (suc n) p = rounds_of n (promote (p.priority, p.promotion_timer) p)

get_elem?-rounds :
    (n i : ℕ) (ps : Procs) {p : Proc}
    → get_elem? ps i ≡ some p
    → get_elem? (rounds n ps) i ≡ some (rounds_of n p)
unfolding rounds rounds_of
get_elem?-rounds zero i ps e = e
get_elem?-rounds (suc n) i ps e =
    get_elem?-rounds n i (count_down exact 0 ps) (get_elem?-count_down exact 0 ps i e)

-- With `t` on its timer a process of low priority stays there for `t - 1` calls of `sched` and
-- comes back with the next one.
rounds_of_low :
    (n : ℕ) (p : Proc)
    → 0 < p.priority
    → n < p.promotion_timer
    → p.promotion_timer < 2 ^ 31
    → ((rounds_of n p).priority ≡ p.priority)
      × ((rounds_of n p).promotion_timer + n ≡ p.promotion_timer)
unfolding rounds_of promote
rounds_of_low zero p low h b = omega arith
rounds_of_low (suc n) p low h b =
    ground (arith, rounds_of_low n (promote (p.priority, p.promotion_timer) p))

rounds_of_high : (n : ℕ) (p : Proc) → p.priority ≡ 0 → (rounds_of n p).priority ≡ 0
unfolding rounds_of promote
rounds_of_high zero p h = h
rounds_of_high (suc n) p h =
    ground (arith, rounds_of_high n (promote (p.priority, p.promotion_timer) p))

rounds_of_up :
    (n : ℕ) (p : Proc)
    → 0 < p.priority
    → 0 < p.promotion_timer
    → p.promotion_timer < 2 ^ 31
    → p.promotion_timer ≤ n
    → (rounds_of n p).priority ≡ 0
unfolding rounds_of promote
rounds_of_up zero p low h b k = absurd (omega arith)
rounds_of_up (suc n) p low h b k = ground (
  arith,
  rounds_of_up n (promote (p.priority, p.promotion_timer) p),
  rounds_of_high n (promote (p.priority, p.promotion_timer) p),
)

-- As long as no two processors count at the same time: a process that yields because of the timer
-- goes to low priority, and stays there while `sched` is called up to three more times; from the
-- fourth further call on, whoever makes them, it is at high priority again, unless it is demoted
-- anew. Its own `sched` counts as the first of `PROM_TIME`.
pub demotion_ends :
    (c : Cpu) (i : ℕ) (ps qs : Procs) {p : Proc}
    → ((k : ℕ) (x : Proc) → c.seen k x ≡ exact k x)
    → get_elem? ps i ≡ some p
    → p.priority ≤ max_prio
    → yield_cpu timer c i ps ≡ ok qs
    → (n : ℕ)
    → (q : Proc) × (get_elem? (rounds n qs) i ≡ some q)
      × (q.priority ≡ (if ltb (n + 1) prom_time then max_prio else 0))
unfolding yield_cpu rounds_of
demotion_ends c i ps qs {p} alone e low done n =
    let q = yielding timer p in
    let table = modify i (yielding timer) ps in
    let qs_is : count_down c.seen 0 table ≡ qs = ground (arith, done) in
    let at_i : get_elem? (count_down c.seen 0 table) i
        ≡ some (promote (q.priority, q.promotion_timer) q) =
      get_elem?-count_down c.seen 0 table i (get_elem?-modify_self i (yielding timer) ps e)
      ∙ ap (λ x. some (promote x q)) (alone (0 + i) q) in
    (
      rounds_of n (promote (q.priority, q.promotion_timer) q),
      rw (← qs_is) (get_elem?-rounds n i _ at_i),
      ground (arith, rounds_of_low (suc n) q, rounds_of_up (suc n) q),
    )

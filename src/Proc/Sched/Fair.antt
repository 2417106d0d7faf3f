-- ===== src/Proc/Sched/Fair.antt =====
-- kernel/proc.c: no runnable process is passed over.
use tdt4186_lab.Base.{
  ℕ, zero, suc, ◌+◌, ◌≤◌, ◌<◌, ◌≡◌, ◌≢◌, ◌∙◌, sym, ap, refl, true, not, some, none, [], ◌∷◌, ◌==◌,
  ltb, has, get_elem?, length, arith, Bool-cases, inl, inr,
}
use tdt4186_lab.Proc.{Proc, Procs, ProcState, is_runnable, modify}
use tdt4186_lab.Proc.Table.{state_at}
use tdt4186_lab.Proc.Sched.{State, is_ready, is_high, dispatch, rr_from, rr_scheduler}

-- Nobody but this scheduler takes a process out of RUNNABLE: neither another process that runs, nor
-- what happens between the slots. So it is on a machine with one processor that schedules.
pub record Stable (run others : ℕ → State → State) : Type 0 where
  pub ready : (i j : ℕ) (s : State) → i ≢ j → is_ready j s ≡ true → is_ready j (run i s) ≡ true
  pub still_ready : (i j : ℕ) (s : State) → is_ready j s ≡ true → is_ready j (others i s) ≡ true

-- Nobody takes a process other than itself down from the high priority.
pub record Steady (run others : ℕ → State → State) : Type 0 where
  pub high : (i j : ℕ) (s : State) → i ≢ j → is_high j s ≡ true → is_high j (run i s) ≡ true
  pub still_high : (i j : ℕ) (s : State) → is_high j s ≡ true → is_high j (others i s) ≡ true

get_elem?-modify_ne :
    (i j : ℕ) (f : Proc → Proc) (ps : Procs) → i ≢ j → get_elem? (modify i f ps) j ≡ get_elem? ps j
unfolding modify
get_elem?-modify_ne i j f [] h = refl
get_elem?-modify_ne zero zero f (p ∷ ps) h = absurd (h refl)
get_elem?-modify_ne zero (suc j) f (p ∷ ps) h = refl
get_elem?-modify_ne (suc i) zero f (p ∷ ps) h = refl
get_elem?-modify_ne (suc i) (suc j) f (p ∷ ps) h = get_elem?-modify_ne i j f ps (λ e. h (ap suc e))

pub lt-length_of_ready : (ps : Procs) (j : ℕ) → is_runnable (state_at j ps) ≡ true → j < length ps
lt-length_of_ready [] j e = cc
lt-length_of_ready (p ∷ ps) zero e = omega arith
lt-length_of_ready (p ∷ ps) (suc j) e = omega (arith, lt-length_of_ready ps j e)

module _ {run others : ℕ → State → State} (steady : Steady run others) where
  pub dispatch_high :
      (i j : ℕ) (s : State) → i ≢ j → is_high j s ≡ true → is_high j (dispatch run i s) ≡ true
  unfolding dispatch
  dispatch_high i j s ne e = steady.high i j _ ne (
      ap (λ o. not (ltb 0 (elim o [ none ↦ 0 | some p ↦ p.priority ])))
        (get_elem?-modify_ne i j _ s.procs ne)
      ∙ e)

module _ {run others : ℕ → State → State} (stable : Stable run others) where
  pub dispatch_ready :
      (i j : ℕ) (s : State) → i ≢ j → is_ready j s ≡ true → is_ready j (dispatch run i s) ≡ true
  unfolding dispatch
  dispatch_ready i j s ne e = stable.ready i j _ ne (
      ap (λ o. is_runnable (elim o [ none ↦ ProcState.unused | some p ↦ p.state ]))
        (get_elem?-modify_ne i j _ s.procs ne)
      ∙ e)

  rr_from_fair :
      (left i j : ℕ) (s : State)
      → i ≤ j
      → j < i + left
      → is_ready j s ≡ true
      → has j (rr_from run others left i s).0 ≡ true
  unfolding rr_from
  rr_from_fair zero i j s lo hi e = absurd (omega arith)
  rr_from_fair (suc left) i j s lo hi e =
      let here = others i s in
      let ready_here : is_ready j here ≡ true = stable.still_ready i j s e in
      elim (Bool-cases (j == i)) [
        | inl same ↦
            let at_i : j ≡ i = ground arith in
            let now : is_ready i here ≡ true = ap (λ x. is_ready x here) (sym at_i) ∙ ready_here in
            rw now (ground (arith, same))
        | inr later ↦ elim (Bool-cases (is_ready i here)) [
          | inl go ↦
              let rest =
                rr_from_fair left (i + 1) j (dispatch run i here) (ground arith) (omega arith)
                  (dispatch_ready i j here (ground arith) ready_here) in
              rw go (ground (arith, later, rest))
          | inr wait ↦
              rw wait (rr_from_fair left (i + 1) j here (ground arith) (omega arith) ready_here)
        ]
      ]

  -- If nobody but this scheduler takes a process out of RUNNABLE, as on a machine with one processor:
  -- one pass of the round-robin scheduler runs every process that is runnable when the pass begins,
  -- whatever the processes do while they run, and whatever interrupts do between them.
  pub rr_scheduler_fair :
      (s : State) (j : ℕ) → is_ready j s ≡ true → has j (rr_scheduler run others s).0 ≡ true
  unfolding rr_scheduler
  rr_scheduler_fair s j e =
      rr_from_fair (length s.procs) 0 j s (omega arith)
        (omega (arith, lt-length_of_ready s.procs j e)) e

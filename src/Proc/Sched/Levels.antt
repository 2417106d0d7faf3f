-- ===== src/Proc/Sched/Levels.antt =====
-- kernel/proc.c: the two levels of `mlfq_scheduler`.
use tdt4186_lab.Base.{
  ℕ, zero, suc, ◌+◌, ◌≤◌, ◌<◌, ◌≡◌, ◌≢◌, ◌∙◌, sym, ap, refl, true, false, not, ◌&&◌, ◌||◌, some,
  ◌++◌, All, length, arith, Bool-cases, inl, inr, Option-cases,
}
use tdt4186_lab.Proc.Sched.{
  State, is_ready, is_high, dispatch, low_from, high_from, high_loop, Pass, is_mlfq,
}
use tdt4186_lab.Proc.Sched.Fair.{Stable, Steady, dispatch_ready, dispatch_high}

module _ {run others : ℕ → State → State} (stable : Stable run others)
    (steady : Steady run others) where
  -- The loop over the processes of low priority runs nothing from a runnable process of high
  -- priority on: it reaches that process only to break off.
  pub low_from_below :
      (left i j : ℕ) (s : State)
      → i ≤ j
      → is_ready j s ≡ true
      → is_high j s ≡ true
      → All (λ k. k < j) (low_from run others left i s).trace
  unfolding low_from
  low_from_below zero i j s lo e h = tt
  low_from_below (suc left) i j s lo e h =
      let u = others i s in
      let eu : is_ready j u ≡ true = stable.still_ready i j s e in
      let hu : is_high j u ≡ true = steady.still_high i j s h in
      elim (Bool-cases (is_ready i u)) [
        | inl ready ↦ elim (Bool-cases (is_high i u)) [
          | inl high ↦ rw (ready, high) tt
          | inr low ↦
              let t = dispatch run i u in
              let ne : i ≢ j =
                λ q. let same : is_high i u ≡ true = ap (λ x. is_high x u) q ∙ hu in cc in
              let below : i < j = omega (arith, ne) in
              let later =
                low_from_below left (i + 1) j t (omega arith) (dispatch_ready stable i j u ne eu)
                  (dispatch_high steady i j u ne hu) in
              elim (Bool-cases (is_mlfq t.pointer)) [
                | inl same ↦ rw (ready, low, same) (below, later)
                | inr changed ↦ rw (ready, low, changed) (below, tt)
              ]
        ]
        | inr wait ↦
            let ne : i ≢ j =
              λ q. let same : is_ready i u ≡ true = ap (λ x. is_ready x u) q ∙ eu in cc in
            rw wait (low_from_below left (i + 1) j u (omega (arith, ne)) eu hu)
      ]

-- What happens between the slots from `i` on, over `n` of them.
unfoldable pub drift : (others : ℕ → State → State) → (n i : ℕ) → State → State
drift others zero i s = s
drift others (suc n) i s = drift others n (i + 1) (others i s)

module _ (run others : ℕ → State → State) where
  -- A pass over the slots from `i` on in which none was runnable at high priority when its turn came.
  abbrev pub NoneReady : ℕ → ℕ → State → Type 0
  NoneReady left i s =
      (j : ℕ)
      → j < left
      → (is_high (i + j) (drift others (suc j) i s) && is_ready (i + j) (drift others (suc j) i s))
        ≡ false

  idle_first :
      (left i : ℕ) (s : State)
      → (is_high i (others i s) && is_ready i (others i s)) ≡ false
      → NoneReady left (i + 1) (others i s)
      → NoneReady (suc left) i s
  unfolding drift
  idle_first left i s idle rest zero h = let at : i + 0 ≡ i = omega arith in rw at idle
  idle_first left i s idle rest (suc j) h =
      let at : i + suc j ≡ i + 1 + j = omega arith in rw at (rest j (omega (arith, h)))

  high_from_quiet :
      (left i : ℕ) (s : State)
      → (high_from run others left i s).stopped ≡ false
      → (high_from run others left i s).high_avail ≡ false
      → ((high_from run others left i s).state ≡ drift others left i s) × NoneReady left i s
  unfolding high_from drift
  high_from_quiet zero i s a b = (refl, λ j hi. absurd (omega arith))
  high_from_quiet (suc left) i s a b =
      let u = others i s in
      elim (Bool-cases (not (is_high i u) || not (is_ready i u))) [
        | inl idle ↦
            let (same, rest) = high_from_quiet left (i + 1) u (rw idle at a) (rw idle at b) in
            (rw idle same, idle_first left i s (ground (arith, idle)) rest)
        | inr busy ↦ elim (Bool-cases (is_mlfq (dispatch run i u).pointer)) [
          | inl same ↦ ground (arith, busy, same, a, b)
          | inr changed ↦ ground (arith, busy, changed, a, b)
        ]
      ]

  -- The last round of the do-while: from `start` on nothing runs, and only others change the table.
  pub record LastRound (last : State) : Type 0 where
    pub start : State
    pub ends : last ≡ drift others (length start.procs) 0 start
    pub none_ready : NoneReady (length start.procs) 0 start

  -- When the do-while of `mlfq_scheduler` ends, and not because the scheduler was changed: in its last
  -- round no slot of the table held a process that was runnable at high priority at the moment at
  -- which its turn came, and nothing was run in that round, so that the table is left as interrupts
  -- and the other processors have changed it in the meantime.
  pub high_loop_quiet :
      (rounds : ℕ) (s : State) {p : Pass}
      → high_loop run others rounds s ≡ some p
      → p.stopped ≡ false
      → LastRound p.state
  unfolding high_loop
  high_loop_quiet zero s e stop = cc
  high_loop_quiet (suc rounds) s {p} e stop =
      let q = high_from run others (length s.procs) 0 s in
      elim (Bool-cases q.stopped) [
        | inl halted ↦ ground (arith, halted, e, stop)
        | inr on ↦ elim (Bool-cases q.high_avail) [
          | inl more ↦ elim (Option-cases (high_loop run others rounds q.state)) [
            | inl out_of_rounds ↦ ground (arith, on, more, out_of_rounds, e)
            | inr (r, found) ↦
                let ends : p ≡ record r { trace = q.trace ++ r.trace } =
                  ground (arith, on, more, found, e) in
                let running : r.stopped ≡ false = ap (λ x. x.stopped) (sym ends) ∙ stop in
                rw ends (high_loop_quiet rounds q.state found running)
          ]
          | inr none_high ↦
              let is : p ≡ q = ground (arith, on, none_high, e) in
              let (same, quiet) = high_from_quiet (length s.procs) 0 s on none_high in
              record { start = s; ends = ap (λ x. x.state) is ∙ same; none_ready = quiet }
        ]
      ]

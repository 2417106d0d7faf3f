-- ===== src/Proc/Table/Wakeup.antt =====
-- kernel/proc.c: whom `wakeup` wakes, and that a sleeper is not missed.
use tdt4186_lab.Base.{
  ℕ, zero, suc, ◌+◌, ◌≡◌, ◌≢◌, ◌∙◌, ◌⊎◌, inl, inr, refl, ap, true, false, ◌&&◌, not, some, [], ◌∷◌,
  arith, ◌==◌, if◌then◌else◌, get_elem?, ok, Bool-cases,
}
use tdt4186_lab.Proc.{
  Proc, ProcState, sleeping, runnable, Chan, nowhere, at_proc, at_object, chan_eq, Procs,
  is_sleeping, modify,
}
use tdt4186_lab.Proc.Table.{
  wake, wakeup_from, wakeup, promote, count_down, Cpu, state_at, fall_asleep,
}

chan_eq→eq : (a b : Chan) → chan_eq a b ≡ true → a ≡ b
chan_eq→eq nowhere nowhere e = refl
chan_eq→eq nowhere (at_proc j) e = cc
chan_eq→eq nowhere (at_object j) e = cc
chan_eq→eq (at_proc i) nowhere e = cc
chan_eq→eq (at_proc i) (at_proc j) e = ground arith
chan_eq→eq (at_proc i) (at_object j) e = cc
chan_eq→eq (at_object i) nowhere e = cc
chan_eq→eq (at_object i) (at_proc j) e = cc
chan_eq→eq (at_object i) (at_object j) e = ground arith

pub chan_eq_refl : (a : Chan) → chan_eq a a ≡ true
chan_eq_refl nowhere = refl
chan_eq_refl (at_proc i) = ground arith
chan_eq_refl (at_object i) = ground arith

is_sleeping→eq : (s : ProcState) → is_sleeping s ≡ true → s ≡ sleeping
is_sleeping→eq s e = ground arith

-- Process `i` sleeps on `chan`, and is not `me`.
pub record Sleeper (me : ℕ) (chan : Chan) (i : ℕ) (p : Proc) : Type 0 where
  pub other : i ≢ me
  pub asleep : p.state ≡ sleeping
  pub on : p.chan ≡ chan

-- The process before and after the call.
abbrev pub WakeEnds : ℕ → Chan → ℕ → Proc → Proc → Type 0
WakeEnds me chan i p q =
    (Sleeper me chan i p × (q ≡ wake p)) ⊎ ((Sleeper me chan i p → ⊥) × (q ≡ p))

wake_one :
    (me : ℕ) (chan : Chan) (i : ℕ) (p : Proc)
    → WakeEnds me chan i p
        (if not (i == me) && (is_sleeping p.state && chan_eq p.chan chan) then wake p else p)
wake_one me chan i p =
    elim (Bool-cases (not (i == me) && (is_sleeping p.state && chan_eq p.chan chan))) [
      | inl e ↦ rw e (
          inl (
            record {
              other = ground arith;
              asleep = is_sleeping→eq p.state (ground arith);
              on = chan_eq→eq p.chan chan (ground arith);
            },
            refl,
          ))
      | inr e ↦ rw e (inr (not_both e, refl))
    ]
  where
    not_both :
        (not (i == me) && (is_sleeping p.state && chan_eq p.chan chan)) ≡ false
        → Sleeper me chan i p
        → ⊥
    not_both e s =
        let asleep : is_sleeping p.state ≡ true = ap is_sleeping s.asleep in
        let on : chan_eq p.chan chan ≡ true = ap (λ c. chan_eq c chan) s.on ∙ chan_eq_refl chan in
        let other = s.other in ground arith

wakeup_from_exact :
    (me i : ℕ) (chan : Chan) (ps : Procs) (k j : ℕ) {p : Proc}
    → j ≡ i + k
    → get_elem? ps k ≡ some p
    → (q : Proc) × (get_elem? (wakeup_from me i chan ps) k ≡ some q) × WakeEnds me chan j p q
unfolding wakeup_from
wakeup_from_exact me i chan [] k j n e = cc
wakeup_from_exact me i chan (p ∷ ps) zero j {p = p'} n e =
    let m : j ≡ i = omega arith in
    let w : p ≡ p' = cc in rw (m, ← w) (_, refl, wake_one me chan i p)
wakeup_from_exact me i chan (p ∷ ps) (suc k) j n e =
    wakeup_from_exact me (i + 1) chan ps k j (omega arith) e

-- `wakeup(chan)` makes every process runnable that sleeps on `chan`, the caller excepted, and
-- changes no other process and nothing else of those that it wakes.
pub wakeup_exact :
    (me : ℕ) (chan : Chan) (ps : Procs) (i : ℕ) {p : Proc}
    → get_elem? ps i ≡ some p
    → (q : Proc) × (get_elem? (wakeup me chan ps) i ≡ some q) × WakeEnds me chan i p q
unfolding wakeup
wakeup_exact me chan ps i e = wakeup_from_exact me 0 chan ps i i (omega arith) e

pub get_elem?-count_down :
    (seen : ℕ → Proc → ℕ × ℕ) (k : ℕ) (ps : Procs) (i : ℕ) {p : Proc}
    → get_elem? ps i ≡ some p
    → get_elem? (count_down seen k ps) i ≡ some (promote (seen (k + i) p) p)
unfolding count_down
get_elem?-count_down seen k [] i e = cc
get_elem?-count_down seen k (x ∷ ps) zero {p} e =
    let same : x ≡ p = cc in let at : k + 0 ≡ k = omega arith in rw (at, same) refl
get_elem?-count_down seen k (x ∷ ps) (suc i) e =
    let at : k + suc i ≡ k + 1 + i = omega arith in rw at (get_elem?-count_down seen (k + 1) ps i e)

pub get_elem?-modify_self :
    (i : ℕ) (f : Proc → Proc) (ps : Procs) {p : Proc}
    → get_elem? ps i ≡ some p
    → get_elem? (modify i f ps) i ≡ some (f p)
unfolding modify
get_elem?-modify_self i f [] e = cc
get_elem?-modify_self zero f (x ∷ ps) e = cc
get_elem?-modify_self (suc i) f (x ∷ ps) e = get_elem?-modify_self i f ps e

state_at_of : (i : ℕ) (ps : Procs) {p : Proc} → get_elem? ps i ≡ some p → state_at i ps ≡ p.state
state_at_of i ps e = ground (arith, e)

promote_keeps :
    (x : ℕ × ℕ) (p : Proc) → ((promote x p).state ≡ p.state) × ((promote x p).chan ≡ p.chan)
unfolding promote
promote_keeps (a, b) p = ground arith

-- If the `sleep` of a process on a channel has gone as far as its `swtch`, a `wakeup` on the same
-- channel, which another process calls after that, makes it runnable, whatever the other processors
-- count in between.
pub sleeper_is_woken :
    (c : Cpu) (chan : Chan) (i me : ℕ) (ps qs : Procs) {p : Proc}
    → get_elem? ps i ≡ some p
    → fall_asleep chan c i ps ≡ ok qs
    → i ≢ me
    → state_at i (wakeup me chan qs) ≡ runnable
unfolding fall_asleep
sleeper_is_woken c chan i me ps qs {p} e ok_qs ne =
    let q : Proc = record p { chan = chan; state = sleeping } in
    let slept = modify i (λ r. record r { chan = chan; state = sleeping }) ps in
    let at_i = get_elem?-count_down c.seen 0 slept i (get_elem?-modify_self i _ ps e) in
    let qs_is : count_down c.seen 0 slept ≡ qs = ground (arith, ok_qs) in
    let (r, there, ends) = wakeup_exact me chan (count_down c.seen 0 slept) i at_i in
    let keeps = promote_keeps (c.seen (0 + i) q) q in
    rw (← qs_is) (
      state_at_of i _ there ∙ elim ends [
        | inl (s, woken) ↦ ap (λ x. x.state) woken
        | inr (none_woken, same) ↦
            absurd (none_woken (record { other = ne; asleep = keeps.0; on = keeps.1 }))
      ])

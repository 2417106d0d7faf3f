-- ===== src/Log/Ops/Space.antt =====
-- kernel/log.c: the log space that `begin_op` reserves is there when `log_write` needs it.
use tdt4186_lab.Base.{
  ℕ, zero, suc, ◌+◌, ◌-◌, ◌*◌, ◌≤◌, ◌≡◌, ap, refl, true, false, ◌||◌, none, some, List, [], ◌∷◌,
  arith, ◌==◌, length, has, get_elem?, remove, set, All, Distinct, length-set, Option-cases, inl,
  inr, Bool-cases, ok, ◌<◌,
}
use tdt4186_lab.Log.{
  Machine, Run, done, crash, log_size, max_op_blocks, commit, commit_blocks, commit_if,
  clear_header, write_log, write_head, install_trans,
}
use tdt4186_lab.Log.Ends.{Ensures, returns, fails, bind, mono}
use tdt4186_lab.Log.Commit.{write_head-HeadWritten}
use tdt4186_lab.Log.Ops.{
  LogState, System, Event, begin, write, end, committed, begin_op, absorb, record_block, log_write,
  finish_commit, added, write_by, end_by, step, run, idle,
}

-- The blocks that the calls in progress may still add.
abbrev pub reserve : List ℕ → ℕ
reserve [] = 0
reserve (u ∷ us) = (max_op_blocks - u) + reserve us

abbrev IsUse : ℕ → Type 0
IsUse u = u ≤ max_op_blocks

has-absorb : (a b : ℕ) (l : List ℕ) → has a (absorb l b) ≡ ((a == b) || has a l)
unfolding absorb
has-absorb a b [] = refl
has-absorb a b (x ∷ l) = ground (arith, has-absorb a b l)

length-absorb : (l : List ℕ) (b : ℕ) → length (absorb l b) ≡ length l + added l b
unfolding absorb
length-absorb [] b = omega arith
length-absorb (x ∷ l) b = ground (arith, length-absorb l b)

Distinct-absorb : (l : List ℕ) (b : ℕ) → Distinct l → Distinct (absorb l b)
unfolding absorb
Distinct-absorb [] b d = (refl, tt)
Distinct-absorb (x ∷ l) b d = ground (arith, has-absorb x b l, Distinct-absorb l b d.1)

reserve-le : (us : List ℕ) → reserve us ≤ length us * max_op_blocks
reserve-le [] = omega arith
reserve-le (u ∷ us) = omega (arith, reserve-le us)

reserve-set :
    (us : List ℕ) (i k : ℕ) {u : ℕ}
    → get_elem? us i ≡ some u
    → u + k ≤ max_op_blocks
    → reserve (set us i (u + k)) + k ≡ reserve us
reserve-set [] i k e h = cc
reserve-set (v ∷ us) zero k {u} e h = ground arith
reserve-set (v ∷ us) (suc i) k e h = omega (arith, reserve-set us i k e h)

reserve_at :
    (us : List ℕ) (i : ℕ) {u : ℕ} → get_elem? us i ≡ some u → max_op_blocks - u ≤ reserve us
reserve_at [] i e = cc
reserve_at (v ∷ us) zero e = ground arith
reserve_at (v ∷ us) (suc i) e = omega (arith, reserve_at us i e)

lt-length_at : (us : List ℕ) (i : ℕ) {u : ℕ} → get_elem? us i ≡ some u → i < length us
lt-length_at [] i e = cc
lt-length_at (v ∷ us) zero e = omega arith
lt-length_at (v ∷ us) (suc i) e = omega (arith, lt-length_at us i e)

All-set : (us : List ℕ) (i v : ℕ) → All IsUse us → IsUse v → All IsUse (set us i v)
All-set [] i v a h = tt
All-set (u ∷ us) zero v a h = (h, a.1)
All-set (u ∷ us) (suc i) v a h = (a.0, All-set us i v a.1 h)

record Removed (us : List ℕ) (i : ℕ) : Type 0 where
  shorter : length (remove us i) + 1 ≡ length us
  reserved : reserve (remove us i) ≤ reserve us
  uses : All IsUse us → All IsUse (remove us i)

remove-Removed : (us : List ℕ) (i : ℕ) {u : ℕ} → get_elem? us i ≡ some u → Removed us i
remove-Removed [] i e = cc
remove-Removed (v ∷ us) zero e = record {
  shorter = omega arith;
  reserved = omega arith;
  uses = λ a. a.1;
}
remove-Removed (v ∷ us) (suc i) e =
    let r = remove-Removed us i e in
    record {
      shorter = omega (arith, r.shorter);
      reserved = omega (arith, r.reserved);
      uses = λ a. (a.0, r.uses a.1);
    }

pub record Inv (s : System) : Type 0 where
  pub counted : s.log.outstanding ≡ length s.ops
  pub quiet : s.log.committing ≡ true → length s.ops ≡ 0
  pub uses : All IsUse s.ops
  pub room : length s.log.machine.lh + reserve s.ops ≤ log_size
  pub distinct : Distinct s.log.machine.lh

module _ (start : ℕ) where
  any_run : (r : Run) → Ensures (λ _. Unit {0}) (λ _. Unit {0}) r
  any_run (done s) = returns tt
  any_run (crash d) = fails tt

  commit_blocks_clears :
      (s : Machine) → Ensures (λ t. t.lh ≡ []) (λ _. Unit {0}) (commit_blocks start s)
  unfolding commit_blocks
  commit_blocks_clears s = bind (any_run (write_log start s)) λ t _.
      bind (any_run (write_head start t)) λ u _.
        bind (any_run (install_trans start false u))
          λ v _. mono (write_head-HeadWritten start 0 (clear_header v)) (λ w h. h.lh) (λ d _. tt)

  commit_clears : (s : Machine) → Ensures (λ t. t.lh ≡ []) (λ _. Unit {0}) (commit start s)
  unfolding commit commit_if
  commit_clears s = go s.lh s refl
    where
      go :
          (l : List ℕ) (s : Machine)
          → s.lh ≡ l
          → Ensures (λ t. t.lh ≡ []) (λ _. Unit {0}) (commit_if start l s)
      go [] s e = returns e
      go (x ∷ xs) s e = commit_blocks_clears s

  finish-Inv :
      {s : System} {l : LogState}
      → Inv s
      → finish_commit start s.log ≡ some l
      → s.log.committing ≡ true
      → Inv (record s { log = l })
  unfolding finish_commit
  finish-Inv {s} {l} inv e c = go (commit start s.log.machine) (commit_clears s.log.machine) e
    where
      go :
          (r : Run)
          → Ensures (λ t. t.lh ≡ []) (λ _. Unit {0}) r
          → elim r [
            | done t ↦ some (record (s.log) { machine = t; committing = false })
            | crash d ↦ none
          ]
            ≡ some l
          → Inv (record s { log = l })
      go (done t) (returns h) q = ground (arith, inv.uses, inv.quiet c, ap length h)
      go (crash d) h q = cc

module _ (start size : ℕ) where
  begin-Inv :
      {s : System}
      → Inv s
      → {l : LogState} → begin_op s.log ≡ some l
      → Inv (record { log = l; ops = 0 ∷ s.ops })
  unfolding begin_op
  begin-Inv {s} inv e = ground (arith, reserve-le s.ops)

  write-Inv :
      (op u b : ℕ) {s t : System}
      → Inv s
      → get_elem? s.ops op ≡ some u
      → write_by start size op u b s ≡ some t
      → Inv t
  unfolding write_by
  write-Inv op u b {s} inv g e =
      let k = added s.log.machine.lh b in
      ground (
        arith,
        length-absorb s.log.machine.lh b,
        Distinct-absorb s.log.machine.lh b inv.distinct,
        length-set s.ops op (u + k),
        reserve-set s.ops op k g,
        All-set s.ops op (u + k) inv.uses,
      )

  end-Inv :
      (op u : ℕ) {s t : System}
      → Inv s
      → get_elem? s.ops op ≡ some u
      → end_by start size op s ≡ some t
      → Inv t
  unfolding end_by
  end-Inv op u {s} inv g e =
      let r = remove-Removed s.ops op g in ground (arith, r.shorter, r.reserved, r.uses inv.uses)

  step-Inv : (e : Event) {s t : System} → Inv s → step start size e s ≡ some t → Inv t
  unfolding step
  step-Inv begin {s} inv e = elim (Option-cases (begin_op s.log)) [
    | inl n ↦ ground (arith, n)
    | inr (l, q) ↦ let i = begin-Inv inv q in let m = rw (q) at e in ground (arith, i, m)
  ]
  step-Inv (write op b) {s} inv e = elim (Option-cases (get_elem? s.ops op)) [
    | inl n ↦ ground (arith, n)
    | inr (u, q) ↦ write-Inv op u b inv q (rw (q, step) at e)
  ]
  step-Inv (end op) {s} inv e = elim (Option-cases (get_elem? s.ops op)) [
    | inl n ↦ ground (arith, n)
    | inr (u, q) ↦ end-Inv op u inv q (rw (q, step) at e)
  ]
  step-Inv committed {s} inv e = elim (Bool-cases s.log.committing) [
    | inl c ↦ elim (Option-cases (finish_commit start s.log)) [
      | inl n ↦ ground (arith, n, c)
      | inr (l, q) ↦ ground (arith, q, c, finish-Inv start inv q c)
    ]
    | inr c ↦ ground (arith, c)
  ]

  run-Inv : (es : List Event) {s t : System} → Inv s → run start size es s ≡ some t → Inv t
  unfolding run
  run-Inv [] {s} {t} inv e = let p : s ≡ t = cc in rw p at inv
  run-Inv (x ∷ es) {s} inv e = elim (Option-cases (step start size x s)) [
    | inl n ↦ ground (arith, n)
    | inr (u, q) ↦ run-Inv es (step-Inv x inv q) (rw (q, run) at e)
  ]

  idle-Inv : (m : Machine) → m.lh ≡ [] → Inv (idle m)
  idle-Inv m e = record {
    counted = refl;
    quiet = λ c. refl;
    uses = tt;
    room = omega (arith, ap length e);
    distinct = rw e tt;
  }

  -- However the calls interleave: while a call has added fewer than `MAXOPBLOCKS` blocks to the
  -- log, `log_write` on any block succeeds for it, and the log holds at most `LOGSIZE` distinct
  -- blocks afterwards; provided that the log on disk has room for `LOGSIZE` blocks and a header.
  pub log_write-has_room :
      (es : List Event) (m : Machine) (s : System) (op u b : ℕ)
      → log_size < size
      → m.lh ≡ []
      → run start size es (idle m) ≡ some s
      → get_elem? s.ops op ≡ some u
      → u < max_op_blocks
      → (l : LogState) × (log_write size b s.log ≡ ok l)
        × (length l.machine.lh ≤ log_size)
        × Distinct l.machine.lh
        × (has b l.machine.lh ≡ true)
  unfolding log_write
  log_write-has_room es m s op u b big fresh e g h =
      let inv = run-Inv es (idle-Inv m fresh) e in
      let lh = s.log.machine.lh in
      let free = reserve_at s.ops op g in
      let others = lt-length_at s.ops op g in
      (
        record_block b s.log,
        ground (arith, inv.room, inv.counted),
        ground (arith, inv.room, length-absorb lh b),
        ground (arith, Distinct-absorb lh b inv.distinct),
        ground (arith, has-absorb b b lh),
      )

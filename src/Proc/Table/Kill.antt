-- ===== src/Proc/Table/Kill.antt =====
-- kernel/proc.c: which process `kill` marks.
use tdt4186_lab.Base.{
  ℕ, zero, suc, ◌<◌, ◌≡◌, ◌≢◌, inl, inr, refl, ap, Option, some, none, [], ◌∷◌, arith, ◌==◌,
  get_elem?, Bool-cases,
}
use tdt4186_lab.Proc.{Proc, Procs}
use tdt4186_lab.Proc.Table.{kill, victim}

-- `kill` found the process `p` at `i`, the first one with this pid, and changed only it.
pub record Killed (pid : ℕ) (ps qs : Procs) : Type 0 where
  pub index : ℕ
  pub proc : Proc
  pub found : get_elem? ps index ≡ some proc
  pub matches : proc.pid ≡ pid
  pub first : (j : ℕ) (p : Proc) → j < index → get_elem? ps j ≡ some p → p.pid ≢ pid
  pub marked : get_elem? qs index ≡ some (victim proc)
  pub others : (j : ℕ) → j ≢ index → get_elem? qs j ≡ get_elem? ps j

abbrev pub KillEnds : ℕ → Procs → Option Procs → Type 0
KillEnds pid ps none = (j : ℕ) (p : Proc) → get_elem? ps j ≡ some p → p.pid ≢ pid
KillEnds pid ps (some qs) = Killed pid ps qs

abbrev cons_some : Proc → Option Procs → Option Procs
cons_some p o = elim o [ none ↦ none | some qs ↦ some (p ∷ qs) ]

kill_past :
    (pid : ℕ) (p : Proc) (ps : Procs) (o : Option Procs)
    → p.pid ≢ pid
    → KillEnds pid ps o
    → KillEnds pid (p ∷ ps) (cons_some p o)
kill_past pid p ps none ne k = none_here
  where
    none_here : (j : ℕ) (q : Proc) → get_elem? (p ∷ ps) j ≡ some q → q.pid ≢ pid
    none_here zero q e = let w : p ≡ q = cc in rw w at ne
    none_here (suc j) q e = k j q e
kill_past pid p ps (some qs) ne k = record {
  index = suc k.index;
  proc = k.proc;
  found = k.found;
  matches = k.matches;
  first = first;
  marked = k.marked;
  others = others;
}
  where
    first : (j : ℕ) (q : Proc) → j < suc k.index → get_elem? (p ∷ ps) j ≡ some q → q.pid ≢ pid
    first zero q h e = let w : p ≡ q = cc in rw w at ne
    first (suc j) q h e = k.first j q (omega arith) e

    others : (j : ℕ) → j ≢ suc k.index → get_elem? (p ∷ qs) j ≡ get_elem? (p ∷ ps) j
    others zero h = refl
    others (suc j) h = k.others j (λ e. h (ap suc e))

-- `kill(pid)` returns -1 exactly where no slot of the table has that pid. Else it marks the first
-- slot that has it as killed, wakes it if it sleeps, and changes no other slot.
pub kill_ends : (pid : ℕ) (ps : Procs) → KillEnds pid ps (kill pid ps)
unfolding kill
kill_ends pid [] = λ j p e. cc
kill_ends pid (p ∷ ps) = elim (Bool-cases (p.pid == pid)) [
  | inl same ↦ rw same (record {
    index = 0;
    proc = p;
    found = refl;
    matches = ground arith;
    first = λ j q h e. absurd (omega arith);
    marked = refl;
    others = others;
  })
  | inr differs ↦ rw differs (kill_past pid p ps (kill pid ps) (ground arith) (kill_ends pid ps))
]
  where
    others : (j : ℕ) → j ≢ 0 → get_elem? (victim p ∷ ps) j ≡ get_elem? (p ∷ ps) j
    others zero h = absurd (h refl)
    others (suc j) h = refl

-- ===== src/Pipe.antt =====
-- kernel/pipe.c: a pipe as a ring of 512 bytes with 32-bit counters.
--
-- Each function holds `pi->lock` except while it sleeps, so its run up to the next `sleep`, or to
-- its return, is one step. `copyin` and `copyout` of one byte are arguments: what they deliver at
-- `addr + i`, and whether they succeed there. A negative `n` behaves as 0, as in the loops.
pub mod Contents
pub mod Transfer
pub mod Stream
mod Tests
use tdt4186_lab.Base.{
  ℕ, zero, suc, ◌+◌, ◌-◌, ◌%◌, ◌^◌, ◌≡◌, Bool, true, false, ◌&&◌, ◌||◌, not, Option, none, some,
  List, [], ◌∷◌, ◌==◌, if◌then◌else◌, update,
}

abbrev pub pipe_size : ℕ
pipe_size = 512

abbrev pub uint_mod : ℕ
uint_mod = 2 ^ 32

-- `ring` is the field `data`; it is read at indices below `PIPESIZE` only.
pub record Pipe : Type 0 where
  pub ring : ℕ → ℕ
  pub nread : ℕ
  pub nwrite : ℕ
  pub readopen : Bool
  pub writeopen : Bool

-- The state that `pipealloc` sets up; a page from `kalloc` holds junk.
pub fresh_pipe : (ℕ → ℕ) → Pipe
fresh_pipe junk = record { ring = junk; nread = 0; nwrite = 0; readopen = true; writeopen = true }

-- How a run of `pipewrite` ends. It sleeps on `&pi->nwrite` with `left` bytes to go, behind a
-- `wakeup(&pi->nread)`; or returns how many bytes it wrote, behind a `wakeup(&pi->nread)`; or
-- returns -1, with the bytes before `i` in the pipe.
pub data Wrote : Type 0 where
  sleeps : (left i : ℕ) → Pipe → Wrote
  returns : (i : ℕ) → Pipe → Wrote
  fails : (i : ℕ) → Pipe → Wrote

-- `pi->data[pi->nwrite++ % PIPESIZE] = ch`
pub put : ℕ → Pipe → Pipe
put ch p = record p {
  ring = update p.ring (p.nwrite % pipe_size) ch;
  nwrite = (p.nwrite + 1) % uint_mod;
}

abbrev pub is_full : Pipe → Bool
is_full p = p.nwrite == (p.nread + pipe_size) % uint_mod

abbrev pub is_empty : Pipe → Bool
is_empty p = p.nread == p.nwrite

-- The loop of `pipewrite` from `i` on, with `n - i` = `left`. `killed i` is what `killed(pr)` says in
-- the round for byte `i`: `kill` does not wait for `pi->lock`.
pub pipewrite : (killed : ℕ → Bool) → (ℕ → Option ℕ) → (left i : ℕ) → Pipe → Wrote
unfolding put
pipewrite killed copyin zero i p = returns i p
pipewrite killed copyin (suc left) i p =
    if not p.readopen || killed i
    then fails i p
    else if is_full p
    then sleeps (suc left) i p
    else elim (copyin i) [
      | none ↦ returns i p
      | some ch ↦ pipewrite killed copyin left (i + 1) (put ch p)
    ]

-- How a run of `piperead` ends: asleep on `&pi->nread`; with the bytes that it copied out, behind
-- a `wakeup(&pi->nwrite)`; or with -1.
pub data Read : Type 0 where
  sleeps : Pipe → Read
  returns : (bytes : List ℕ) → Pipe → Read
  fails : Pipe → Read

-- `ch = pi->data[pi->nread++ % PIPESIZE]`
pub take_byte : Pipe → ℕ × Pipe
take_byte p = (p.ring (p.nread % pipe_size), record p { nread = (p.nread + 1) % uint_mod })

abbrev pub prepend : ℕ → List ℕ × Pipe → List ℕ × Pipe
prepend ch (bytes, p) = (ch ∷ bytes, p)

-- The second loop of `piperead` from `i` on. A byte that `copyout` refuses has left the pipe.
pub read_loop : (ℕ → Bool) → (left i : ℕ) → Pipe → List ℕ × Pipe
unfolding take_byte
read_loop copyout zero i p = ([], p)
read_loop copyout (suc left) i p =
    let (ch, q) = take_byte p in
    let rest = prepend ch (read_loop copyout left (i + 1) q) in
    if is_empty p then ([], p) else if copyout i then rest else ([], q)

pub piperead : (killed : Bool) → (ℕ → Bool) → (n : ℕ) → Pipe → Read
unfolding read_loop
piperead killed copyout n p =
    if is_empty p && p.writeopen
    then (if killed then fails p else sleeps p)
    else let (bytes, q) = read_loop copyout n 0 p in returns bytes q

-- `pipeclose`: the pipe, whether its page goes back to `kfree`. It wakes the readers when the write
-- end closes, and the writers when the read end does.
pub pipeclose : (writable : Bool) → Pipe → Pipe × Bool
pipeclose writable p =
    let q : Pipe =
      if writable then record p { writeopen = false } else record p { readopen = false } in
    (q, not q.readopen && not q.writeopen)

-- ===== src/Pipe/Stream.antt =====
-- kernel/pipe.c: writers and readers in any order see one stream of bytes.
use mathlib.Core.List.{append_assoc, append-nil}
use tdt4186_lab.Base.{
  ℕ, zero, suc, ◌+◌, ◌-◌, ◌≡◌, ◌∙◌, inl, inr, refl, sym, ap, ap₂, Bool, true, false, none, some,
  List, [], ◌∷◌, ◌++◌, arith, length, get_elem?,
}
use tdt4186_lab.Pipe.{Pipe, Wrote, Read, pipewrite, piperead, pipeclose, fresh_pipe}
use tdt4186_lab.Pipe.Contents.{contents, IsPipe}
use tdt4186_lab.Pipe.Transfer.{Copied, WriteEnds, pipewrite_ends, Taken, ReadEnds, piperead_ends}

-- A run of `pipewrite` from byte `i` of a buffer on, or of `piperead`, up to its next `sleep` or
-- its return, by a process that is killed or not, for
-- a write in each round; or a close of one end that leaves the other open.
pub data Event : Type 0 where
  write : (killed : ℕ → Bool) (buffer : List ℕ) (left i : ℕ) → Event
  read : (killed : Bool) (n : ℕ) → Event
  close : (writable : Bool) → Event

-- The pipe, and the bytes that went in and that came out so far.
pub record Traffic : Type 0 where
  pub pipe : Pipe
  pub sent : List ℕ
  pub received : List ℕ

-- The bytes of `buffer` from `i` up to `j`.
unfoldable pub slice : List ℕ → (i n : ℕ) → List ℕ
slice buffer i zero = []
slice buffer i (suc n) = elim (get_elem? buffer i) [
  | none ↦ []
  | some b ↦ b ∷ slice buffer (i + 1) n
]

after_write : List ℕ → ℕ → Traffic → Wrote → Traffic
unfolding slice
after_write buffer i t (Wrote.sleeps l j q) = record t {
  pipe = q;
  sent = t.sent ++ slice buffer i (j - i);
}
after_write buffer i t (Wrote.returns j q) = record t {
  pipe = q;
  sent = t.sent ++ slice buffer i (j - i);
}
after_write buffer i t (Wrote.fails j q) = record t {
  pipe = q;
  sent = t.sent ++ slice buffer i (j - i);
}

after_read : Traffic → Read → Traffic
after_read t (Read.sleeps q) = record t { pipe = q }
after_read t (Read.returns bytes q) = record t { pipe = q; received = t.received ++ bytes }
after_read t (Read.fails q) = record t { pipe = q }

pub step : Event → Traffic → Traffic
unfolding after_write after_read pipewrite piperead pipeclose
step (write killed buffer left i) t =
    after_write buffer i t (pipewrite killed (get_elem? buffer) left i t.pipe)
step (read killed n) t = after_read t (piperead killed (λ _. true) n t.pipe)
step (close writable) t = record t { pipe = (pipeclose writable t.pipe).0 }

unfoldable pub run : List Event → Traffic → Traffic
unfolding step
run [] t = t
run (e ∷ es) t = run es (step e t)

abbrev pub opened : (ℕ → ℕ) → Traffic
opened junk = record { pipe = fresh_pipe junk; sent = []; received = [] }

pub record InOrder (t : Traffic) : Type 0 where
  pub stream : t.sent ≡ t.received ++ contents t.pipe
  pub valid : IsPipe t.pipe

Copied-slice :
    (buffer bs : List ℕ) (i j : ℕ)
    → Copied (get_elem? buffer) i bs j
    → (i + length bs ≡ j) × (slice buffer i (length bs) ≡ bs)
unfolding slice
Copied-slice buffer [] i j c = (omega arith, refl)
Copied-slice buffer (b ∷ bs) i j (e, c) =
    let (n, s) = Copied-slice buffer bs (i + 1) j c in (omega arith, ground (arith, e, s))

step-InOrder : (e : Event) (t : Traffic) → InOrder t → InOrder (step e t)
unfolding step
step-InOrder (write killed buffer left i) t o =
    go _ (pipewrite_ends killed (get_elem? buffer) left i t.pipe o.valid)
  where
    grown :
        (j : ℕ) (q : Pipe) (bs : List ℕ)
        → Copied (get_elem? buffer) i bs j
        → contents q ≡ contents t.pipe ++ bs
        → t.sent ++ slice buffer i (j - i) ≡ t.received ++ contents q
    grown j q bs c e =
        let (n, s) = Copied-slice buffer bs i j c in
        let len : j - i ≡ length bs = omega arith in
        ap₂ ◌++◌ o.stream (ap (slice buffer i) len ∙ s)
        ∙ append_assoc t.received (contents t.pipe) bs
        ∙ ap (λ l. t.received ++ l) (sym e)

    go :
        (r : Wrote)
        → WriteEnds killed (get_elem? buffer) left i t.pipe r
        → InOrder (after_write buffer i t r)
    go (Wrote.sleeps l j q) ((bs, c, e, v), _, _, _, _) = record {
      stream = grown j q bs c e;
      valid = v;
    }
    go (Wrote.returns j q) ((bs, c, e, v), _) = record { stream = grown j q bs c e; valid = v }
    go (Wrote.fails j q) ((bs, c, e, v), _, _, _) = record { stream = grown j q bs c e; valid = v }
step-InOrder (read killed n) t o = go _ (piperead_ends killed (λ _. true) n t.pipe o.valid)
  where
    none_lost :
        (bs : List ℕ) (q : Pipe) → (k : Taken (λ _. true) n 0 t.pipe (bs, q)) → bs ++ k.lost ≡ bs
    none_lost bs q k = elim k.stopped [
      | inl (_, e) ↦ rw e (append-nil bs)
      | inr (inl (_, _, e)) ↦ rw e (append-nil bs)
      | inr (inr (_, bad, _)) ↦ cc
    ]

    go : (r : Read) → ReadEnds killed (λ _. true) n t.pipe r → InOrder (after_read t r)
    go (Read.sleeps q) (same, _, _, _) = record {
      stream = rw same (o.stream);
      valid = rw same (o.valid);
    }
    go (Read.returns bs q) (_, k) = record {
      stream =
          o.stream
          ∙ ap (λ l. t.received ++ l) (k.split ∙ ap (λ l. l ++ contents q) (none_lost bs q k))
          ∙ sym (append_assoc t.received bs (contents q));
      valid = k.valid;
    }
    go (Read.fails q) (same, _, _, _) = record {
      stream = rw same (o.stream);
      valid = rw same (o.valid);
    }
step-InOrder (close true) t o = record { stream = o.stream; valid = ground (arith, o.valid) }
step-InOrder (close false) t o = record { stream = o.stream; valid = ground (arith, o.valid) }

run-InOrder : (es : List Event) (t : Traffic) → InOrder t → InOrder (run es t)
unfolding run
run-InOrder [] t o = o
run-InOrder (e ∷ es) t o = run-InOrder es (step e t) (step-InOrder e t o)

-- However runs of writers and readers interleave, wherever they sleep, and whichever ends close or
-- processes are killed on the way: the bytes received, with those still in the pipe behind them,
-- are the bytes sent, in the same order; no byte is lost, doubled or overwritten, also when the
-- 32-bit counters wrap. Reads are into memory that takes every byte.
pub stream_in_order :
    (es : List Event) (junk : ℕ → ℕ)
    → let t = run es (opened junk) in t.sent ≡ t.received ++ contents t.pipe
unfolding fresh_pipe
stream_in_order es junk =
    (run-InOrder es (opened junk) (record { stream = refl; valid = omega arith })).stream

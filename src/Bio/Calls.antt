-- ===== src/Bio/Calls.antt =====
-- kernel/bio.c: processes that use the cache, in any order of their calls.
use tdt4186_lab.Base.{
  ℕ, ◌<◌, ◌≡◌, ◌≢◌, subst, List, [], ◌∷◌, arith, ok, panic, Result, none, some, Result-cases, inl,
  inr, All,
}
use tdt4186_lab.Bio.{Cache, num_buf, modify, bget, lock_buf, fill, brelse, bpin, bunpin, binit}
use tdt4186_lab.Bio.Unique.{
  IsCache, InOrder, kept_in_place, brelse-InOrder, bget-InOrder, binit-InOrder,
}

pub data Event : Type 0 where
  get : (dev blockno : ℕ) → Event
  lock : (pid b : ℕ) → Event
  read : (b : ℕ) → Event
  write : (b : ℕ) → (ℕ → ℕ) → Event
  release : (pid b : ℕ) → Event
  pin : (b : ℕ) → Event
  unpin : (b : ℕ) → Event

-- The device numbers in use start at `ROOTDEV`, which is 1.
abbrev pub IsCall : Event → Type 0
IsCall (get dev blockno) = dev ≢ 0
IsCall (lock pid b) = b < num_buf
IsCall (read b) = b < num_buf
IsCall (write b content) = b < num_buf
IsCall (release pid b) = b < num_buf
IsCall (pin b) = b < num_buf
IsCall (unpin b) = b < num_buf

module _ (transfer : ℕ → ℕ → ℕ → ℕ) where
  unfoldable pub step : Event → Cache → Result Cache
  unfolding bget lock_buf fill brelse bpin bunpin
  step (get dev blockno) c = elim (bget dev blockno c) [ ok (b, d) ↦ ok d | panic m ↦ panic m ]
  step (lock pid b) c = elim (lock_buf pid b c) [ none ↦ ok c | some d ↦ ok d ]
  step (read b) c = ok (fill transfer b c)
  step (write b content) c = ok (modify b (λ f. record f { content = content }) c)
  step (release pid b) c = brelse pid b c
  step (pin b) c = ok (bpin b c)
  step (unpin b) c = ok (bunpin b c)

  unfoldable pub run : List Event → Cache → Result Cache
  unfolding step
  run [] c = ok c
  run (e ∷ es) c = elim (step e c) [ ok d ↦ run es d | panic m ↦ panic m ]

module _ (transfer : ℕ → ℕ → ℕ → ℕ) where
  step-InOrder :
      (e : Event) {c d : Cache} {xs : List ℕ}
      → IsCall e
      → IsCache c xs
      → step transfer e c ≡ ok d
      → InOrder d
  unfolding step lock_buf fill bpin bunpin
  step-InOrder (get dev blockno) {c} {d} {xs} call v e = elim (Result-cases (bget dev blockno c)) [
    | inl (m, p) ↦ ground (arith, p)
    | inr ((b, f), p) ↦
        let same : f ≡ d = ground (arith, p) in
        (xs, subst (λ k. IsCache k xs) same (bget-InOrder dev blockno v call p))
  ]
  step-InOrder (lock pid b) {c} {d} {xs} call v e =
      (xs, kept_in_place v (ground (arith, e)) (ground (arith, e)) λ i. ground (arith, e))
  step-InOrder (read b) {c} {d} {xs} call v e =
      (xs, kept_in_place v (ground (arith, e)) (ground (arith, e)) λ i. ground (arith, e))
  step-InOrder (write b content) {c} {d} {xs} call v e =
      (xs, kept_in_place v (ground (arith, e)) (ground (arith, e)) λ i. ground (arith, e))
  step-InOrder (release pid b) {c} {d} {xs} call v e = brelse-InOrder pid b v call e
  step-InOrder (pin b) {c} {d} {xs} call v e =
      (xs, kept_in_place v (ground (arith, e)) (ground (arith, e)) λ i. ground (arith, e))
  step-InOrder (unpin b) {c} {d} {xs} call v e =
      (xs, kept_in_place v (ground (arith, e)) (ground (arith, e)) λ i. ground (arith, e))

  run-InOrder :
      (es : List Event) {c d : Cache}
      → All IsCall es
      → InOrder c
      → run transfer es c ≡ ok d
      → InOrder d
  unfolding run
  run-InOrder [] {c} {d} calls v e = let same : c ≡ d = cc in rw (← same) v
  run-InOrder (x ∷ es) {c} {d} (call, calls) (xs, v) e = elim (Result-cases (step transfer x c)) [
    | inl (m, p) ↦ ground (arith, p)
    | inr (f, p) ↦ run-InOrder es {c = f} calls (step-InOrder x call v p) (rw (p, run) at e)
  ]

  -- From zeroed memory and `binit` on, whatever calls processes make, in whatever order, on the 30
  -- buffers and on devices other than 0: if none of the calls panics, the `next` pointers lead from
  -- the head through all 30 buffers, each once, back to the head, the `prev` pointers lead the other
  -- way around, and no two buffers have the same block of a device.
  pub cache-InOrder :
      (es : List Event) (c : Cache) {d : Cache}
      → ((i : ℕ) → (c.buf i).dev ≡ 0)
      → All IsCall es
      → run transfer es (binit c) ≡ ok d
      → InOrder d
  cache-InOrder es c zeroed calls e = run-InOrder es calls (binit-InOrder c zeroed) e

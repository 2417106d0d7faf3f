-- ===== src/Vm/Copy/Out.antt =====
-- kernel/vm.c: what `copyout` copies.
use tdt4186_lab.Base.{
  ℕ, zero, suc, ◌+◌, ◌-◌, ◌≤◌, ◌<◌, ◌≡◌, ◌≢◌, inl, inr, refl, sym, ◌∙◌, Bool, true, false, ◌==◌,
  ◌&&◌, ltb, leb, arith, Bool-cases,
}
use tdt4186_lab.Kalloc.{page_size}
use tdt4186_lab.Strings.{Bytes, memmove}
use tdt4186_lab.Strings.Move.{memmove_lem}
use tdt4186_lab.Vm.{Ram, page_round_down, walkaddr}
use tdt4186_lab.Vm.Copy.{chunk, copyout_from, copyout}
use tdt4186_lab.Vm.Copy.In.{byte_at, chunk-Chunk}

abbrev pub CopyoutEnds : (ℕ → ℕ) → (dstva src len : ℕ) → Bytes → Bool × Bytes → Type 0
CopyoutEnds translate dstva src len m (true, t) =
    ((j : ℕ) → j < len → translate (page_round_down (dstva + j)) ≢ 0)
    × ((j : ℕ) → j < len → t (byte_at translate (dstva + j)) ≡ m (src + j))
    × ((a : ℕ) → ((j : ℕ) → j < len → byte_at translate (dstva + j) ≢ a) → t a ≡ m a)
CopyoutEnds translate dstva src len m (false, t) =
    (j : ℕ) × (j < len) × (translate (page_round_down (dstva + j)) ≡ 0)

module _ (translate : ℕ → ℕ) where
  -- The bytes that are written are all different, and none of those that are read.
  pub record Writable (dstva src len : ℕ) : Type 0 where
    pub distinct :
        (i j : ℕ) → i < j → j < len → byte_at translate (dstva + i) ≢ byte_at translate (dstva + j)
    pub apart : (i j : ℕ) → i < len → j < len → byte_at translate (dstva + i) ≢ src + j

  Writable-next :
      (dstva src len n va1 : ℕ)
      → n ≤ len
      → ((j : ℕ) → j < len - n → va1 + j ≡ dstva + (n + j))
      → Writable dstva src len
      → Writable va1 (src + n) (len - n)
  Writable-next dstva src len n va1 le next w = record {
    distinct = λ i j h l.
        rw (next i (omega arith), next j l)
          (w.distinct (n + i) (n + j) (omega arith) (omega arith));
    apart = λ i j h l.
        let behind : src + n + j ≡ src + (n + j) = omega arith in
        rw (next i h, behind) (w.apart (n + i) (n + j) (omega arith) (omega arith));
  }

  module _ (dstva src len n va1 : ℕ) (m t : Bytes) where
    record Round : Type 0 where
      le : n ≤ len
      near : (j : ℕ) → j < n → translate (page_round_down (dstva + j)) ≢ 0
      next : (j : ℕ) → j < len - n → va1 + j ≡ dstva + (n + j)
      bytes : (j : ℕ) → j < n → t (byte_at translate (dstva + j)) ≡ m (src + j)
      others : (a : ℕ) → ((j : ℕ) → j < n → byte_at translate (dstva + j) ≢ a) → t a ≡ m a

    then_rest :
        (result : Bool × Bytes)
        → Round
        → Writable dstva src len
        → CopyoutEnds translate va1 (src + n) (len - n) t result
        → CopyoutEnds translate dstva src len m result
    then_rest (false, u) r w (j, h, z) =
        let at = r.next j h in (n + j, omega (arith, h, r.le), rw (← at) z)
    then_rest (true, u) r w (pages, bytes, others) = (
      λ j h. elim (Bool-cases (ltb j n)) [
        | inl e ↦ r.near j (ground (arith, e))
        | inr e ↦
            let small : j - n < len - n = ground (arith, e, h) in
            let at : va1 + (j - n) ≡ dstva + j = ground (arith, r.next (j - n) small, e) in
            rw (← at) (pages (j - n) small)
      ],
      λ j h. elim (Bool-cases (ltb j n)) [
        | inl e ↦
            let early : j < n = ground (arith, e) in
            others (byte_at translate (dstva + j)) (λ k l.
              rw (r.next k l)
                λ q. w.distinct j (n + k) (omega (arith, early)) (omega (arith, l)) (sym q))
            ∙ r.bytes j early
        | inr e ↦
            let small : j - n < len - n = ground (arith, e, h) in
            let at : va1 + (j - n) ≡ dstva + j = ground (arith, r.next (j - n) small, e) in
            let from : src + n + (j - n) ≡ src + j = ground (arith, e) in
            let copied = rw (at, from) at (bytes (j - n) small) in
            copied ∙ r.others (src + j) λ k l. w.apart k j (omega (arith, l, r.le)) h
      ],
      λ a out.
          others a (λ k l. rw (r.next k l) (out (n + k) (omega (arith, l))))
          ∙ r.others a λ k l. out k (omega (arith, l, r.le)),
    )

  in_round :
      (dstva src len : ℕ) (m : Bytes)
      → 0 < len
      → translate (page_round_down dstva) ≢ 0
      → Round dstva src len (chunk dstva len) (page_round_down dstva + page_size) m (
          memmove
            (translate (page_round_down dstva) + (dstva - page_round_down dstva))
            src
            (chunk dstva len)
            m)
  in_round dstva src len m more mapped =
      let c = chunk-Chunk dstva len more in
      let pa = translate (page_round_down dstva) + (dstva - page_round_down dstva) in
      let n = chunk dstva len in
      let at : (j : ℕ) → j < n → byte_at translate (dstva + j) ≡ pa + j =
        λ j h. rw (c.page j h, c.offset j h) (omega arith) in
      record {
        le = c.le;
        near = λ j h. rw (c.page j h) mapped;
        next = c.next;
        bytes = λ j h.
            let inside : (leb pa (pa + j) && ltb (pa + j) (pa + n)) ≡ true = ground (arith, h) in
            let from : src + (pa + j - pa) ≡ src + j = omega arith in
            rw (at j h) (memmove_lem pa src n m (pa + j) ∙ rw (inside, from) refl);
        others = λ a out.
            memmove_lem pa src n m a ∙ elim (Bool-cases (leb pa a && ltb a (pa + n))) [
              | inr e ↦ rw e refl
              | inl e ↦
                  let small : a - pa < n = ground (arith, e) in
                  let it : pa + (a - pa) ≡ a = ground (arith, e) in
                  absurd (out (a - pa) small (at (a - pa) small ∙ it))
            ];
      }

  copyout_from_ends :
      (rounds dstva src len : ℕ) (m : Bytes)
      → len ≤ rounds
      → Writable dstva src len
      → CopyoutEnds translate dstva src len m (copyout_from translate rounds dstva src len m)
  unfolding copyout_from
  copyout_from_ends zero dstva src len m enough w = (
    λ j h. absurd (omega (arith, h, enough)),
    λ j h. absurd (omega (arith, h, enough)),
    λ a out. refl,
  )
  copyout_from_ends (suc rounds) dstva src len m enough w = elim (Bool-cases (len == 0)) [
    | inl e ↦
        rw (e, copyout_from)
          (
            λ j h. absurd (ground (arith, h, e)),
            λ j h. absurd (ground (arith, h, e)),
            λ a out. refl,
          )
    | inr e ↦ elim (Bool-cases (translate (page_round_down dstva) == 0)) [
      | inl f ↦
          let here : dstva + 0 ≡ dstva = omega arith in
          rw (e, f, copyout_from) (0, ground (arith, e), rw here (ground (arith, f)))
      | inr f ↦
          let va0 = page_round_down dstva in
          let n = chunk dstva len in
          let c = chunk-Chunk dstva len (ground (arith, e)) in
          let r = in_round dstva src len m (ground (arith, e)) (ground (arith, f)) in
          let t = memmove (translate va0 + (dstva - va0)) src n m in
          rw (e, f, copyout_from)
            (then_rest dstva src len n (va0 + page_size) m t
              (copyout_from translate rounds (va0 + page_size) (src + n) (len - n) t) r w
              (copyout_from_ends rounds (va0 + page_size) (src + n) (len - n) t
                (omega (arith, enough, c.pos, c.le))
                (Writable-next dstva src len n (va0 + page_size) c.le c.next w)))
    ]
  ]

-- If the bytes of the process in the range are all different, and none of those at the kernel's
-- address: `copyout` returns 0, and all pages of the range are mapped for the process, the kernel's
-- bytes are at its addresses, across the pages, and no other byte has changed; or it returns -1, and
-- a page of the range is not mapped for the process.
pub copyout_ends :
    (pagetable dstva src len : ℕ) (r : Ram) (m : Bytes)
    → Writable (λ va. walkaddr pagetable va r) dstva src len
    → CopyoutEnds
        (λ va. walkaddr pagetable va r)
        dstva
        src
        len
        m
        (copyout pagetable dstva src len r m)
unfolding copyout
copyout_ends pagetable dstva src len r m w =
    copyout_from_ends (λ va. walkaddr pagetable va r) len dstva src len m (omega arith) w

-- ===== src/Vm/Copy/In.antt =====
-- kernel/vm.c: what `copyin` copies.
use tdt4186_lab.Base.{
  ℕ, zero, suc, ◌+◌, ◌-◌, ◌%◌, ◌≤◌, ◌<◌, ◌≡◌, ◌≢◌, inl, inr, refl, sym, ap, ◌∙◌, Bool, true, false,
  ◌==◌, ◌&&◌, ltb, leb, if◌then◌else◌, arith, Bool-cases,
}
use tdt4186_lab.Kalloc.{page_size}
use tdt4186_lab.Strings.{Bytes, memmove}
use tdt4186_lab.Strings.Move.{memmove_lem}
use tdt4186_lab.Vm.{Ram, page_round_down, walkaddr}
use tdt4186_lab.Vm.Copy.{chunk, copyin_from, copyin}

-- The physical address of a byte.
abbrev pub byte_at : (ℕ → ℕ) → ℕ → ℕ
byte_at translate va = translate (page_round_down va) + va % page_size

abbrev pub CopyinEnds : (ℕ → ℕ) → (dst srcva len : ℕ) → Bytes → Bool × Bytes → Type 0
CopyinEnds translate dst srcva len m (true, t) =
    ((j : ℕ) → j < len → translate (page_round_down (srcva + j)) ≢ 0)
    × ((a : ℕ)
        → t a ≡ (
            if leb dst a && ltb a (dst + len)
            then m (byte_at translate (srcva + (a - dst)))
            else m a))
CopyinEnds translate dst srcva len m (false, t) =
    (j : ℕ) × (j < len) × (translate (page_round_down (srcva + j)) ≡ 0)

-- How far a chunk reaches: not beyond the page, and to its end if more is left.
pub record Chunk (va len n : ℕ) : Type 0 where
  pub pos : 0 < n
  pub le : n ≤ len
  pub page : (j : ℕ) → j < n → page_round_down (va + j) ≡ page_round_down va
  pub offset : (j : ℕ) → j < n → (va + j) % page_size ≡ va - page_round_down va + j
  pub next : (j : ℕ) → j < len - n → page_round_down va + page_size + j ≡ va + (n + j)

pub chunk-Chunk : (va len : ℕ) → 0 < len → Chunk va len (chunk va len)
chunk-Chunk va len more = elim (Bool-cases (ltb len (page_size - (va - page_round_down va)))) [
  | inl e ↦
      let fits : len < page_size - (va - page_round_down va) = ground (arith, e) in
      rw e record {
        pos = more;
        le = omega arith;
        page = λ j h. omega (arith, fits, h);
        offset = λ j h. omega (arith, fits, h);
        next = λ j h. absurd (omega (arith, h));
      }
  | inr e ↦
      let beyond : page_size - (va - page_round_down va) ≤ len = ground (arith, e) in
      rw e record {
        pos = omega arith;
        le = beyond;
        page = λ j h. omega (arith, h);
        offset = λ j h. omega (arith, h);
        next = λ j h. omega arith;
      }
]

module _ (translate : ℕ → ℕ) where
  -- The kernel's bytes are none of those that are read.
  abbrev pub Apart : (dst srcva len : ℕ) → Type 0
  Apart dst srcva len = (i j : ℕ) → i < len → j < len → byte_at translate (srcva + i) ≢ dst + j

  module _ (dst srcva len n va1 : ℕ) (m t : Bytes) where
    -- What a round has done: it has copied `n` bytes, and goes on at `va1`.
    record Round : Type 0 where
      le : n ≤ len
      near : (j : ℕ) → j < n → translate (page_round_down (srcva + j)) ≢ 0
      next : (j : ℕ) → j < len - n → va1 + j ≡ srcva + (n + j)
      bytes :
          (a : ℕ)
          → t a ≡ (
              if leb dst a && ltb a (dst + n)
              then m (byte_at translate (srcva + (a - dst)))
              else m a)

    -- The bytes that are still to be read are as they were.
    still_there :
        Round
        → Apart dst srcva len
        → (i : ℕ) → i < len
        → t (byte_at translate (srcva + i)) ≡ m (byte_at translate (srcva + i))
    still_there r apart i h =
        let b = byte_at translate (srcva + i) in
        r.bytes b ∙ elim (Bool-cases (leb dst b && ltb b (dst + n))) [
          | inr e ↦ rw e refl
          | inl e ↦
              let in_dst : dst + (b - dst) ≡ b = ground (arith, e) in
              let small : b - dst < len = ground (arith, e, r.le) in
              absurd (apart i (b - dst) h small (sym in_dst))
        ]

    then_rest :
        (result : Bool × Bytes)
        → Round
        → Apart dst srcva len
        → CopyinEnds translate (dst + n) va1 (len - n) t result
        → CopyinEnds translate dst srcva len m result
    then_rest (false, u) r apart (j, h, z) =
        let at = r.next j h in (n + j, omega (arith, h, r.le), rw (← at) z)
    then_rest (true, u) r apart (pages, bytes) = (
      λ j h. elim (Bool-cases (ltb j n)) [
        | inl e ↦ r.near j (ground (arith, e))
        | inr e ↦
            let small : j - n < len - n = ground (arith, e, h) in
            let at : va1 + (j - n) ≡ srcva + j = ground (arith, r.next (j - n) small, e) in
            rw (← at) (pages (j - n) small)
      ],
      λ a. bytes a ∙ elim (Bool-cases (leb (dst + n) a && ltb a (dst + n + (len - n)))) [
        | inr e ↦
            let same : (leb dst a && ltb a (dst + n)) ≡ (leb dst a && ltb a (dst + len)) =
              ground (arith, e, r.le) in
            rw e (
              r.bytes a
              ∙ ap (λ x. if x then m (byte_at translate (srcva + (a - dst))) else m a) same)
        | inl e ↦
            let small : a - (dst + n) < len - n = ground (arith, e) in
            let at : va1 + (a - (dst + n)) ≡ srcva + (a - dst) =
              ground (arith, r.next (a - (dst + n)) small, e) in
            let whole : (leb dst a && ltb a (dst + len)) ≡ true = ground (arith, e, r.le) in
            rw (e, whole, at) (still_there r apart (a - dst) (ground (arith, e, r.le)))
      ],
    )

  in_round :
      (dst srcva len : ℕ) (m : Bytes)
      → 0 < len
      → translate (page_round_down srcva) ≢ 0
      → Round dst srcva len (chunk srcva len) (page_round_down srcva + page_size) m (
          memmove dst
            (translate (page_round_down srcva) + (srcva - page_round_down srcva))
            (chunk srcva len)
            m)
  in_round dst srcva len m more mapped =
      let c = chunk-Chunk srcva len more in
      let pa = translate (page_round_down srcva) + (srcva - page_round_down srcva) in
      let n = chunk srcva len in
      record {
        le = c.le;
        near = λ j h. rw (c.page j h) mapped;
        next = c.next;
        bytes = λ a. memmove_lem dst pa n m a ∙ elim (Bool-cases (leb dst a && ltb a (dst + n))) [
          | inr e ↦ rw e refl
          | inl e ↦
              let small : a - dst < n = ground (arith, e) in
              let from : pa + (a - dst) ≡ byte_at translate (srcva + (a - dst)) =
                rw (c.page (a - dst) small, c.offset (a - dst) small) (omega arith) in
              rw e (ap m from)
        ];
      }

  copyin_from_ends :
      (rounds dst srcva len : ℕ) (m : Bytes)
      → len ≤ rounds
      → Apart dst srcva len
      → CopyinEnds translate dst srcva len m (copyin_from translate rounds dst srcva len m)
  unfolding copyin_from
  copyin_from_ends zero dst srcva len m enough apart =
      (λ j h. absurd (omega (arith, h, enough)), λ a. ground (arith, enough))
  copyin_from_ends (suc rounds) dst srcva len m enough apart = elim (Bool-cases (len == 0)) [
    | inl e ↦ rw (e, copyin_from) (λ j h. absurd (ground (arith, h, e)), λ a. ground (arith, e))
    | inr e ↦ elim (Bool-cases (translate (page_round_down srcva) == 0)) [
      | inl f ↦
          let here : srcva + 0 ≡ srcva = omega arith in
          rw (e, f, copyin_from) (0, ground (arith, e), rw here (ground (arith, f)))
      | inr f ↦
          let va0 = page_round_down srcva in
          let n = chunk srcva len in
          let c = chunk-Chunk srcva len (ground (arith, e)) in
          let r = in_round dst srcva len m (ground (arith, e)) (ground (arith, f)) in
          let t = memmove dst (translate va0 + (srcva - va0)) n m in
          let later : Apart (dst + n) (va0 + page_size) (len - n) = λ i j h l.
            let behind : dst + n + j ≡ dst + (n + j) = omega arith in
            rw (c.next i h, behind)
              (apart (n + i) (n + j) (omega (arith, h, c.le)) (omega (arith, l, c.le))) in
          rw (e, f, copyin_from)
            (then_rest dst srcva len n (va0 + page_size) m t
              (copyin_from translate rounds (dst + n) (va0 + page_size) (len - n) t) r apart
              (copyin_from_ends rounds (dst + n) (va0 + page_size) (len - n) t
                (omega (arith, enough, c.pos, c.le)) later))
    ]
  ]

-- If the bytes at the kernel's address are none of those that are read: `copyin` returns 0, and
-- all pages of the range are mapped for the process, its bytes are in the kernel's memory, across
-- the pages, and no other byte has changed; or it returns -1, and a page of the range is not mapped
-- for the process.
pub copyin_ends :
    (pagetable dst srcva len : ℕ) (r : Ram) (m : Bytes)
    → Apart (λ va. walkaddr pagetable va r) dst srcva len
    → CopyinEnds
        (λ va. walkaddr pagetable va r)
        dst
        srcva
        len
        m
        (copyin pagetable dst srcva len r m)
unfolding copyin
copyin_ends pagetable dst srcva len r m apart =
    copyin_from_ends (λ va. walkaddr pagetable va r) len dst srcva len m (omega arith) apart

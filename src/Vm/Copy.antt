-- ===== src/Vm/Copy.antt =====
-- kernel/vm.c: `copyin`, `copyout` and `copyinstr`, between the kernel and a process.
--
-- The bytes that are copied stand in pages that are no page tables, so that the state is the bytes,
-- and the translation of addresses stays. `true` stands for 0, and `false` for -1. A page holds a
-- byte at least behind each address, so that a round for each byte is enough.
pub mod In
pub mod Out
use tdt4186_lab.Base.{
  ℕ, zero, suc, ◌+◌, ◌-◌, ◌*◌, ◌/◌, Bool, true, false, ◌==◌, ltb, if◌then◌else◌, update,
}
use tdt4186_lab.Kalloc.{page_size}
use tdt4186_lab.Strings.{Bytes, memmove}
use tdt4186_lab.Vm.{Ram, page_round_down, walkaddr}

-- `n = PGSIZE - (va - va0); if(n > len) n = len;`
abbrev pub chunk : (va len : ℕ) → ℕ
chunk va len = let n = page_size - (va - page_round_down va) in if ltb len n then len else n

pub copyin_from : (translate : ℕ → ℕ) → (rounds dst srcva len : ℕ) → Bytes → Bool × Bytes
unfolding memmove
copyin_from translate zero dst srcva len m = (true, m)
copyin_from translate (suc rounds) dst srcva len m = elim (len == 0) [
  | true ↦ (true, m)
  | false ↦
      let va0 = page_round_down srcva in
      let pa0 = translate va0 in
      let n = chunk srcva len in
      elim (pa0 == 0) [
        | true ↦ (false, m)
        | false ↦
            copyin_from translate rounds (dst + n) (va0 + page_size) (len - n)
              (memmove dst (pa0 + (srcva - va0)) n m)
      ]
]

unfoldable pub copyin : (pagetable dst srcva len : ℕ) → Ram → Bytes → Bool × Bytes
unfolding copyin_from walkaddr
copyin pagetable dst srcva len r m = copyin_from (λ va. walkaddr pagetable va r) len dst srcva len m

pub copyout_from : (translate : ℕ → ℕ) → (rounds dstva src len : ℕ) → Bytes → Bool × Bytes
unfolding memmove
copyout_from translate zero dstva src len m = (true, m)
copyout_from translate (suc rounds) dstva src len m = elim (len == 0) [
  | true ↦ (true, m)
  | false ↦
      let va0 = page_round_down dstva in
      let pa0 = translate va0 in
      let n = chunk dstva len in
      elim (pa0 == 0) [
        | true ↦ (false, m)
        | false ↦
            copyout_from translate rounds (va0 + page_size) (src + n) (len - n)
              (memmove (pa0 + (dstva - va0)) src n m)
      ]
]

pub copyout : (pagetable dstva src len : ℕ) → Ram → Bytes → Bool × Bytes
unfolding copyout_from walkaddr
copyout pagetable dstva src len r m =
    copyout_from (λ va. walkaddr pagetable va r) len dstva src len m

-- The loop of `copyinstr` over `n` bytes of a page; `true` if a NUL was copied.
pub string_from : (n dst p : ℕ) → Bytes → Bool × Bytes
string_from zero dst p m = (false, m)
string_from (suc n) dst p m = elim (m p == 0) [
  | true ↦ (true, update m dst 0)
  | false ↦ string_from n (dst + 1) (p + 1) (update m dst (m p))
]

pub copyinstr_from : (translate : ℕ → ℕ) → (rounds dst srcva max : ℕ) → Bytes → Bool × Bytes
unfolding string_from
copyinstr_from translate zero dst srcva max m = (false, m)
copyinstr_from translate (suc rounds) dst srcva max m = elim (max == 0) [
  | true ↦ (false, m)
  | false ↦
      let va0 = page_round_down srcva in
      let pa0 = translate va0 in
      let n = chunk srcva max in
      elim (pa0 == 0) [
        | true ↦ (false, m)
        | false ↦
            let (got_null, t) = string_from n dst (pa0 + (srcva - va0)) m in
            elim got_null [
              | true ↦ (true, t)
              | false ↦ copyinstr_from translate rounds (dst + n) (va0 + page_size) (max - n) t
            ]
      ]
]

unfoldable pub copyinstr : (pagetable dst srcva max : ℕ) → Ram → Bytes → Bool × Bytes
unfolding copyinstr_from walkaddr
copyinstr pagetable dst srcva max r m =
    copyinstr_from (λ va. walkaddr pagetable va r) max dst srcva max m

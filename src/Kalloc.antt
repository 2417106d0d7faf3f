-- ===== src/Kalloc.antt =====
-- kernel/kalloc.c: the allocator of physical pages, with its free list in the pages themselves.
--
-- `page a` is what the page at address `a` holds. `kmem.lock` makes each function one step. `end`,
-- the first address behind the kernel, is set by the linker and is a parameter.
pub mod Chain
pub mod Owners
pub mod Boot
mod Tests
use tdt4186_lab.Base.{
  ℕ, zero, suc, ◌+◌, ◌-◌, ◌*◌, ◌/◌, ◌%◌, ◌^◌, Bool, not, ◌||◌, ◌==◌, ltb, leb, if◌then◌else◌,
  update, Result, ok, panic,
}

abbrev pub page_size : ℕ
page_size = 4096

-- `PHYSTOP`
abbrev pub phys_top : ℕ
phys_top = 0x88000000

-- A page of equal bytes, as `memset` leaves it; or one whose first eight bytes are `run.next`.
pub data Page : Type 0 where
  filled : (byte : ℕ) → Page
  linked : (next byte : ℕ) → Page

pub record Memory : Type 0 where
  pub page : ℕ → Page
  pub freelist : ℕ

-- `r->next`; in a page of equal bytes, these bytes as a pointer.
abbrev pub next_of : Page → ℕ
next_of (filled byte) = byte * 0x0101010101010101
next_of (linked next byte) = next

abbrev pub link : ℕ → Page → Page
link next (filled byte) = linked next byte
link next (linked old byte) = linked next byte

-- `PGROUNDUP`, at 64 bits
abbrev pub page_round_up : ℕ → ℕ
page_round_up a = (a + page_size - 1) % 2 ^ 64 / page_size * page_size

module _ (end_of_kernel : ℕ) where
  pub kfree : ℕ → Memory → Result Memory
  kfree pa s =
      if not (pa % page_size == 0) || (ltb pa end_of_kernel || leb phys_top pa)
      then panic "kfree"
      else let junk = filled 1 in
        ok (record { page = update s.page pa (link s.freelist junk); freelist = pa })

  -- `kalloc`: the page, or 0.
  pub kalloc : Memory → ℕ × Memory
  kalloc s =
      let r = s.freelist in
      if r == 0
      then (0, s)
      else (r, record { page = update s.page r (filled 5); freelist = next_of (s.page r) })

  -- The loop of `freerange` from `p` on, for at most `rounds` rounds.
  pub free_from : (rounds p pa_end : ℕ) → Memory → Result Memory
  unfolding kfree
  free_from zero p pa_end s = ok s
  free_from (suc rounds) p pa_end s = elim (leb (p + page_size) pa_end) [
    | Bool.false ↦ ok s
    | Bool.true ↦ elim (kfree p s) [
      | panic m ↦ panic m
      | ok t ↦ free_from rounds (p + page_size) pa_end t
    ]
  ]

  -- `freerange`; each round advances `p` by a page, so there are fewer rounds than `pa_end` / 4096 + 1.
  pub freerange : (pa_start pa_end : ℕ) → Memory → Result Memory
  unfolding free_from
  freerange pa_start pa_end s = free_from (pa_end / page_size + 1) (page_round_up pa_start) pa_end s

  pub kinit : Memory → Result Memory
  unfolding freerange
  kinit s = freerange end_of_kernel phys_top s

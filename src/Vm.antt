-- ===== src/Vm.antt =====
-- kernel/vm.c: page tables, and the memory of a process that they map.
--
-- `word p i` is the 64-bit word `i` of the page at address `p`. The page allocator is seen through
-- its list of free pages (Kalloc/Chain.antt), and what it writes into a page is kept. A page table is
-- the address of its root. `%` and `/` by a power of two stand for masks and shifts.
pub mod Tree
pub mod Grown
pub mod Walk
pub mod Map
pub mod User
pub mod Copy
mod Tests
use tdt4186_lab.Base.{
  ℕ, zero, suc, ◌+◌, ◌-◌, ◌*◌, ◌/◌, ◌%◌, ◌^◌, Bool, true, false, not, ◌&&◌, ◌||◌, ◌==◌, ltb, leb,
  if◌then◌else◌, Option, none, some, List, [], ◌∷◌, update, Result, ok, panic,
}
use tdt4186_lab.Kalloc.{page_size, phys_top, page_round_up}

pub record Ram : Type 0 where
  pub word : ℕ → ℕ → ℕ
  pub free : List ℕ

abbrev pub with_page : (p : ℕ) → (ℕ → ℕ) → Ram → Ram
with_page p w r = record r { word = update r.word p w }

abbrev pub store : (p i v : ℕ) → Ram → Ram
store p i v r = with_page p (update (r.word p) i v) r

-- A page of equal bytes, by words: `memset(p, c, PGSIZE)`.
abbrev pub filled : ℕ → ℕ → ℕ
filled c i = c * 0x0101010101010101

pub kalloc : Ram → Option (ℕ × Ram)
kalloc r = elim r.free [
  | [] ↦ none
  | a ∷ rest ↦ some (a, with_page a (filled 5) (record r { free = rest }))
]

-- `PTE_V` and `PTE_U`
abbrev pub is_valid : ℕ → Bool
is_valid pte = pte % 2 == 1

abbrev pub is_user : ℕ → Bool
is_user pte = pte / 16 % 2 == 1

-- `PA2PTE`, `PTE2PA` and `PTE_FLAGS`
abbrev pub pa_to_pte : ℕ → ℕ
pa_to_pte pa = pa / 4096 * 1024

abbrev pub pte_to_pa : ℕ → ℕ
pte_to_pa pte = pte / 1024 * 4096

abbrev pub pte_flags : ℕ → ℕ
pte_flags pte = pte % 1024

-- `PA2PTE(pa) | perm | PTE_V` for flags `perm` below 1024
abbrev pub leaf_pte : (pa perm : ℕ) → ℕ
leaf_pte pa perm = pa_to_pte pa + (perm / 2 * 2 + 1)

abbrev pub page_round_down : ℕ → ℕ
page_round_down a = a / page_size * page_size

-- `va >> PXSHIFT(level)`: nine more bits go with each level.
unfoldable pub page_number : (level va : ℕ) → ℕ
page_number zero va = va / 4096
page_number (suc level) va = page_number level va / 512

-- `PX(level, va)`
abbrev pub px : (level va : ℕ) → ℕ
px level va = page_number level va % 512

-- `MAXVA`
abbrev pub max_va : ℕ
max_va = 0x4000000000

-- The loop of `walk` from `level` down: the page and the index of the entry, or `none` for 0.
pub walk_from : (alloc : Bool) → (level page va : ℕ) → Ram → Option (ℕ × ℕ) × Ram
unfolding page_number kalloc
walk_from alloc zero p va r = (some (p, px 0 va), r)
walk_from alloc (suc level) p va r =
    let pte = r.word p (px (suc level) va) in
    elim (is_valid pte) [
      | true ↦ walk_from alloc level (pte_to_pa pte) va r
      | false ↦ elim alloc [
        | false ↦ (none, r)
        | true ↦ elim (kalloc r) [
          | none ↦ (none, r)
          | some (a, s) ↦
              walk_from alloc level a va
                (store p (px (suc level) va) (pa_to_pte a + 1) (with_page a (filled 0) s))
        ]
      ]
    ]

pub walk : (alloc : Bool) → (pagetable va : ℕ) → Ram → Result (Option (ℕ × ℕ) × Ram)
unfolding walk_from
walk alloc pagetable va r =
    if leb max_va va then panic "walk" else ok (walk_from alloc 2 pagetable va r)

-- `walkaddr`: the physical address, or 0.
pub walkaddr : (pagetable va : ℕ) → Ram → ℕ
unfolding walk_from
walkaddr pagetable va r = if leb max_va va then 0 else elim (walk_from false 2 pagetable va r).0 [
  | none ↦ 0
  | some (p, i) ↦ let pte = r.word p i in if is_valid pte && is_user pte then pte_to_pa pte else 0
]

-- The loop of `mappages`, for at most `rounds` pages; `true` for 0, and `false` for -1.
pub map_from : (rounds pagetable a last pa perm : ℕ) → Ram → Result (Bool × Ram)
unfolding walk
map_from zero pagetable a last pa perm r = panic "rounds"
map_from (suc rounds) pagetable a last pa perm r = elim (walk true pagetable a r) [
  | panic m ↦ panic m
  | ok (none, s) ↦ ok (false, s)
  | ok (some (p, i), s) ↦
      if is_valid (s.word p i)
      then panic "mappages: remap"
      else let t = store p i (leaf_pte pa perm) s in
        elim (a == last) [
          | true ↦ ok (true, t)
          | false ↦
              map_from rounds pagetable ((a + page_size) % 2 ^ 64) last ((pa + page_size) % 2 ^ 64)
                perm t
        ]
]

-- The loop comes to `last` after as many pages as lie between, round the end of the address space.
pub mappages : (pagetable va size pa perm : ℕ) → Ram → Result (Bool × Ram)
unfolding map_from
mappages pagetable va size pa perm r =
    let a = page_round_down va in
    let last = page_round_down ((va + size - 1) % 2 ^ 64) in
    if size == 0
    then panic "mappages: size"
    else map_from ((last + 2 ^ 64 - a) % 2 ^ 64 / page_size + 1) pagetable a last pa perm r

pub kvmmap : (pagetable va pa size perm : ℕ) → Ram → Result Ram
unfolding mappages
kvmmap pagetable va pa size perm r = elim (mappages pagetable va size pa perm r) [
  | panic m ↦ panic m
  | ok (true, s) ↦ ok s
  | ok (false, s) ↦ panic "kvmmap"
]

-- `uvmcreate`; 0 if out of memory.
pub uvmcreate : Ram → ℕ × Ram
unfolding kalloc
uvmcreate r = elim (kalloc r) [ none ↦ (0, r) | some (a, s) ↦ (a, with_page a (filled 0) s) ]

pub uvmclear : (pagetable va : ℕ) → Ram → Result Ram
unfolding walk
uvmclear pagetable va r = elim (walk false pagetable va r) [
  | panic m ↦ panic m
  | ok (none, s) ↦ panic "uvmclear"
  | ok (some (p, i), s) ↦
      let pte = s.word p i in ok (store p i (if is_user pte then pte - 16 else pte) s)
]

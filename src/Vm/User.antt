-- ===== src/Vm/User.antt =====
-- kernel/vm.c: the memory of a process: `uvmunmap`, `uvmalloc`, `uvmdealloc` and `uvmcopy`.
--
-- A range of addresses does not reach round the end of the address space, so that each loop has as
-- many rounds as there are pages in its range.
pub mod Freed
pub mod Unmap
use tdt4186_lab.Base.{
  ℕ, zero, suc, ◌+◌, ◌-◌, ◌*◌, ◌/◌, ◌%◌, ◌^◌, Bool, true, false, not, ◌&&◌, ◌||◌, ◌==◌, ltb, leb,
  if◌then◌else◌, Option, none, some, List, [], ◌∷◌, update, Result, ok, panic,
}
use tdt4186_lab.Kalloc.{page_size, phys_top, page_round_up}
use tdt4186_lab.Vm.{
  Ram, store, with_page, filled, kalloc, is_valid, pte_to_pa, pte_flags, walk, mappages,
}

module _ (end_of_kernel : ℕ) where
  pub kfree : ℕ → Ram → Result Ram
  kfree pa r =
      if not (pa % page_size == 0) || (ltb pa end_of_kernel || leb phys_top pa)
      then panic "kfree"
      else ok (with_page pa (filled 1) (record r { free = pa ∷ r.free }))

  pub unmap_from : (rounds pagetable a : ℕ) → (do_free : Bool) → Ram → Result Ram
  unfolding kfree walk
  unmap_from zero pagetable a do_free r = ok r
  unmap_from (suc rounds) pagetable a do_free r = elim (walk false pagetable a r) [
    | panic m ↦ panic m
    | ok (none, s) ↦ panic "uvmunmap: walk"
    | ok (some (p, i), s) ↦
        let pte = s.word p i in
        if not (is_valid pte)
        then panic "uvmunmap: not mapped"
        else if pte_flags pte == 1
        then panic "uvmunmap: not a leaf"
        else elim (if do_free then kfree (pte_to_pa pte) s else ok s) [
          | panic m ↦ panic m
          | ok t ↦ unmap_from rounds pagetable (a + page_size) do_free (store p i 0 t)
        ]
  ]

  pub uvmunmap : (pagetable va npages : ℕ) → (do_free : Bool) → Ram → Result Ram
  unfolding unmap_from
  uvmunmap pagetable va npages do_free r =
      if not (va % page_size == 0)
      then panic "uvmunmap: not aligned"
      else unmap_from npages pagetable va do_free r

  pub uvmdealloc : (pagetable oldsz newsz : ℕ) → Ram → Result (ℕ × Ram)
  unfolding uvmunmap
  uvmdealloc pagetable oldsz newsz r =
      if leb oldsz newsz
      then ok (oldsz, r)
      else if ltb (page_round_up newsz) (page_round_up oldsz)
      then elim (uvmunmap pagetable (page_round_up newsz)
          ((page_round_up oldsz - page_round_up newsz) / page_size) true r) [
            | panic m ↦ panic m
            | ok s ↦ ok (newsz, s)
          ]
      else ok (newsz, r)

  -- What `uvmalloc` gives up when memory runs out at page `a`.
  pub give_up : (pagetable a oldsz : ℕ) → Ram → Result (ℕ × Ram)
  unfolding uvmdealloc
  give_up pagetable a oldsz r = elim (uvmdealloc pagetable a oldsz r) [
    | panic m ↦ panic m
    | ok (n, s) ↦ ok (0, s)
  ]

  -- The loop of `uvmalloc` from page `a` on; `PTE_R|PTE_U` is 18, and `xperm` has other flags.
  pub alloc_from : (rounds pagetable a oldsz newsz xperm : ℕ) → Ram → Result (ℕ × Ram)
  unfolding kalloc mappages kfree give_up
  alloc_from zero pagetable a oldsz newsz xperm r = ok (newsz, r)
  alloc_from (suc rounds) pagetable a oldsz newsz xperm r = elim (kalloc r) [
    | none ↦ give_up pagetable a oldsz r
    | some (mem, s) ↦
        elim (mappages pagetable a page_size mem (18 + xperm) (with_page mem (filled 0) s)) [
          | panic m ↦ panic m
          | ok (true, t) ↦ alloc_from rounds pagetable (a + page_size) oldsz newsz xperm t
          | ok (false, t) ↦ elim (kfree mem t) [
            | panic m ↦ panic m
            | ok u ↦ give_up pagetable a oldsz u
          ]
        ]
  ]

  -- `uvmalloc`: the new size, or 0.
  pub uvmalloc : (pagetable oldsz newsz xperm : ℕ) → Ram → Result (ℕ × Ram)
  unfolding alloc_from
  uvmalloc pagetable oldsz newsz xperm r =
      let from = page_round_up oldsz in
      if ltb newsz oldsz
      then ok (oldsz, r)
      else alloc_from ((newsz - from + page_size - 1) / page_size) pagetable from from newsz xperm r

  -- The loop of `uvmcopy` from address `i` on, and its `err`.
  pub copy_from : (rounds old new i : ℕ) → Ram → Result (Bool × Ram)
  unfolding walk kalloc mappages kfree uvmunmap
  copy_from zero old new i r = ok (true, r)
  copy_from (suc rounds) old new i r =
      let err : Ram → Result (Bool × Ram) = λ s. elim (uvmunmap new 0 (i / page_size) true s) [
        | panic m ↦ panic m
        | ok t ↦ ok (false, t)
      ] in
      elim (walk false old i r) [
        | panic m ↦ panic m
        | ok (none, s) ↦ panic "uvmcopy: pte should exist"
        | ok (some (p, j), s) ↦
            let pte = s.word p j in
            if not (is_valid pte) then panic "uvmcopy: page not present" else elim (kalloc s) [
              | none ↦ err s
              | some (mem, t) ↦
                  elim (mappages new i page_size mem (pte_flags pte)
                    (with_page mem (t.word (pte_to_pa pte)) t)) [
                      | panic m ↦ panic m
                      | ok (true, u) ↦ copy_from rounds old new (i + page_size) u
                      | ok (false, u) ↦ elim (kfree mem u) [ panic m ↦ panic m | ok v ↦ err v ]
                    ]
            ]
      ]

  -- `uvmcopy(old, new, sz)`; `true` for 0, and `false` for -1.
  pub uvmcopy : (old new sz : ℕ) → Ram → Result (Bool × Ram)
  unfolding copy_from
  uvmcopy old new sz r = copy_from ((sz + page_size - 1) / page_size) old new 0 r

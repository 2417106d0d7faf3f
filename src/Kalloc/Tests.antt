-- ===== src/Kalloc/Tests.antt =====
-- kernel/kalloc.c: a memory with two pages behind the kernel, and the theorems about it.
use tdt4186_lab.Base.{ℕ, ◌≡◌, refl, ◌==◌, [], ◌∷◌, panic, arith, update, Bool-cases, inl, inr}
use tdt4186_lab.Kalloc.{Memory, filled, linked, kfree, kinit}
use tdt4186_lab.Kalloc.Owners.{Pages, Books, Kept, take, write, give, run, run-Kept}
use tdt4186_lab.Kalloc.Boot.{Ready, kinit-Ready}

abbrev kernel_end : ℕ
kernel_end = 0x87ffd800

abbrev low_page : ℕ
low_page = 0x87ffe000

abbrev high_page : ℕ
high_page = 0x87fff000

abbrev empty : Memory
empty = record { page = λ a. filled 0; freelist = 0 }

abbrev one_free : Memory
one_free = record { page = update (λ a. filled 0) low_page (linked 0 1); freelist = low_page }

-- The lower page is free, and the upper one belongs to a client.
abbrev shared : Pages
shared = record { memory = one_free; owned = high_page ∷ [] }

shared-Books : Books kernel_end shared (low_page ∷ [])
shared-Books = record {
  chain = (refl, omega arith, refl);
  once = λ a. ground arith;
  pages = λ a h. elim (Bool-cases (a == low_page)) [
    | inl e ↦ record { aligned = ground arith; above = ground arith; below = ground arith }
    | inr e ↦ record { aligned = ground arith; above = ground arith; below = ground arith }
  ];
}

kfree_unaligned : kfree kernel_end 0x87ffe001 one_free ≡ panic "kfree"
unfolding kfree
kfree_unaligned = refl

kinit-Ready_example : Ready kernel_end (kinit kernel_end empty)
kinit-Ready_example = kinit-Ready kernel_end empty (omega arith) (omega arith) refl

run-Kept_example :
    Kept kernel_end
      (run kernel_end (give 0 ∷ take ∷ write 0 (filled 9) ∷ take ∷ take ∷ []) shared)
      shared
      (low_page ∷ [])
run-Kept_example =
    run-Kept kernel_end (give 0 ∷ take ∷ write 0 (filled 9) ∷ take ∷ take ∷ []) (omega arith)
      shared-Books

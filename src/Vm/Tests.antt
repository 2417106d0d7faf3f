-- ===== src/Vm/Tests.antt =====
-- kernel/vm.c: a page table with one page mapped, and four free pages.
use tdt4186_lab.Base.{
  ℕ, suc, ◌+◌, ◌*◌, ◌/◌, ◌%◌, ◌≡◌, ◌<◌, refl, true, false, ◌==◌, if◌then◌else◌, none, some, [], ◌∷◌,
  Result, ok, panic, arith, Bool, not, Bool-cases, inl, inr,
}
use tdt4186_lab.Vm.{Ram, mappages, walkaddr, page_number, is_valid}
use tdt4186_lab.Vm.Tree.{Tables, Tree, lookup}
use tdt4186_lab.Vm.Map.{MapEnds, mappages_ends}
use tdt4186_lab.Vm.Copy.{copyin, copyout, copyinstr}
use tdt4186_lab.Vm.Copy.In.{byte_at, CopyinEnds, copyin_ends}
use tdt4186_lab.Vm.Copy.Out.{CopyoutEnds, copyout_ends}
use tdt4186_lab.Strings.{Bytes, memmove}
use tdt4186_lab.Vm.User.{uvmunmap}
use tdt4186_lab.Vm.User.Unmap.{Removable, Unmapped, uvmunmap-Unmapped}

-- Pages 1, 2 and 3 of the memory have the tables, and page 4 is mapped at address 0.
abbrev root : ℕ
root = 0x80001000

abbrev words : ℕ → ℕ → ℕ
words p i =
    if not (i == 0)
    then 0
    else if p == 0x80001000
    then 0x20000801
    else if p == 0x80002000
    then 0x20000c01
    else if p == 0x80003000
    then 0x20001017
    else 0

abbrev ram : Ram
ram = record { word = words; free = 0x80005000 ∷ 0x80006000 ∷ [] }

abbrev tables : Tables
tables p =
    if p == 0x80001000
    then some (2, 0)
    else if p == 0x80002000
    then some (1, 0)
    else if p == 0x80003000
    then some (0, 0)
    else none

ram-Tree : Tree root tables ram
ram-Tree = record {
  at_root = refl;
  child = λ p level x i h less v. elim (Bool-cases (i == 0)) [
    | inr e ↦ let bad : is_valid 0 ≡ true = rw e at v in cc
    | inl e ↦
        let first : i ≡ 0 = ground arith in
        elim (Bool-cases (p == 0x80001000)) [
          | inl f ↦
              let here : p ≡ 0x80001000 = ground arith in
              let which : some (2, 0) ≡ some (suc level, x) = rw here at h in
              let l : level ≡ 1 = cc in let y : x ≡ 0 = cc in rw (here, first, l, y) refl
          | inr f ↦ elim (Bool-cases (p == 0x80002000)) [
            | inl g ↦
                let here : p ≡ 0x80002000 = ground arith in
                let which : some (1, 0) ≡ some (suc level, x) = rw here at h in
                let l : level ≡ 0 = cc in let y : x ≡ 0 = cc in rw (here, first, l, y) refl
            | inr g ↦ ground (arith, f, g, h)
          ]
        ]
  ];
  spare = λ a h. elim (Bool-cases (a == 0x80005000)) [
    | inl e ↦
        let here : a ≡ 0x80005000 = ground arith in
        rw here (refl, record { aligned = refl; nonzero = omega arith })
    | inr e ↦
        let here : a ≡ 0x80006000 = ground (arith, h, e) in
        rw here (refl, record { aligned = refl; nonzero = omega arith })
  ];
  distinct = (refl, (refl, tt));
}

-- 0x1c is `PTE_U | PTE_X | PTE_W`.
mappages_ends_example :
    MapEnds root ram 0x1000 2 0x80007000 0x1c (mappages root 0x1234 0x1000 0x80007000 0x1c ram)
mappages_ends_example =
    mappages_ends root 0x1234 0x1000 0x80007000 0x1c ram-Tree (omega arith) (omega arith)
      (omega arith)

abbrev pa_after : ℕ → Result (Bool × Ram) → ℕ
pa_after va (ok (b, s)) = walkaddr root va s
pa_after va (panic m) = 7

mapped_behind : pa_after 0x2000 (mappages root 0x1234 0x1000 0x80007000 0x1c ram) ≡ 0x80008000
unfolding mappages walkaddr page_number
mapped_behind = refl

mapped_before : pa_after 0x0 (mappages root 0x1234 0x1000 0x80007000 0x1c ram) ≡ 0x80004000
unfolding mappages walkaddr page_number
mapped_before = refl

remaps : mappages root 0 0x1000 0x80007000 0x1c ram ≡ panic "mappages: remap"
unfolding mappages page_number
remaps = refl

leaf_at_0 : lookup root 0 ram ≡ 0x20001017
unfolding lookup page_number
leaf_at_0 = refl

page_4-Removable : Removable 0x80000000 root tables ram 0 1 true
page_4-Removable = record {
  leaf = λ k h. let first : k ≡ 0 = omega arith in rw (first, leaf_at_0) (refl, refl);
  freeable = λ e k h.
      let first : k ≡ 0 = omega arith in
      rw (first, leaf_at_0)
        record {
          no_table = refl;
          not_free = refl;
          aligned = refl;
          above = omega arith;
          below = omega arith;
        };
  apart = λ e j k l h. absurd (omega arith);
}

uvmunmap-Unmapped_example :
    Unmapped root tables ram 0 1 true (uvmunmap 0x80000000 root 0 1 true ram)
uvmunmap-Unmapped_example =
    uvmunmap-Unmapped 0x80000000 0 1 true (omega arith) ram-Tree refl (omega arith) page_4-Removable

abbrev translate : ℕ → ℕ
translate va = walkaddr root va ram

page_0 : walkaddr root 0 ram ≡ 0x80004000
unfolding walkaddr page_number
page_0 = refl

byte_of_page_0 : (i : ℕ) → i < 4 → byte_at translate (8 + i) ≡ 0x80004008 + i
byte_of_page_0 i h =
    let first : (8 + i) / 4096 * 4096 ≡ 0 = omega (arith, h) in
    let offset : (8 + i) % 4096 ≡ 8 + i = omega (arith, h) in
    rw (first, page_0, offset) (omega arith)

abbrev letters : Bytes
letters a = if a == 0x8000400a then 0 else a % 256

copyin_ends_example :
    CopyinEnds translate 0x80010000 8 4 letters (copyin root 0x80010000 8 4 ram letters)
copyin_ends_example =
    copyin_ends root 0x80010000 8 4 ram letters
      λ i j h l. rw (byte_of_page_0 i h) λ e. absurd (omega (arith, e, h, l))

copyout_ends_example :
    CopyoutEnds translate 8 0x80010000 4 letters (copyout root 8 0x80010000 4 ram letters)
copyout_ends_example = copyout_ends root 8 0x80010000 4 ram letters record {
  distinct = λ i j h l.
      rw (byte_of_page_0 i (omega arith), byte_of_page_0 j l) λ e. absurd (omega (arith, e, h));
  apart = λ i j h l. rw (byte_of_page_0 i h) λ e. absurd (omega (arith, e, h, l));
}

copies : (copyin root 0x80010000 8 4 ram letters).1 0x80010001 ≡ 9
unfolding copyin walkaddr page_number memmove
copies = refl

-- Page 1 of the process is not mapped.
stops_at_page_1 : (copyin root 0x80010000 4090 9 ram letters).0 ≡ false
unfolding copyin walkaddr page_number
stops_at_page_1 = refl

string_of_two : (copyinstr root 0x80010000 8 10 ram letters).0 ≡ true
unfolding copyinstr walkaddr page_number
string_of_two = refl

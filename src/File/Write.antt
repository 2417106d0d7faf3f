-- ===== src/File/Write.antt =====
-- kernel/file.c: the pieces in which `filewrite` writes to an inode.
use tdt4186_lab.Base.{
  ℕ, zero, suc, ◌+◌, ◌-◌, ◌*◌, ◌/◌, refl, ◌≤◌, ◌<◌, ◌≡◌, ◌≢◌, ◌⊎◌, inl, inr, Bool, true, false,
  ◌==◌, ltb, Option, none, some, List, [], ◌∷◌, arith, Bool-cases, Option-cases, subst, sym,
}
use tdt4186_lab.Log.{max_op_blocks}
use tdt4186_lab.File.{
  File, Call, begin_op, ilock, iunlock, end_op, write, Written, piece, least, max_write, write_from,
  write_inode,
}

abbrev pub Writei : Type 0
Writei = ℕ → ℕ → ℕ → Option ℕ

-- A piece that did not go through moves the offset by what `writei` wrote.
abbrev pub Short : (off n1 final : ℕ) → Option ℕ → Type 0
Short off n1 final none = final ≡ off
Short off n1 final (some r) = (r ≢ n1) × (final ≡ off + r)

-- The blocks that a piece may log: each block of the file that it touches, with one of the free map
-- for it, the inode and its indirect block.
abbrev pub op_blocks : (off n1 : ℕ) → ℕ
op_blocks off n1 = 2 * ((off + n1 - 1) / 1024 - off / 1024 + 1) + 2

-- The calls for bytes `i` to `n`, the last offset left being `off`, to the end with offset `final`.
-- Each piece is one transaction of its own, with room in it for all that the piece may log, and under
-- the lock of the inode; it begins in the buffer where the one before ended, and in the file at the
-- offset found then. All but the last were written in full, and the last too if the write is
-- `complete`.
pub data Pieces (moved : ℕ → ℕ → ℕ) (writei : Writei) (n : ℕ)
    : (i off : ℕ) → (complete : Bool) → (final : ℕ) → List Call → Type 0 where
  written : (off : ℕ) → Pieces moved writei n n off true off []
  next :
      (i off n1 : ℕ) {c : Bool} {final : ℕ} {cs : List Call}
      → 0 < n1
      → op_blocks (moved i off) n1 ≤ max_op_blocks
      → i + n1 ≤ n
      → writei i (moved i off) n1 ≡ some n1
      → Pieces moved writei n (i + n1) (moved i off + n1) c final cs
      → Pieces moved writei n i off c final
          (begin_op ∷ ilock ∷ write i (moved i off) n1 ∷ iunlock ∷ end_op ∷ cs)
  short :
      (i off n1 final : ℕ)
      → 0 < n1
      → op_blocks (moved i off) n1 ≤ max_op_blocks
      → i + n1 ≤ n
      → Short (moved i off) n1 final (writei i (moved i off) n1)
      → Pieces moved writei n i off false final
          (begin_op ∷ ilock ∷ write i (moved i off) n1 ∷ iunlock ∷ end_op ∷ [])

least-bounds : (a b : ℕ) → 0 < a → 0 < b → (0 < least a b) × (least a b ≤ a) × (least a b ≤ b)
least-bounds a b p q = elim (Bool-cases (ltb b a)) [
  | inl e ↦ rw e (q, ground (arith, e), ground arith)
  | inr e ↦ rw e (p, ground arith, ground (arith, e))
]

-- The largest piece fits into a transaction wherever it begins.
room_for : (off n1 : ℕ) → 0 < n1 → n1 ≤ max_write → op_blocks off n1 ≤ max_op_blocks
room_for off n1 pos le = omega (arith, pos, le)

module _ (moved : ℕ → ℕ → ℕ) (writei : Writei) (n : ℕ) where
  abbrev pub LoopEnd : (i off : ℕ) → Written → Type 0
  LoopEnd i off w =
      ((w.at ≡ n) × Pieces moved writei n i off true w.off w.calls)
      ⊎ ((w.at < n) × Pieces moved writei n i off false w.off w.calls)

  add_piece :
      (i off n1 : ℕ) (w : Written)
      → 0 < n1
      → op_blocks (moved i off) n1 ≤ max_op_blocks
      → i + n1 ≤ n
      → writei i (moved i off) n1 ≡ some n1
      → LoopEnd (i + n1) (moved i off + n1) w
      → LoopEnd i off (piece i (moved i off) n1 w)
  add_piece i off n1 w pos room le_n full ends = elim ends [
    | inl (at_end, ps) ↦ inl (at_end, next i off n1 pos room le_n full ps)
    | inr (less, ps) ↦ inr (less, next i off n1 pos room le_n full ps)
  ]

  write_from_ends :
      (rounds i off : ℕ)
      → i ≤ n
      → n < i + rounds
      → LoopEnd i off (write_from moved writei rounds n i off)
  unfolding write_from
  write_from_ends zero i off le enough = absurd (omega arith)
  write_from_ends (suc rounds) i off le enough = elim (Bool-cases (ltb i n)) [
    | inr e ↦
        let same : i ≡ n = ground (arith, e, le) in
        rw (e, write_from)
          (inl
            (same, subst (λ x. Pieces moved writei n x off true off []) (sym same) (written off)))
    | inl e ↦
        let n1 = least (n - i) max_write in
        let (pos, le_rest, le_max) =
          least-bounds (n - i) max_write (ground (arith, e)) (omega arith) in
        let less : i < n = ground (arith, e) in
        let here = moved i off in
        let room = room_for here n1 pos le_max in
        elim (Option-cases (writei i here n1)) [
          | inl q ↦
              rw (e, write_from, q)
                (inr (less, short i off n1 here pos room (omega arith) (rw q refl)))
          | inr (r, q) ↦ elim (Bool-cases (r == n1)) [
            | inr s ↦
                rw (e, write_from, q, s)
                  (inr (
                    less,
                    short i off n1 (here + r) pos room (omega arith)
                        (rw q (ground (arith, s), refl)),
                  ))
            | inl s ↦
                let full : r ≡ n1 = ground (arith, s) in
                let all_of_it : writei i here n1 ≡ some n1 = rw full at q in
                let equal : (n1 == n1) ≡ true = ground arith in
                rw (e, write_from, all_of_it, equal)
                  (add_piece i off n1 (write_from moved writei rounds n (i + n1) (here + n1)) pos
                    room (omega arith) all_of_it
                    (write_from_ends rounds (i + n1) (here + n1) (omega arith) (omega arith)))
          ]
        ]
  ]

-- What `filewrite` does with an inode, whatever `writei` returns and whoever else moves the offset:
-- it ends; it writes in pieces, each within one transaction, between `begin_op` and `end_op` and
-- under the lock of the inode, with at most `MAXOPBLOCKS` blocks to log, wherever it begins; the
-- pieces follow each other in the buffer, and each begins at the offset that is found then. It
-- returns `n` if all `n` bytes went through, or -1 behind the first piece that did not; and the
-- offset is left behind what was written last.
pub write_inode_ends :
    (moved : ℕ → ℕ → ℕ) (writei : Writei) (n : ℕ) (f : File)
    → let w = write_from moved writei (n + 1) n 0 f.off in
      let (value, after) = write_inode moved writei n f in
      ((value ≡ some n) × Pieces moved writei n 0 f.off true after.off w.calls)
      ⊎ ((value ≡ none) × Pieces moved writei n 0 f.off false after.off w.calls)
unfolding write_inode
write_inode_ends moved writei n f =
    elim (write_from_ends moved writei n (n + 1) 0 f.off (omega arith) (omega arith)) [
      | inl (at_end, ps) ↦ inl (ground (arith, at_end), ps)
      | inr (less, ps) ↦ inr (ground (arith, less), ps)
    ]

-- ===== src/Log.antt =====
-- kernel/log.c: the write-ahead log, over disk blocks and the buffer cache's view of them.
--
-- `disk` is what survives a power failure. `view b` is what `bread(dev, b)->data` shows: the
-- cached copy of block `b`, or the disk's. A `bread` and the `brelse` that ends it leave both as
-- they are, so they do not appear; `pins` counts what `bpin` and `bunpin` add to `refcnt`, and a
-- pinned buffer keeps its view. `power` is the number of block writes until the machine loses
-- power: `bwrite` at zero is the crash, and `Run.crash` holds the disk that is left.
-- `lh` is `log.lh`: its length is `n`. Blocks are the 32-bit words that log.c reads them as.
pub mod Header
pub mod Logged
pub mod Ends
pub mod Install
pub mod WriteLog
pub mod Commit
pub mod Recovery
pub mod Restart
pub mod Progress
pub mod Ops
mod Tests
use tdt4186_lab.Base.{
  ℕ, zero, suc, ◌+◌, ◌-◌, ◌≡◌, Bool, true, false, List, [], ◌∷◌, if◌then◌else◌, length, update,
}

abbrev pub Block : Type 0
Block = ℕ → ℕ

abbrev pub Disk : Type 0
Disk = ℕ → Block

-- `MAXOPBLOCKS` and `LOGSIZE` of param.h.
abbrev pub max_op_blocks : ℕ
max_op_blocks = 10

abbrev pub log_size : ℕ
log_size = 30

pub record Machine : Type 0 where
  pub disk : Disk
  pub view : Disk
  pub pins : ℕ → ℕ
  pub power : ℕ
  pub lh : List ℕ

pub data Run : Type 0 where
  done : Machine → Run
  crash : Disk → Run

abbrev pub and_then : Run → (Machine → Run) → Run
and_then (done s) k = k s
and_then (crash d) k = crash d

-- `bwrite`: one block goes to the disk, if there is power for it.
pub bwrite : ℕ → Machine → Run
bwrite b s = elim s.power [
  | zero ↦ crash s.disk
  | suc p ↦ done (record s { disk = update s.disk b (s.view b); power = p })
]

-- `memmove(to->data, from->data, BSIZE)` between two buffers.
abbrev pub copy_block : ℕ → ℕ → Machine → Machine
copy_block to from s = record s { view = update s.view to (s.view from) }

pub bunpin : ℕ → Machine → Machine
bunpin b s = record s { pins = update s.pins b (s.pins b - 1) }

pub bpin : ℕ → Machine → Machine
bpin b s = record s { pins = update s.pins b (s.pins b + 1) }

-- The header block: word 0 is `n`, and the words from 1 on are `block[]`.
unfoldable pub put_words : ℕ → List ℕ → Block → Block
put_words i [] w = w
put_words i (x ∷ xs) w = put_words (i + 1) xs (update w i x)

unfoldable pub get_words : ℕ → ℕ → Block → List ℕ
get_words zero i w = []
get_words (suc n) i w = w i ∷ get_words n (i + 1) w

abbrev pub get_header : Block → List ℕ
get_header w = get_words (w 0) 1 w

abbrev pub put_header : List ℕ → Block → Block
put_header bs w = put_words 1 bs (update w 0 (length bs))

-- `log.lh.n = 0`
abbrev pub clear_header : Machine → Machine
clear_header s = record s { lh = [] }

module _ (start : ℕ) where
  -- The loops of `write_log` and `install_trans` from `tail` on, over the rest of `lh.block`.
  pub write_log_from : ℕ → List ℕ → Machine → Run
  unfolding bwrite
  write_log_from tail [] s = done s
  write_log_from tail (b ∷ bs) s =
      and_then (bwrite (start + tail + 1) (copy_block (start + tail + 1) b s))
        (write_log_from (tail + 1) bs)

  pub write_log : Machine → Run
  unfolding write_log_from
  write_log s = write_log_from 0 s.lh s

  pub install_from : Bool → ℕ → List ℕ → Machine → Run
  unfolding bunpin bwrite
  install_from recovering tail [] s = done s
  install_from recovering tail (b ∷ bs) s =
      and_then (bwrite b (copy_block b (start + tail + 1) s))
        λ t. install_from recovering (tail + 1) bs (if recovering then t else bunpin b t)

  pub install_trans : Bool → Machine → Run
  unfolding install_from
  install_trans recovering s = install_from recovering 0 s.lh s

  pub read_head : Machine → Machine
  read_head s = record s { lh = get_header (s.view start) }

  pub write_head : Machine → Run
  unfolding bwrite
  write_head s =
      bwrite start (record s { view = update s.view start (put_header s.lh (s.view start)) })

  pub recover_from_log : Machine → Run
  unfolding read_head install_trans write_head put_words get_words
  recover_from_log s = and_then (install_trans true (read_head s)) λ t. write_head (clear_header t)

  pub commit_blocks : Machine → Run
  unfolding write_log write_head install_trans put_words get_words
  commit_blocks s = and_then (write_log s) λ t.
      and_then (write_head t) λ u. and_then (install_trans false u) λ v. write_head (clear_header v)

  -- `commit`, by cases on the test `log.lh.n > 0`.
  pub commit_if : List ℕ → Machine → Run
  unfolding commit_blocks
  commit_if [] s = done s
  commit_if (_ ∷ _) s = commit_blocks s

  pub commit : Machine → Run
  unfolding commit_if
  commit s = commit_if s.lh s

-- The machine after a restart: nothing is cached, pinned or logged in memory.
abbrev pub boot : ℕ → Disk → Machine
boot power d = record { disk = d; view = d; pins = λ _. 0; power = power; lh = [] }

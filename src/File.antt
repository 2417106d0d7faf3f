-- ===== src/File.antt =====
-- kernel/file.c: the table of open files.
--
-- A file is its index in `ftable.file`. Code under `ftable.lock` is one step. What `writei` and the
-- other calls return is an argument; a result of -1 is `none`.
pub mod Counts
pub mod Write
mod Tests
use tdt4186_lab.Base.{
  ℕ, zero, suc, ◌+◌, ◌-◌, ◌*◌, ◌/◌, Bool, true, false, ◌&&◌, ◌||◌, not, ◌==◌, ltb, leb,
  if◌then◌else◌, Option, none, some, List, [], ◌∷◌, update, Result, ok, panic,
}

-- `NFILE` and `NDEV`
abbrev pub num_file : ℕ
num_file = 100

abbrev pub num_dev : ℕ
num_dev = 10

pub data FileType : Type 0 where
  fd_none fd_pipe fd_inode fd_device : FileType

pub record File : Type 0 where
  pub type : FileType
  pub ref : ℕ
  pub readable : Bool
  pub writable : Bool
  pub pipe : ℕ
  pub ip : ℕ
  pub off : ℕ
  pub major : ℕ

abbrev pub Files : Type 0
Files = ℕ → File

abbrev pub with_ref : ℕ → File → File
with_ref n f = record f { ref = n }

-- The loop of `filealloc` from file `i` on; `none` is the null pointer.
pub filealloc_from : (left i : ℕ) → Files → Option (ℕ × Files)
filealloc_from zero i fs = none
filealloc_from (suc left) i fs =
    let rest = filealloc_from left (i + 1) fs in
    if (fs i).ref == 0 then some (i, update fs i (with_ref 1 (fs i))) else rest

unfoldable pub filealloc : Files → Option (ℕ × Files)
unfolding filealloc_from
filealloc fs = filealloc_from num_file 0 fs

unfoldable pub filedup : ℕ → Files → Result Files
filedup i fs =
    if ltb (fs i).ref 1
    then panic "filedup"
    else ok (update fs i (with_ref ((fs i).ref + 1) (fs i)))

-- What the last `fileclose` of a file gives back.
pub data Release : Type 0 where
  nothing : Release
  pipe_end : (pipe : ℕ) → (writable : Bool) → Release
  put_inode : (ip : ℕ) → Release

abbrev pub release_of : FileType → File → Release
release_of fd_none f = nothing
release_of fd_pipe f = pipe_end f.pipe f.writable
release_of fd_inode f = put_inode f.ip
release_of fd_device f = put_inode f.ip

unfoldable pub fileclose : ℕ → Files → Result (Release × Files)
fileclose i fs =
    let f = fs i in
    if ltb f.ref 1
    then panic "fileclose"
    else if ltb 0 (f.ref - 1)
    then ok (nothing, update fs i (with_ref (f.ref - 1) f))
    else ok (release_of f.type f, update fs i (record f { ref = 0; type = fd_none }))

-- `max` in `filewrite`: the bytes of one transaction.
abbrev pub max_write : ℕ
max_write = (10 - 1 - 1 - 2) / 2 * 1024

-- What the loop of `filewrite` calls; `write` is `writei` for `n1` bytes from byte `i` on, at offset
-- `off` of the file.
pub data Call : Type 0 where
  begin_op ilock iunlock end_op : Call
  write : (i off n1 : ℕ) → Call

-- Where the loop ends, the offset then, and its calls in order.
pub record Written : Type 0 where
  pub at : ℕ
  pub off : ℕ
  pub calls : List Call

abbrev pub piece : (i off n1 : ℕ) → Written → Written
piece i off n1 w = record w {
  calls = begin_op ∷ ilock ∷ write i off n1 ∷ iunlock ∷ end_op ∷ w.calls;
}

abbrev pub stop : (i off : ℕ) → Written
stop i off = record { at = i; off = off; calls = [] }

abbrev pub least : ℕ → ℕ → ℕ
least a b = if ltb b a then b else a

-- The loop of `filewrite` at byte `i` of `n`. `writei i off n1` is the number of bytes that it wrote.
-- The offset belongs to the open file: what the loop left in it as `off`, it finds as `moved i off` in
-- the next round, once it has the lock of the inode, since others that use the file may move it.
pub write_from :
    (moved : ℕ → ℕ → ℕ) → (writei : ℕ → ℕ → ℕ → Option ℕ) → (rounds n i off : ℕ) → Written
write_from moved writei zero n i off = stop i off
write_from moved writei (suc rounds) n i off = elim (ltb i n) [
  | false ↦ stop i off
  | true ↦
      let n1 = least (n - i) max_write in
      let here = moved i off in
      elim (writei i here n1) [
        | none ↦ piece i here n1 (stop i here)
        | some r ↦ elim (r == n1) [
          | false ↦ piece i here n1 (stop i (here + r))
          | true ↦ piece i here n1 (write_from moved writei rounds n (i + r) (here + r))
        ]
      ]
]

-- The case `FD_INODE` of `filewrite`. A round that goes on has written a byte at least, so `n` + 1
-- rounds are enough.
pub write_inode : (moved : ℕ → ℕ → ℕ) → (writei : ℕ → ℕ → ℕ → Option ℕ) → ℕ → File → Option ℕ × File
unfolding write_from
write_inode moved writei n f =
    let w = write_from moved writei (n + 1) n 0 f.off in
    (if w.at == n then some n else none, record f { off = w.off })

-- `filewrite(f, addr, n)`, where the other kinds of files are their functions; `none` is -1.
-- `has_write` tells for which devices `devsw` has a `write`.
pub filewrite :
    (to_pipe : ℕ → Option ℕ)
    → (has_write : ℕ → Bool) → (to_device : ℕ → ℕ → Option ℕ) → (moved : ℕ → ℕ → ℕ)
    → (writei : ℕ → ℕ → ℕ → Option ℕ) → ℕ
    → File
    → Result (Option ℕ × File)
unfolding write_inode
filewrite to_pipe has_write to_device moved writei n f =
    if not f.writable then ok (none, f) else elim f.type [
      | fd_none ↦ panic "filewrite"
      | fd_pipe ↦ ok (to_pipe f.pipe, f)
      | fd_device ↦
          if leb num_dev f.major || not (has_write f.major)
          then ok (none, f)
          else ok (to_device f.major n, f)
      | fd_inode ↦ ok (write_inode moved writei n f)
    ]

-- `fileread(f, addr, n)`; `readi` is given the offset.
pub fileread :
    (from_pipe : ℕ → Option ℕ)
    → (has_read : ℕ → Bool) → (from_device : ℕ → ℕ → Option ℕ) → (readi : ℕ → ℕ → Option ℕ) → ℕ
    → File
    → Result (Option ℕ × File)
fileread from_pipe has_read from_device readi n f =
    if not f.readable then ok (none, f) else elim f.type [
      | fd_none ↦ panic "fileread"
      | fd_pipe ↦ ok (from_pipe f.pipe, f)
      | fd_device ↦
          if leb num_dev f.major || not (has_read f.major)
          then ok (none, f)
          else ok (from_device f.major n, f)
      | fd_inode ↦ elim (readi f.off n) [
        | none ↦ ok (none, f)
        | some r ↦ ok (some r, record f { off = f.off + r })
      ]
    ]

-- ===== src/Descriptors.antt =====
-- kernel/sysfile.c: file descriptors, with `pipealloc` of kernel/pipe.c and the loops over `ofile` in
-- `fork` and `exit` of kernel/proc.c.
--
-- `ofile` of a process is the list of its entries, and a file its place in the file table. A system
-- call returns its value, `none` for -1, and what is left of the files and of its own list. The calls
-- of other parts (`argstr`, `namei`, `kalloc`, `copyout`) come in by what they return.
pub mod Counts
pub mod Calls
pub mod System
mod Tests
use tdt4186_lab.Base.{
  ℕ, zero, suc, ◌+◌, Bool, true, false, not, ◌==◌, ltb, if◌then◌else◌, Option, none, some, List, [],
  ◌∷◌, get_elem?, update, Result, ok, panic,
}
use tdt4186_lab.File.{File, Files, fd_pipe, filealloc, filedup, fileclose}

-- `NOFILE`
abbrev pub num_ofile : ℕ
num_ofile = 16

abbrev pub Ofile : Type 0
Ofile = List (Option ℕ)

-- `argfd`: the file of an open descriptor.
pub argfd : (fd : ℕ) → Ofile → Option ℕ
argfd fd o = if ltb fd num_ofile then elim (get_elem? o fd) [ none ↦ none | some f ↦ f ] else none

-- `p->ofile[fd] = 0`
unfoldable pub clear_fd : (fd : ℕ) → Ofile → Ofile
clear_fd fd [] = []
clear_fd zero (f ∷ o) = none ∷ o
clear_fd (suc fd) (f ∷ o) = f ∷ clear_fd fd o

-- `fdalloc(f)`: the first free descriptor, taken; `none` for -1.
unfoldable pub fdalloc : (f : ℕ) → Ofile → Option (ℕ × Ofile)
fdalloc f [] = none
fdalloc f (none ∷ o) = some (0, some f ∷ o)
fdalloc f (some g ∷ o) = elim (fdalloc f o) [
  | none ↦ none
  | some (fd, p) ↦ some (fd + 1, some g ∷ p)
]

-- What a call leaves.
pub record Left : Type 0 where
  pub value : Option ℕ
  pub files : Files
  pub ofile : Ofile

abbrev pub fails : Files → Ofile → Left
fails fs o = record { value = none; files = fs; ofile = o }

pub sys_dup : (fd : ℕ) → Files → Ofile → Result Left
unfolding argfd fdalloc
sys_dup fd fs o = elim (argfd fd o) [
  | none ↦ ok (fails fs o)
  | some f ↦ elim (fdalloc f o) [
    | none ↦ ok (fails fs o)
    | some (new, p) ↦ elim (filedup f fs) [
      | panic m ↦ panic m
      | ok gs ↦ ok (record { value = some new; files = gs; ofile = p })
    ]
  ]
]

-- `fileclose` and on with what is left of the files.
abbrev pub close_then : {A : Type 0} → (f : ℕ) → Files → (Files → Result A) → Result A
close_then f fs next = elim (fileclose f fs) [ panic m ↦ panic m | ok (r, gs) ↦ next gs ]

pub sys_close : (fd : ℕ) → Files → Ofile → Result Left
unfolding argfd clear_fd
sys_close fd fs o = elim (argfd fd o) [
  | none ↦ ok (fails fs o)
  | some f ↦ close_then f fs λ gs. ok (record { value = some 0; files = gs; ofile = clear_fd fd o })
]

-- `filealloc` and `fdalloc` in `sys_open`.
pub open_file : Files → Ofile → Result Left
unfolding fdalloc
open_file fs o = elim (filealloc fs) [
  | none ↦ ok (fails fs o)
  | some (f, gs) ↦ elim (fdalloc f o) [
    | none ↦ close_then f gs λ hs. ok (fails hs o)
    | some (fd, p) ↦ ok (record { value = some fd; files = gs; ofile = p })
  ]
]

abbrev pub pipe_end_of : (page : ℕ) → (writes : Bool) → File → File
pipe_end_of page writes f = record f {
  type = fd_pipe;
  readable = not writes;
  writable = writes;
  pipe = page;
}

abbrev pub pipe_ends : (page f0 f1 : ℕ) → Files → Files
pipe_ends page f0 f1 fs =
    let reads = update fs f0 (pipe_end_of page false (fs f0)) in
    update reads f1 (pipe_end_of page true (reads f1))

-- `pipealloc`: two files, or `none`; `page` is what `kalloc` returns.
pub pipealloc : (page : ℕ) → Files → Result (Option (ℕ × ℕ) × Files)
pipealloc page fs = elim (filealloc fs) [
  | none ↦ ok (none, fs)
  | some (f0, gs) ↦ elim (filealloc gs) [
    | none ↦ close_then f0 gs λ hs. ok (none, hs)
    | some (f1, hs) ↦
        if page == 0
        then (close_then f0 hs λ is. close_then f1 is λ js. ok (none, js))
        else ok (some (f0, f1), pipe_ends page f0 f1 hs)
  ]
]

-- `sys_pipe` after `pipealloc`; `copies` tells whether both `copyout` calls succeed.
pub pipe_files : (copies : Bool) → (rf wf : ℕ) → Files → Ofile → Result Left
unfolding fdalloc clear_fd
pipe_files copies rf wf fs o = elim (fdalloc rf o) [
  | none ↦ close_then rf fs λ gs. close_then wf gs λ hs. ok (fails hs o)
  | some (fd0, p) ↦ elim (fdalloc wf p) [
    | none ↦ close_then rf fs λ gs. close_then wf gs λ hs. ok (fails hs (clear_fd fd0 p))
    | some (fd1, q) ↦
        if copies
        then ok (record { value = some 0; files = fs; ofile = q })
        else close_then rf fs
            λ gs. close_then wf gs λ hs. ok (fails hs (clear_fd fd1 (clear_fd fd0 q)))
  ]
]

pub sys_pipe : (page : ℕ) → (copies : Bool) → Files → Ofile → Result Left
unfolding pipealloc pipe_files
sys_pipe page copies fs o = elim (pipealloc page fs) [
  | panic m ↦ panic m
  | ok (none, gs) ↦ ok (fails gs o)
  | ok (some (rf, wf), gs) ↦ pipe_files copies rf wf gs o
]

-- The loop of `fork` over `ofile`: the child's list, which has no file before.
unfoldable pub inherit : Ofile → Files → Result (Ofile × Files)
inherit [] fs = ok ([], fs)
inherit (none ∷ o) fs = elim (inherit o fs) [
  | panic m ↦ panic m
  | ok (child, gs) ↦ ok (none ∷ child, gs)
]
inherit (some f ∷ o) fs = elim (filedup f fs) [
  | panic m ↦ panic m
  | ok gs ↦ elim (inherit o gs) [ panic m ↦ panic m | ok (child, hs) ↦ ok (some f ∷ child, hs) ]
]

-- The loop of `exit` over `ofile`.
unfoldable pub close_all : Ofile → Files → Result (Ofile × Files)
close_all [] fs = ok ([], fs)
close_all (none ∷ o) fs = elim (close_all o fs) [
  | panic m ↦ panic m
  | ok (p, gs) ↦ ok (none ∷ p, gs)
]
close_all (some f ∷ o) fs =
    close_then f fs
      λ gs. elim (close_all o gs) [ panic m ↦ panic m | ok (p, hs) ↦ ok (none ∷ p, hs) ]

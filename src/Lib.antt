-- ===== src/Lib.antt =====
-- The kernel of the repository, an xv6 with a multi-level scheduler, in models that the theorems
-- below are about. Paths are from the repository's root.
--
-- Parts and files.
-- * Log.antt and its children model kernel/log.c. `Machine` holds the disk, the buffer cache's view
--   of each block, the pins and `log.lh`; `write_log`, `install_trans`, `read_head`, `write_head`,
--   `commit` and `recover_from_log` are the functions of that name. Every block write may be the
--   one at which power fails (`Machine.power`). Log/Ops.antt has `begin_op`, `end_op` and
--   `log_write`, with calls that interleave as a list of events.
-- * Pipe.antt and its children model kernel/pipe.c, each function up to its next sleep.
-- * Proc.antt and its children model kernel/proc.c: Proc/Table.antt the calls on single processes
--   (`wakeup`, `kill`, `sched`, `yield`, `sleep`), Proc/Life.antt those from `fork` to `wait`,
--   Proc/Sched.antt the two schedulers, Proc/Ps.antt `ps` and `schedset`.
-- * Kalloc.antt and its children model kernel/kalloc.c: `kinit`, `freerange`, `kfree` and `kalloc`,
--   with the free list in the pages. Kalloc/Owners.antt has the rest of the kernel as owners that
--   take pages, write into them and give them back, Kalloc/Boot.antt the start.
-- * Strings.antt and its children model the functions of kernel/string.c that write: `memset`,
--   `memmove`, `strncpy` and `safestrcpy`, over memory as a function from addresses to bytes.
-- * Bio.antt and its children model kernel/bio.c: `binit`, `bget`, the end of `bread`, `brelse`,
--   `bpin` and `bunpin` on the pointers of the buffers; Bio/Links.antt and Bio/Ring.antt read the
--   pointers as a list, Bio/Calls.antt has the calls of processes as a list of events.
-- * Lock.antt and its children model kernel/spinlock.c, with processors that interleave between the
--   accesses to the lock that others see (`advance`), and in Lock/Sleep.antt kernel/sleeplock.c.
-- * Fs.antt and its children model kernel/fs.c: Fs/Blocks.antt `balloc`, `bfree` and `bzero` on the
--   bytes of the free map, Fs/Inodes.antt the inode table and the inodes on the disk (`iget`, `idup`,
--   `ilock`, `iunlock`, `iupdate`), Fs/Content.antt `bmap` and `itrunc`, Fs/Data.antt
--   `readi` and `writei` over `either_copyout` and `either_copyin`, Fs/Dir.antt
--   `dirlookup` with the entries in the bytes of the content, Fs/Path.antt `skipelem`,
--   `namex`, `namei` and `nameiparent`, over what directories say.
-- * File.antt and its children model kernel/file.c: `filealloc`, `filedup`, `fileclose`, `fileread`
--   and `filewrite`, whose loop has a round for each byte and one more. File/Counts.antt has the uses
--   of files as a list of handles. A count `n` and a major number are not negative.
-- * Vm.antt and its children model kernel/vm.c over the words of the page tables: `walk`, `walkaddr`,
--   `mappages`, `kvmmap`, `uvmcreate` and `uvmclear`, in Vm/User.antt `uvmunmap`, `uvmdealloc`,
--   `uvmalloc` and `uvmcopy`, in Vm/Copy.antt `copyin`, `copyout` and `copyinstr` over bytes.
--   Vm/Tree.antt says what the tables map.
-- * Descriptors.antt and its children model the descriptors of kernel/sysfile.c (`argfd`, `fdalloc`,
--   `sys_dup`, `sys_close`, `sys_pipe`, `sys_open` from `filealloc` to its descriptor), `pipealloc` of
--   kernel/pipe.c and the loops over `ofile` in `fork` and `exit` of kernel/proc.c;
--   Descriptors/System.antt has the calls of all processes as a list.
-- * Base.antt passes on the shared names: tests on numbers, lists, families, results.
--
-- How the code is read. A function, or the part of it up to a sleep or a context switch, that
-- holds a spin lock throughout is one step, so `acquire` and `release` do not appear. Pointers into
-- a table are indices, null pointers are 0 or `none`, C integers are numbers below 2 ^ 32 with
-- their wrap-around written out where they are computed with. `panic` is an outcome. What the code
-- gets from other parts (the result of an allocation or of a copy to user memory, what a process
-- does while it runs) is an argument. So is what others do where the code holds no lock against it:
-- `others` between the slots that a scheduler looks at, `seen` for the timers that `sched` counts
-- down, `killed` for each round of `pipewrite`, `moved` for the offset of an open file.
--
-- Bounds. Loops over a table or a list recur on it. The restarts after a crash are a list of
-- powers, of any length. The loop of `freerange` is bounded by the number of pages below its end
-- and one more, since each round advances by a page; so are those of `balloc` by the blocks of the
-- free map, of `namex` by the characters of the path and of `filewrite`, `readi`, `writei`,
-- `copyin` and `copyout` by the bytes to copy, since each round takes one at least. The do-while of the scheduler is bounded by a number of rounds,
-- since the processes decide how often it goes round; its theorem is about every number of rounds
-- that is enough.
--
-- Not modelled: `ialloc`, `iput` on the last reference, `dirlink`, `filestat`, `freewalk`,
-- `memcmp` and `strlen`, the system calls on paths, system call dispatch, devices, boot code and
-- the user programs.
pub mod Base
pub mod Bio
pub mod Descriptors
pub mod File
pub mod Fs
pub mod Kalloc
pub mod Lock
pub mod Log
pub mod Pipe
pub mod Proc
pub mod Strings
pub mod Vm

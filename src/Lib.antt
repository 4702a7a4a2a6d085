-- ===== src/Lib.antt =====
-- A verification of parts of the xv6 kernel in xv6-public/ and of two of its user programs.
--
-- The kernel serves system calls. A call fetches its arguments from the memory of the process
-- (syscall.c), works on open files (file.c, sysfile.c), pipes (pipe.c) and path names (fs.c), and
-- changes blocks through the buffer cache (bio.c) and the log (log.c). Processes and threads sleep and
-- are woken in one table (proc.c), memory comes from kalloc.c, and spin locks (spinlock.c) keep the
-- parts of a call together. The development models each part by the state that its lock protects and
-- its operations as functions on that state.
--
-- Which file models what:
--   Block     xv6-public/bio.c and ide.c as the log sees them: disk, cached blocks, and a power supply
--             that may fail before any write; `Block.Ends` is the logic of such runs.
--   Log       xv6-public/log.c. `Log.Header` is about the header block, `Log.Recovers` says what a disk
--             stands for, `Log.Commit` and `Log.Recovery` are about crashes, `Log.Admission` and
--             `Log.Overflow` about `begin_op`, `end_op` and the room in the log. The list of blocks in the
--             header has no bound of its own.
--   Bio       xv6-public/bio.c: which buffer a block gets, `binit`, `bget`, `brelse`.
--   Pipe      xv6-public/pipe.c: `pipealloc` (the fields), `pipeclose`, `pipewrite`, `piperead`.
--   Kalloc    xv6-public/kalloc.c, on the memory of CString.
--   CString   xv6-public/string.c.
--   Vm        xv6-public/vm.c on page tables: `Vm.Walk` and `Vm.Map` are about `walkpgdir` and `mappages`,
--             `Vm.Shrink` and `Vm.Dealloc` about `deallocuvm`, `Vm.Taken`, `Vm.OnePage`, `Vm.Grow` and
--             `Vm.Alloc` about `allocuvm`, `Vm.Free` about `freevm`, `Vm.Rows` and `Vm.Kernel` about `setupkvm`, `Vm.Holds`
--             and `Vm.Fork` about `copyuvm`; `Vm.Space` and `Vm.Copy` have the definitions.
--   Proc      xv6-public/proc.c: `allocproc`, `fork`, `thread_create`, `wait`, `thread_join`, `exit`,
--             `thread_exit`, `kill`, `wakeup1`, the end of `growproc`; `exit` and `thread_exit` from where
--             they take `ptable.lock`; `Proc.Sched` has `sched`, `yield`,
--             `sleep` and `scheduler`.
--   File      xv6-public/file.c and sysfile.c: references to open files, `sys_dup`, `sys_close`.
--   Bitmap    xv6-public/fs.c: `bzero`, `balloc`, `bfree`.
--   Inode     xv6-public/fs.c: `bmap`, `itrunc`.
--   Content   xv6-public/fs.c: `readi`, `writei`, on the blocks that `bmap` gives; `Content.Open` is
--             xv6-public/file.c: `fileread`, `filewrite`.
--   Icache    xv6-public/fs.c: `ialloc`, `iget`, `idup`, `iupdate`, `ilock`, `iput`.
--   Ide       xv6-public/ide.c: `iderw`, `ideintr`, `idestart`; `Ide.Order` is about the queue, `Ide.Serve` about
--             the end of a wait, `Ide.Ports` about the registers of the controller.
--   Dirs      xv6-public/fs.c and sysfile.c: `dirlink`, `sys_link`, `sys_unlink`, `create`; `Dirs.Lists`,
--             `Dirs.Sums` and `Dirs.Links` count entries and links, `Dirs.Linking`, `Dirs.Removal` with
--             `Dirs.Unlinking`, and `Dirs.Due` with `Dirs.Creating` have one call each. `Dirs.Open` has `sys_open`, `sys_mkdir`, `sys_mknod` and
--             `sys_chdir`, with File.
--   Path      xv6-public/fs.c: `skipelem`, `namecmp`, `dirlookup`, `namex`.
--   Console   xv6-public/console.c: `consoleintr`, `consoleread`.
--   Spinlock  xv6-public/spinlock.c.
--   Sleeplock xv6-public/sleeplock.c.
--   Syscall   xv6-public/syscall.c: the functions that fetch arguments.
--   Grep      xv6-public/grep.c: `match`, `matchhere`, `matchstar`.
--   Sh        xv6-public/sh.c, the parser: `Sh.Print` is the language of commands and their text, `Sh.Ends`
--             bounds the fuel, `Sh.Tokens`, `Sh.Words` and `Sh.Roundtrip` read text back.
--   Sem       xv6-public/thread_lock_impl.h over proc.c, `thread_sleep`: `Sem.Locks` is about the mutex and
--             `ptable.lock`, `Sem.Wakeups` and `Sem.Steps` keep the invariant, `Sem.Progress` has a step.
--   Printf    xv6-public/printf.c, `printint`, and xv6-public/ulib.c, `atoi`.
--   Prelude   shared names, lists and tests on numbers; Tests holds the theorems at concrete states.
--
-- Machine integers are natural numbers with the wrap written out where the code counts up or down, at
-- 2 ^ 32, or at 2 ^ 16 for the links and the directory entries of inodes; the counts of references to
-- files and inodes go down only from above 0. A panic is `none`, or
-- `panic` in a run of Block. An operation that sleeps is cut where it sleeps, and the result says so.
-- Loops over arrays are recursion on lists. Loops over linked memory and over addresses have fuel,
-- and `none` where it runs out: one round more than there are pages for `freerange`, than there are
-- free pages for `kcount`, and than the string is long for `strlen`. `printint` has the sixteen bytes
-- of its buffer; a 32-bit number has fewer digits. `namex` has one round more than the path has
-- characters, each of which takes one away; the loops of the shell's parser have one more than the
-- line has characters, `deallocuvm` and `allocuvm` two more than there are pages below the
-- size; the loops of `readi`, `writei` and `filewrite` have one for each byte; control-U of the console
-- has as many rounds as the buffer has places; and `bmap` splits the number of a block with as many rounds as that number.
--
-- Not modelled: the loading of programs, the functions of devices behind `devsw`, how the shell runs
-- commands, and the interrupt and boot code, output to the screen and the other user programs, which
-- are device access or only make system calls. Icache takes what `itrunc` makes of an
-- inode as an argument (Inode models it). Content takes as arguments whether `bmap` and `log_write`
-- panic (Inode and Log model both). The contents of directories are a parameter of Path, the end
-- of the kernel in memory one of Kalloc, and the memory of the process one of Syscall.
pub mod Prelude
pub mod Block
pub mod Log
pub mod CString
pub mod Pipe
pub mod Kalloc
pub mod Vm
pub mod Bio
pub mod Proc
pub mod Tests
pub mod Grep
pub mod File
pub mod Path
pub mod Inode
pub mod Bitmap
pub mod Printf
pub mod Console
pub mod Spinlock
pub mod Sleeplock
pub mod Syscall
pub mod Sh
pub mod Sem
pub mod Content
pub mod Dirs
pub mod Ide
pub mod Icache

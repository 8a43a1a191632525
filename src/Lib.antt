-- ===== src/Lib.antt =====
-- The kernel in OperatingSystem/HW5, which is xv6 with a priority scheduler and the calls cps and
-- chpr: its parts, and what is proved of them. Paths are those of the repository.
--
-- The parts and how they interact. proc.c owns the process table; its scheduler gives processors
-- to processes, and sleep and wakeup are what pipe.c, log.c and the sleep locks wait with. log.c
-- makes the block writes of one file system operation atomic, on top of the buffer cache; a
-- process can crash with the machine at any of its block writes. spinlock.c and sleeplock.c keep
-- processors and processes apart; file.c gives descriptors to pipes and inodes; kalloc.c has the
-- pages; string.c serves all of them.
--
-- Which file models which part:
-- Strings (string.c): memory is a function from addresses to bytes; a loop is recursion on its
-- counter.
-- Proc.Table (proc.c, proc.h): `ptable` as a record with the list of its slots, and wakeup1,
-- wakeup, kill, chpr, cps and the scan of allocproc. Pointers are addresses, 0 the null pointer.
-- Proc.Kernel: the state that a call works on, which is the table and the state of the files that
-- proc.c calls; a panic is `none`. Those files are the interface Callees, whose laws are
-- hypotheses where a theorem needs them.
-- Proc.Alloc (proc.c): allocproc, userinit, growproc, fork. Proc.Exit: exit, wait, sched, yield,
-- sleep. Proc.Sched: scheduler.
-- Proc.Machine: all processors at once. A step is what runs between acquire and release of
-- `ptable.lock`, or an assignment to a process that only its owner makes.
-- Pipe (pipe.c): the ring with its counters modulo 2 ^ 32, pipewrite, piperead and pipeclose;
-- Pipe.Alloc has pipealloc, over the table of open files.
-- Blocks (the part of bio.c that log.c uses): a block is its 128 words; `power` is the number of
-- block writes that reach the disk before the machine stops, so that a crash is a choice of
-- `power`.
-- Log (log.c): all of it; what initlog reads from the superblock is its argument.
-- Fs (fs.c, fs.h): the superblock and the bitmap over the blocks of the disks; Fs.Icache the
-- inodes, Fs.Content bmap, readi, writei and iput, Fs.Dir directories, Fs.Path path names. One
-- process runs: a panic, or a wait for a lock that the process has, is `none`. A block is what
-- bread gives; log_write with brelse gives the next bread new contents, and `logs` says whether
-- log_write takes blocks or panics, as it does outside an operation or with a full log. The
-- functions of devices are a parameter.
-- Sysfile (sysfile.c): the system calls on files over File and Fs, with `ops` the number of
-- operations of log.c that are under way; Sysfile.Link has link, unlink and create, Sysfile.Open
-- the calls that open and make files. The arguments are what argint, argptr and argstr give.
-- Sysfile.Exec has the vector that sys_exec fetches with Syscall; exec is a parameter, with the
-- operations that it begins and ends.
-- Vm (vm.c, mmu.h, memlayout.h): page tables as words in the byte memory of Kalloc; Vm.Copy has
-- the functions on the pages of a process. Vm.Space says what the processor finds in the tables.
-- Bio (bio.c, and iderw of memide.c): the buffers and their list, most recently used first; iderw
-- panics for a block that is not on disk 1.
-- File (file.c): the table of open files; the calls to fs.c, log.c and pipe.c are the interface
-- Calls, which Sysfile fills with the functions of Fs; Sysfile.Write is about filewrite over
-- these.
-- Kalloc (kalloc.c): the free list in the byte memory of Strings.
-- Spinlock (spinlock.c): processors that take turns at single memory accesses. Sleeplock
-- (sleeplock.c): over the process table.
-- Syscall (syscall.c, sysproc.c): the fetching and checking of arguments in the memory of a
-- process, the dispatch, and the calls of sysproc.c.
-- Ulib (ulib.c, and printint of printf.c): strings and numbers of the user programs.
-- Prelude: Booleans, lists, integers and the lemmas on them that the parts share.
--
-- What sleeps. A function that can sleep takes a list of functions: each is what the rest of the
-- machine does from one call of sched until the process runs again. The result says when the list
-- ends while the call still sleeps. The theorems hold for all lists, and have a hypothesis on the
-- functions where the call relies on one. The loops recurse on the table, on the bytes or on that
-- list. Some loops have fuel, and enough of it: freerange and the loops of vm.c have a round for
-- each page up to their end, filewrite, readi, writei and copyout one for each byte, balloc one
-- for each block of the bitmap, a directory one for each entry, and a path one for each byte and
-- one more.
--
-- Numbers are the natural numbers; the counters of a pipe and the size in growproc wrap around as
-- the source has it. A process id is the 32 bits of an int, and `nextpid` wraps around: that ids
-- are unique is proved for runs in which fewer than 2 ^ 31 - 1 processes are made. A signed
-- argument is an integer.
--
-- What is not modelled: the hardware (interrupts, the registers of the processor, devices), the
-- contents of kernel stacks but for the trap frame and the context, procdump and the other
-- output, and the parts of the repository that are no kernel code (user programs but for their
-- library, exercises in C++).
pub mod Bio
pub mod Blocks
pub mod File
pub mod Fs
pub mod Kalloc
pub mod Log
pub mod Pipe
pub mod Prelude
pub mod Proc
pub mod Sleeplock
pub mod Spinlock
pub mod Strings
pub mod Syscall
pub mod Sysfile
pub mod Ulib
pub mod Vm

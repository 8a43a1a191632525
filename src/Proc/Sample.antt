-- ===== src/Proc/Sample.antt =====
-- Small process tables, and a world, that the tests of proc.c share.
use cpp.Prelude.{ℕ, ◌+◌, if◌then◌else◌, Bool, false, some, [], ◌∷◌, replicate}
use cpp.Prelude.Int.{pos}
use cpp.Proc.Table.{
  ProcState, unused, sleeping, runnable, running, zombie, TrapFrame, Context, Proc, Table,
}
use cpp.Proc.Kernel.{Kernel, Callees}

abbrev pub frame : TrapFrame
frame = record { eax = 7; cs = 0; ds = 0; es = 0; ss = 0; eflags = 0; esp = 0; eip = 0; rest = [] }

abbrev pub context : Context
context = record { edi = 0; esi = 0; ebx = 0; ebp = 0; eip = 0 }

abbrev pub slot : Proc
slot = record {
  sz = 0;
  pgdir = 0;
  kstack = 0;
  state = unused;
  pid = 0;
  parent = 0;
  tf = 0;
  frame = frame;
  ret = 0;
  context = 0;
  saved = context;
  chan = 0;
  killed = false;
  ofile = replicate 2 0;
  cwd = 0;
  name = λ i. 0;
  priority = pos 0;
}

-- A process with a stack and a page directory.
abbrev pub process : ProcState → (pid parent : ℕ) → Proc
process state pid parent = record slot {
  sz = 4096;
  pgdir = 0x2000;
  kstack = 0x1000;
  state = state;
  pid = pid;
  parent = parent;
  ofile = 5 ∷ 0 ∷ [];
  cwd = 9;
  priority = pos 10;
}

-- init waits for its children, of which process 2 runs; that has a RUNNABLE child of a higher
-- priority and a zombie. The other slots are free.
abbrev pub family : Table
family = record {
  base = 1000;
  procs =
      record (process sleeping 1 0) { chan = 1000 }
      ∷ process running 2 1000
      ∷ record (process runnable 3 1128) { priority = pos 5 }
      ∷ process zombie 4 1128
      ∷ replicate 60 slot;
  nextpid = 5;
  initproc = 1000;
}

-- All slots are free.
abbrev pub nobody : Table
nobody = record { base = 1000; procs = slot ∷ slot ∷ []; nextpid = 1; initproc = 0 }

-- The world is the next free page. Where `full` is true there is none.
abbrev pub callees : Bool → Callees ℕ
callees full = record {
  trapret = 11;
  forkret = 12;
  kalloc = λ w. some (if full then 0 else w, w + 4096);
  kfree = λ a w. some (tt, w);
  copyuvm = λ d n w. some (w, w + 4096);
  freevm = λ a w. some (tt, w);
  allocuvm = λ d o n w. some (n, w);
  deallocuvm = λ d o n w. some (n, w);
  setupkvm = λ w. some (w, w + 4096);
  inituvm = λ d w. some (tt, w);
  filedup = λ f w. some (tt, w);
  idup = λ i w. some (tt, w);
  fileclose = λ f k. some (tt, k);
  begin_op = λ k. some (tt, k);
  iput = λ i k. some (tt, k);
  end_op = λ k. some (tt, k);
  namei_root = λ k. some (9, k);
}

abbrev pub machine : Kernel ℕ
machine = record { table = family; world = 0x8000 }

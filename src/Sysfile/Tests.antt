-- ===== src/Sysfile/Tests.antt =====
-- The system calls of OperatingSystem/HW5/sysfile.c on a process with two files.
use cpp.Prelude.{
  ℕ, zero, suc, ◌≡◌, ◌<◌, ◌==◌, ◌≢◌, ◌↔◌, refl, true, false, if◌then◌else◌, none, some, List, [],
  ◌∷◌, get_elem?, length, arith,
}
use cpp.Prelude.Int.{pos, minus_one}
use cpp.File.{Files, File, fd_none, fd_inode, pure, fileclose, last_close}
use cpp.Fs.{Fs, Inode}
use cpp.Fs.Sample.{mounted, no_devices, file}
use cpp.Fs.Icache.{take_lock}
use cpp.Fs.Icache.Lock.{set_locked, relocked}
use cpp.Fs.Content.{iput}
use cpp.Sysfile.{Sys, Env, lift, start_op, finish_op, argfd, calls, fdalloc, sys_close}
use cpp.Syscall.{User}
use cpp.Sysfile.Exec.{argv_from, IsVector, maxarg, argv_lem}
use cpp.Sysfile.Ops.{Runs-pure}
use cpp.Sysfile.Descriptors.{EnvRuns}
use cpp.Sysfile.Requests.{close, run, run_ops_lem, fdalloc_lem}

abbrev env : Env
env = record {
  devsw = no_devices;
  pipeclose = λ p w. pure tt;
  piperead = λ p a n. pure minus_one;
  pipewrite = λ p a n. pure minus_one;
  pipealloc = pure none;
  exec = λ path argv. pure minus_one;
  fuel = 8;
  name = 100;
  de = 120;
  own = 140;
  dot = 160;
  dotdot = 164;
}

pipes : EnvRuns env
pipes = record {
  close = λ n p w. Runs-pure;
  read = λ n p a c. Runs-pure;
  write = λ n p a c. Runs-pure;
  alloc = λ n. Runs-pure;
  exec = λ n path argv. Runs-pure;
}

abbrev inode_file : File
inode_file = record {
  type = fd_inode;
  ref = 1;
  readable = true;
  writable = false;
  pipe = 0;
  ip = 0;
  off = 0;
}

abbrev root : Inode
root = record {
  dev = 1;
  inum = 1;
  ref = 2;
  locked = false;
  valid = true;
  type = 1;
  major = 0;
  minor = 0;
  nlink = 1;
  size = 0;
  addrs = [];
}

abbrev fs : Fs
fs = record mounted { icache = root ∷ [] }

abbrev before : Files Sys
before = record {
  table = inode_file ∷ [];
  world = record { fs = fs; ops = 1; ofile = some 0 ∷ none ∷ none ∷ []; cwd = 0 };
}

abbrev after : Files Sys
after = record {
  table = record inode_file { ref = 0; type = fd_none } ∷ [];
  world = record {
    fs = record fs { icache = record root { ref = 1 } ∷ [] };
    ops = 1;
    ofile = none ∷ none ∷ none ∷ [];
    cwd = 0;
  };
}

close_inode : run env (close (some (pos 0))) before ≡ some (pos 0, after)
unfolding run sys_close argfd calls fileclose last_close iput take_lock lift start_op finish_op
close_inode = refl

-- The file of the sample disk, open for writing at its end.
abbrev written_file : File
written_file = record inode_file { writable = true; off = 90 }

abbrev closed : Inode
closed = set_locked false file

abbrev writing : Files Sys
writing = record {
  table = written_file ∷ [];
  world = record { fs = relocked 0 false mounted; ops = 0; ofile = some 0 ∷ []; cwd = 0 };
}

run_ops_lem_example : after.world.ops ≡ before.world.ops
run_ops_lem_example = run_ops_lem env pipes (close (some (pos 0))) before (pos 0) after close_inode

below_one : (i : ℕ) → i < 1 → get_elem? before.world.ofile i ≢ some none
below_one zero l e = ground arith
below_one (suc i) l e = omega arith

fdalloc_lem_example :
    fdalloc 0 before
    ≡ some (
      some 1,
      record before { world = record before.world { ofile = some 0 ∷ some 0 ∷ none ∷ [] } },
    )
fdalloc_lem_example = fdalloc_lem 0 1 before refl below_one

-- The string "A" at 40, and at 8 the vector with its address.
abbrev user : User
user = record {
  mem = λ a. if a == 8 then 40 else if a == 40 then b'A' else 0;
  sz = 4096;
  esp = 100;
}

abbrev vector : List ℕ
vector = 40 ∷ []

argv_lem_example :
    (argv_from maxarg user 8 ≡ some vector) ↔ ((length vector < maxarg) × IsVector user 8 vector)
argv_lem_example = argv_lem user 8 vector

-- ===== src/Sysfile/Requests.antt =====
-- The system calls of OperatingSystem/HW5/sysfile.c with their arguments, and what all of them have
-- in common.
use cpp.Prelude.{
  ℕ, ◌≡◌, refl, Option, none, some, List, [], ◌∷◌, ◌<◌, ◌+◌, ◌≢◌, suc, zero, get_elem?, set, arith,
}
use cpp.Prelude.Int.{ℤ}
use cpp.File.{F, Files}
use cpp.Sysfile.{
  Sys, Env, first_closed, fdalloc, sys_dup, sys_read, sys_write, sys_close, sys_fstat, sys_pipe,
}
use cpp.Sysfile.Link.{sys_link, sys_unlink}
use cpp.Sysfile.Open.{sys_open, sys_mkdir, sys_mknod, sys_chdir}
use cpp.Sysfile.Ops.{Runs, Runs-pure, Runs-pair, Runs-option}
use cpp.Sysfile.Exec.{maxarg, argv_from, sys_exec}
use cpp.Syscall.{User, argint, argstr}
use cpp.Sysfile.Descriptors.{
  EnvRuns, sys_dup_lem, sys_read_lem, sys_write_lem, sys_close_lem, sys_fstat_lem, sys_pipe_lem,
}
use cpp.Sysfile.Link.Ops.{sys_link_lem, sys_unlink_lem}
use cpp.Sysfile.Open.Ops.{sys_open_lem, sys_mkdir_lem, sys_mknod_lem, sys_chdir_lem}

-- A call, with what argint, argptr and argstr give for its arguments; sys_exec fetches its own.
pub data Request : Type 0 where
  dup close : (fd : Option ℤ) → Request
  read write : (fd : Option ℤ) (buf : Option (ℕ × ℤ)) → Request
  fstat : (fd : Option ℤ) (st : Option ℕ) → Request
  link : (old new : Option ℕ) → Request
  unlink mkdir chdir : (path : Option ℕ) → Request
  opens : (path omode : Option ℕ) → Request
  mknod : (path major minor : Option ℕ) → Request
  pipe : (fds : Option ℕ) → Request
  execute : User → Request

unfoldable pub run : Env → Request → F Sys ℤ
run v (dup fd) = sys_dup fd
run v (close fd) = sys_close v fd
run v (read fd buf) = sys_read v fd buf
run v (write fd buf) = sys_write v fd buf
run v (fstat fd st) = sys_fstat v fd st
run v (link old new) = sys_link v old new
run v (unlink path) = sys_unlink v path
run v (mkdir path) = sys_mkdir v path
run v (chdir path) = sys_chdir v path
run v (opens path omode) = sys_open v path omode
run v (mknod path major minor) = sys_mknod v path major minor
run v (pipe fds) = sys_pipe v fds
run v (execute u) = sys_exec v.exec u

sys_exec_lem : {n : ℕ} {v : Env} (h : EnvRuns v) (u : User) → Runs n n (sys_exec v.exec u)
unfolding sys_exec
sys_exec_lem {v = v} h u = Runs-pair (argstr u 0) Runs-pure (λ path l.
    Runs-option (argint u 1) Runs-pure
      (λ a. Runs-option (argv_from maxarg u a) Runs-pure (λ argv. h.exec _ path argv)))

run_keeps : {n : ℕ} {v : Env} (h : EnvRuns v) (c : Request) → Runs n n (run v c)
unfolding run
run_keeps h (dup fd) = sys_dup_lem fd
run_keeps h (close fd) = sys_close_lem h fd
run_keeps h (read fd buf) = sys_read_lem h fd buf
run_keeps h (write fd buf) = sys_write_lem h fd buf
run_keeps h (fstat fd st) = sys_fstat_lem h fd st
run_keeps {v = v} h (link old new) = sys_link_lem v old new
run_keeps {v = v} h (unlink path) = sys_unlink_lem v path
run_keeps {v = v} h (mkdir path) = sys_mkdir_lem v path
run_keeps {v = v} h (chdir path) = sys_chdir_lem v path
run_keeps h (opens path omode) = sys_open_lem h path omode
run_keeps {v = v} h (mknod path major minor) = sys_mknod_lem v path major minor
run_keeps h (pipe fds) = sys_pipe_lem h fds
run_keeps h (execute u) = sys_exec_lem h u

-- Let the calls of pipe.c, and exec, return with as many operations of the log under way as they found.
-- Then so does every system call of sysfile.c that returns, whatever its arguments and the way it fails:
-- it has ended each operation that it began, and no other.
pub run_ops_lem :
    (v : Env)
    → EnvRuns v
    → (c : Request) (k : Files Sys) (r : ℤ) (k' : Files Sys) → run v c k ≡ some (r, k')
    → k'.world.ops ≡ k.world.ops
run_ops_lem v h c k r k' e = (run_keeps h c).at k r k' refl e

first_closed_lem :
    (fs : List (Option ℕ)) (base fd : ℕ)
    → get_elem? fs fd ≡ some none
    → ((i : ℕ) → i < fd → get_elem? fs i ≢ some none)
    → first_closed fs base ≡ some (base + fd)
unfolding first_closed
first_closed_lem [] base fd e h = ground arith
first_closed_lem (none ∷ fs) base zero e h = ground arith
first_closed_lem (none ∷ fs) base (suc fd) e h = elim (h zero (omega arith) refl) [ ]
first_closed_lem (some f ∷ fs) base zero e h = ground arith
first_closed_lem (some f ∷ fs) base (suc fd) e h =
    let rest = first_closed_lem fs (base + 1) fd e (λ i l. h (suc i) (omega arith)) in ground arith

-- `fdalloc` returns the lowest descriptor that is closed and gives it the file, and changes nothing
-- else.
pub fdalloc_lem :
    (f fd : ℕ) (k : Files Sys)
    → get_elem? k.world.ofile fd ≡ some none
    → ((i : ℕ) → i < fd → get_elem? k.world.ofile i ≢ some none)
    → fdalloc f k
      ≡ some
          (some fd, record k { world = record k.world { ofile = set k.world.ofile fd (some f) } })
unfolding fdalloc
fdalloc_lem f fd k e h = let found = first_closed_lem k.world.ofile 0 fd e h in ground arith

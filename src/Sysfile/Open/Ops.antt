-- ===== src/Sysfile/Open/Ops.antt =====
-- The operations that the calls of OperatingSystem/HW5/sysfile.c on paths begin and end, and those of
-- all its calls.
use cpp.Prelude.{arith, ℕ, ◌+◌, ◌==◌, ◌&&◌, not, Option, none, some}
use cpp.Prelude.Int.{pos}
use cpp.Fs.Icache.{inode_at, ilock, iunlock}
use cpp.Fs.Content.{t_dev, iput, iunlockput, t_dir}
use cpp.Sysfile.{Env}
use cpp.Sysfile.Ops.{
  Runs-end, Runs, Runs-bind, Runs-if, Runs-pure, Runs-start, Runs-finish, Runs-lift, Runs-option,
  Runs-cwd,
}
use cpp.Sysfile.Descriptors.{EnvRuns, modify_lem, filealloc_lem, fdalloc_keeps, fileclose_keeps}
use cpp.Sysfile.Link.Ops.{leave_lem, lookup_path_lem, create_lem}
use cpp.Sysfile.Open

open_found_keeps : {n : ℕ} (v : Env) (path omode : ℕ) → Runs n n (Open.open_found v path omode)
unfolding Open.open_found
open_found_keeps v path omode = Runs-bind (lookup_path_lem v path) (λ x.
    Runs-option x Runs-pure (λ i. Runs-bind (Runs-lift (ilock i)) (λ _.
      Runs-bind (Runs-lift (inode_at i)) (λ ip.
        Runs-if ((ip.type == t_dir) && not (omode == 0))
          (Runs-bind (Runs-lift (iunlockput i)) (λ _. Runs-pure)) Runs-pure))))

open_at_keeps :
    {n : ℕ} {v : Env} (h : EnvRuns v) (i omode : ℕ) → Runs (n + 1) n (Open.open_at v i omode)
unfolding Open.open_at
open_at_keeps h i omode = Runs-bind filealloc_lem (λ x. Runs-option x (leave_lem _ _) (λ f.
    Runs-bind (fdalloc_keeps f) (λ y.
      Runs-option y (Runs-bind (fileclose_keeps h f) (λ _. leave_lem _ _)) (λ fd.
        Runs-bind (Runs-lift (iunlock i)) (λ _.
          Runs-bind Runs-finish
            (λ _. Runs-bind (modify_lem f (Open.opened i omode)) (λ _. Runs-pure {a = pos fd})))))))

pub sys_open_lem :
    {n : ℕ} {v : Env} (h : EnvRuns v) (path omode : Option ℕ)
    → Runs n n (Open.sys_open v path omode)
unfolding Open.sys_open
sys_open_lem h none omode = Runs-pure
sys_open_lem h (some path) none = Runs-pure
sys_open_lem {v = v} h (some path) (some omode) = Runs-bind Runs-start (λ _.
    Runs-bind
      (Runs-if (Open.creates omode) (create_lem v path 2 0 0) (open_found_keeps v path omode))
      (λ x. Runs-option x (Runs-end _) (λ i. open_at_keeps h i omode)))

make_node_keeps :
    {n : ℕ} (v : Env) (path type x y : ℕ) → Runs (n + 1) n (Open.make_node v path type x y)
unfolding Open.make_node
make_node_keeps v path type x y =
    Runs-bind (create_lem v path type x y) (λ z. Runs-option z (Runs-end _) (λ i. leave_lem _ _))

pub sys_mkdir_lem : {n : ℕ} (v : Env) (path : Option ℕ) → Runs n n (Open.sys_mkdir v path)
unfolding Open.sys_mkdir
sys_mkdir_lem v path =
    Runs-bind Runs-start (λ _. Runs-option path (Runs-end _) (λ p. make_node_keeps v p t_dir 0 0))

pub sys_mknod_lem : {n : ℕ} (v : Env) (path x y : Option ℕ) → Runs n n (Open.sys_mknod v path x y)
unfolding Open.sys_mknod
sys_mknod_lem v path x y = Runs-bind Runs-start (λ _. Runs-option path (Runs-end _) (λ p.
    Runs-option x (Runs-end _)
      (λ a. Runs-option y (Runs-end _) (λ b. make_node_keeps v p t_dev a b))))

set_cwd_keeps : {n : ℕ} (i : ℕ) → Runs n n (Open.set_cwd i)
unfolding Open.set_cwd
set_cwd_keeps i = record { at = λ k a k' n e. ground arith }

change_dir_keeps : {n : ℕ} (v : Env) (path : ℕ) → Runs (n + 1) n (Open.change_dir v path)
unfolding Open.change_dir
change_dir_keeps v path = Runs-bind (lookup_path_lem v path) (λ x. Runs-option x (Runs-end _) (λ i.
    Runs-bind (Runs-lift (ilock i)) (λ _. Runs-bind (Runs-lift (inode_at i)) (λ ip.
      Runs-if (not (ip.type == t_dir)) (leave_lem _ _) (
        Runs-bind (Runs-lift (iunlock i)) (λ _. Runs-bind Runs-cwd (λ old.
          Runs-bind (Runs-lift (iput old))
            (λ _. Runs-bind Runs-finish (λ _. Runs-bind (set_cwd_keeps i) (λ _. Runs-pure))))))))))

pub sys_chdir_lem : {n : ℕ} (v : Env) (path : Option ℕ) → Runs n n (Open.sys_chdir v path)
unfolding Open.sys_chdir
sys_chdir_lem v path =
    Runs-bind Runs-start (λ _. Runs-option path (Runs-end _) (λ p. change_dir_keeps v p))

-- ===== src/Sysfile/Open.antt =====
-- The opening of files in OperatingSystem/HW5/sysfile.c, the making of directories and devices, and
-- the change of the directory.
pub mod Ops
use cpp.Prelude.{ℕ, ◌/◌, ◌%◌, Bool, ◌==◌, ◌&&◌, ◌||◌, not, if◌then◌else◌, Option, none, some}
use cpp.Prelude.Int.{ℤ, pos, minus_one}
use cpp.File.{F, File, fd_inode, ◌>>=◌, ◌>>◌, pure, modify, filealloc, fileclose}
use cpp.Fs.Icache.{ilock, iunlock}
use cpp.Fs.Content.{t_dev, iput, iunlockput, t_dir}
use cpp.Sysfile.{Sys, Env, lift, start_op, finish_op, get_cwd, inode, calls, fdalloc}
use cpp.Sysfile.Link.{t_file, leave, lookup_path, create}

-- `omode & O_WRONLY`, `omode & O_RDWR` and `omode & O_CREATE`
abbrev pub write_only : ℕ → Bool
write_only omode = omode % 2 == 1

abbrev pub read_write : ℕ → Bool
read_write omode = omode / 2 % 2 == 1

abbrev pub creates : ℕ → Bool
creates omode = omode / 512 % 2 == 1

-- `namei` of a path that is opened: the inode, locked, but for a directory that would be written.
pub open_found : Env → (path omode : ℕ) → F Sys (Option ℕ)
open_found v path omode = do
  found ← lookup_path v path
  elim found [
    | none ↦ pure none
    | some i ↦ do
      lift (ilock i)
      ip ← inode i
      (if (ip.type == t_dir) && not (omode == 0)
          then (do lift (iunlockput i); pure none)
          else pure (some i))
  ]

-- What `f` becomes: its reference is its own.
abbrev pub opened : (i omode : ℕ) → File → File
opened i omode x = record x {
  type = fd_inode;
  ip = i;
  off = 0;
  readable = not (write_only omode);
  writable = write_only omode || read_write omode;
}

-- From `filealloc` on, with the inode locked.
pub open_at : Env → (i omode : ℕ) → F Sys ℤ
open_at v i omode = do
  file ← filealloc
  elim file [
    | none ↦ leave i minus_one
    | some f ↦ do
      fd ← fdalloc f
      elim fd [
        | none ↦ do fileclose (calls v) f; leave i minus_one
        | some n ↦ do lift (iunlock i); finish_op; modify f (opened i omode); pure (pos n)
      ]
  ]

pub sys_open : Env → (path omode : Option ℕ) → F Sys ℤ
sys_open v none omode = pure minus_one
sys_open v (some path) none = pure minus_one
sys_open v (some path) (some omode) = do
  start_op
  found ← if creates omode then create v path t_file 0 0 else open_found v path omode
  elim found [ none ↦ do finish_op; pure minus_one | some i ↦ open_at v i omode ]

-- `create` behind `begin_op`, for mkdir and mknod.
pub make_node : Env → (path type major minor : ℕ) → F Sys ℤ
make_node v path type major minor = do
  found ← create v path type major minor
  elim found [ none ↦ do finish_op; pure minus_one | some i ↦ leave i (pos 0) ]

pub sys_mkdir : Env → Option ℕ → F Sys ℤ
sys_mkdir v path = do
  start_op
  elim path [ none ↦ do finish_op; pure minus_one | some p ↦ make_node v p t_dir 0 0 ]

-- The path, the major and the minor number, where all are fetched.
pub sys_mknod : Env → (path major minor : Option ℕ) → F Sys ℤ
sys_mknod v path major minor = do
  start_op
  elim path [
    | none ↦ do finish_op; pure minus_one
    | some p ↦ elim major [
      | none ↦ do finish_op; pure minus_one
      | some x ↦ elim minor [
        | none ↦ do finish_op; pure minus_one
        | some y ↦ make_node v p t_dev x y
      ]
    ]
  ]

pub set_cwd : ℕ → F Sys (Unit {0})
set_cwd i k = some (tt, record k { world = record k.world { cwd = i } })

pub change_dir : Env → (path : ℕ) → F Sys ℤ
change_dir v path = do
  found ← lookup_path v path
  elim found [
    | none ↦ do finish_op; pure minus_one
    | some i ↦ do
      lift (ilock i)
      ip ← inode i
      (if not (ip.type == t_dir) then leave i minus_one else (do
        lift (iunlock i)
        old ← get_cwd
        lift (iput old)
        finish_op
        set_cwd i
        pure (pos 0)))
  ]

pub sys_chdir : Env → Option ℕ → F Sys ℤ
sys_chdir v path = do
  start_op
  elim path [ none ↦ do finish_op; pure minus_one | some p ↦ change_dir v p ]

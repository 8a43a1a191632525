-- ===== src/Sysfile.antt =====
-- OperatingSystem/HW5/sysfile.c over the open files of File and the file system of Fs. The arguments
-- come as Syscall.Args fetches them: `none` where that fails. `ops` counts the operations that are
-- under way in log.c, whose waits and commits are modelled in Log.
pub mod Ops
pub mod Descriptors
pub mod Link
pub mod Open
pub mod Write
pub mod Exec
pub mod Requests
mod Tests
use cpp.Prelude.{
  ℕ, suc, ◌+◌, ◌-◌, ◌^◌, Bool, ◌==◌, if◌then◌else◌, Option, none, some, List, [], ◌∷◌, get_elem?,
  set,
}
use cpp.Prelude.Int.{ℤ, pos, negsuc, minus_one}
use cpp.Strings.{Bytes}
use cpp.Kalloc.{store}
use cpp.File.{F, Calls, ◌>>=◌, ◌>>◌, pure, filedup, fileclose, fileread, filewrite, filestat}
use cpp.Fs
use cpp.Fs.{Fs, Inode, M}
use cpp.Fs.Icache.{store_half}
use cpp.Fs.Content.{Devsw, Stat}

-- The file system, the operations of log.c, and the process: its files, `none` for a null pointer,
-- and its directory.
pub record Sys : Type 0 where
  pub fs : Fs
  pub ops : ℕ
  pub ofile : List (Option ℕ)
  pub cwd : ℕ

-- What the calls take from elsewhere: the devices, pipe.c, exec, the fuel of paths, and the addresses
-- of the local arrays and of the strings "." and "..".
pub record Env : Type 0 where
  pub devsw : Devsw
  pub pipeclose : ℕ → Bool → F Sys (Unit {0})
  pub piperead : (pipe addr : ℕ) → ℤ → F Sys ℤ
  pub pipewrite : (pipe addr : ℕ) → ℤ → F Sys ℤ
  pub pipealloc : F Sys (Option (ℕ × ℕ))
  pub exec : (path : ℕ) → List ℕ → F Sys ℤ
  pub fuel : ℕ
  pub name : ℕ
  pub de : ℕ
  pub own : ℕ
  pub dot : ℕ
  pub dotdot : ℕ

-- A call of fs.c.
unfoldable pub lift : {A : Type 0} → M A → F Sys A
lift m k = elim (m k.world.fs) [
  | none ↦ none
  | some (a, s) ↦ some (a, record k { world = record k.world { fs = s } })
]

unfoldable pub start_op : F Sys (Unit {0})
start_op k = some (tt, record k { world = record k.world { ops = k.world.ops + 1 } })

unfoldable pub finish_op : F Sys (Unit {0})
finish_op k =
    if k.world.ops == 0
    then none
    else some (tt, record k { world = record k.world { ops = k.world.ops - 1 } })

abbrev pub get_cwd : F Sys ℕ
get_cwd k = some (k.world.cwd, k)

abbrev pub inode : ℕ → F Sys Inode
inode i = lift (Fs.Icache.inode_at i)

abbrev pub change : ℕ → (Inode → Inode) → F Sys (Unit {0})
change i f = lift (Fs.Icache.modify_inode i f)

-- `struct stat` in the memory.
pub put_stat : Stat → Bytes → ℕ → Bytes
put_stat st m a =
    store
      (store_half (store (store (store_half m a st.type) (a + 4) st.dev) (a + 8) st.ino) (a + 12)
        st.nlink)
      (a + 16) st.size

abbrev pub to_count : ℤ → ℕ
to_count (pos n) = n
to_count (negsuc n) = 2 ^ 32 - 1 - n

-- The calls of file.c to log.c, fs.c and pipe.c.
unfoldable pub calls : Env → Calls Sys
unfolding put_stat
calls v = record {
  pipeclose = v.pipeclose;
  piperead = v.piperead;
  pipewrite = v.pipewrite;
  begin_op = start_op;
  end_op = finish_op;
  ilock = λ i. lift (Fs.Icache.ilock i);
  iunlock = λ i. lift (Fs.Icache.iunlock i);
  iput = λ i. lift (Fs.Content.iput i);
  stati = λ i a. lift (λ s. elim (Fs.Content.stati i s) [
    | none ↦ none
    | some (st, s') ↦ some (tt, record s' { mem = put_stat st s'.mem a })
  ]);
  readi = λ i addr off n. lift (Fs.Content.readi v.devsw i addr off (to_count n));
  writei = λ i addr off n. lift (Fs.Content.writei v.devsw i addr off n);
}

-- The descriptor of an argument, where it is one that is open, and the file.
pub argfd : Option ℤ → F Sys (Option (ℕ × ℕ))
argfd (some (pos fd)) k = elim (get_elem? k.world.ofile fd) [
  | some (some f) ↦ some (some (fd, f), k)
  | _ ↦ some (none, k)
]
argfd (some (negsuc n)) k = some (none, k)
argfd none k = some (none, k)

-- The loop of `fdalloc`, from descriptor `fd` on.
pub first_closed : List (Option ℕ) → ℕ → Option ℕ
first_closed [] fd = none
first_closed (none ∷ fs) fd = some fd
first_closed (some f ∷ fs) fd = first_closed fs (fd + 1)

abbrev pub set_fd : (fd : ℕ) → Option ℕ → F Sys (Unit {0})
set_fd fd f k = some (tt, record k { world = record k.world { ofile = set k.world.ofile fd f } })

pub fdalloc : ℕ → F Sys (Option ℕ)
unfolding first_closed
fdalloc f k = elim (first_closed k.world.ofile 0) [
  | none ↦ some (none, k)
  | some fd ↦
      some (some fd, record k { world = record k.world { ofile = set k.world.ofile fd (some f) } })
]

pub sys_dup : Option ℤ → F Sys ℤ
sys_dup arg = do
  x ← argfd arg
  elim x [
    | none ↦ pure minus_one
    | some (_, f) ↦ do
      fd ← fdalloc f
      elim fd [ none ↦ pure minus_one | some n ↦ do filedup f; pure (pos n) ]
  ]

-- The count and the pointer are fetched after the file.
pub sys_read : Env → Option ℤ → Option (ℕ × ℤ) → F Sys ℤ
sys_read v arg buf = do
  x ← argfd arg
  elim x [
    | none ↦ pure minus_one
    | some (_, f) ↦ elim buf [ none ↦ pure minus_one | some (p, n) ↦ fileread (calls v) f p n ]
  ]

pub sys_write : Env → Option ℤ → Option (ℕ × ℤ) → F Sys ℤ
sys_write v arg buf = do
  x ← argfd arg
  elim x [
    | none ↦ pure minus_one
    | some (_, f) ↦ elim buf [ none ↦ pure minus_one | some (p, n) ↦ filewrite (calls v) f p n ]
  ]

pub sys_close : Env → Option ℤ → F Sys ℤ
sys_close v arg = do
  x ← argfd arg
  elim x [
    | none ↦ pure minus_one
    | some (fd, f) ↦ do set_fd fd none; fileclose (calls v) f; pure (pos 0)
  ]

pub sys_fstat : Env → Option ℤ → Option ℕ → F Sys ℤ
sys_fstat v arg buf = do
  x ← argfd arg
  elim x [
    | none ↦ pure minus_one
    | some (_, f) ↦ elim buf [ none ↦ pure minus_one | some st ↦ filestat (calls v) f st ]
  ]

-- Both ends of a pipe are closed where there is no descriptor for them.
pub close_ends : Env → (rf wf : ℕ) → F Sys ℤ
close_ends v rf wf = do fileclose (calls v) rf; fileclose (calls v) wf; pure minus_one

-- `fd[0] = fd0; fd[1] = fd1;`
pub put_fds : (fds n0 n1 : ℕ) → F Sys (Unit {0})
put_fds fds n0 n1 =
    lift (λ s. some (tt, record s { mem = store (store s.mem fds n0) (fds + 4) n1 }))

-- The descriptor of the first end is taken back where there is none for the second.
pub sys_pipe : Env → Option ℕ → F Sys ℤ
sys_pipe v none = pure minus_one
sys_pipe v (some fds) = do
  ends ← v.pipealloc
  elim ends [
    | none ↦ pure minus_one
    | some (rf, wf) ↦ do
      fd0 ← fdalloc rf
      elim fd0 [
        | none ↦ close_ends v rf wf
        | some n0 ↦ do
          fd1 ← fdalloc wf
          elim fd1 [
            | none ↦ do set_fd n0 none; close_ends v rf wf
            | some n1 ↦ do put_fds fds n0 n1; pure (pos 0)
          ]
      ]
  ]

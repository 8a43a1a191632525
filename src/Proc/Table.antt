-- ===== src/Proc/Table.antt =====
-- The process table of proc.c (with struct proc of proc.h) and the operations that scan it under
-- `ptable.lock`. A pointer is its address, and 0 is the null pointer. A function whose body runs
-- from `acquire(&ptable.lock)` to `release(&ptable.lock)` is one function on the table.
pub mod Kill
pub mod Ops
pub mod Pids
pub mod Running
mod Tests
use cpp.Prelude.{
  ℕ, suc, ◌+◌, ◌-◌, ◌*◌, ◌%◌, ◌^◌, ltb, Bool, true, false, ◌&&◌, ◌==◌, if◌then◌else◌, Option, none,
  some, List, [], ◌∷◌, map, modify_at,
}
use cpp.Prelude.Int.{ℤ, pos, negsuc, minus_one}
use cpp.Strings.{Bytes}

-- `enum procstate`
pub data ProcState : Type 0 where
  unused embryo sleeping runnable running zombie : ProcState

abbrev pub is_unused : ProcState → Bool
is_unused unused = true
is_unused _ = false

abbrev pub is_embryo : ProcState → Bool
is_embryo embryo = true
is_embryo _ = false

abbrev pub is_sleeping : ProcState → Bool
is_sleeping sleeping = true
is_sleeping _ = false

abbrev pub is_runnable : ProcState → Bool
is_runnable runnable = true
is_runnable _ = false

abbrev pub is_running : ProcState → Bool
is_running running = true
is_running _ = false

abbrev pub is_zombie : ProcState → Bool
is_zombie zombie = true
is_zombie _ = false

-- `struct trapframe`: the register that fork changes, those that userinit sets, and the rest.
pub record TrapFrame : Type 0 where
  pub eax : ℕ
  pub cs : ℕ
  pub ds : ℕ
  pub es : ℕ
  pub ss : ℕ
  pub eflags : ℕ
  pub esp : ℕ
  pub eip : ℕ
  pub rest : List ℕ

-- `struct context`
pub record Context : Type 0 where
  pub edi : ℕ
  pub esi : ℕ
  pub ebx : ℕ
  pub ebp : ℕ
  pub eip : ℕ

-- `struct proc`. `tf` and `context` are addresses on the kernel stack, and `frame`, `ret` and `saved`
-- what stands there: the trap frame, the word below it, and the context below that. `pid` is the 32
-- bits of the int.
pub record Proc : Type 0 where
  pub sz : ℕ
  pub pgdir : ℕ
  pub kstack : ℕ
  pub state : ProcState
  pub pid : ℕ
  pub parent : ℕ
  pub tf : ℕ
  pub frame : TrapFrame
  pub ret : ℕ
  pub context : ℕ
  pub saved : Context
  pub chan : ℕ
  pub killed : Bool
  pub ofile : List ℕ
  pub cwd : ℕ
  pub name : Bytes
  pub priority : ℤ

-- `ptable`, `nextpid` and `initproc`; `base` is the address that the linker gives `ptable.proc`.
pub record Table : Type 0 where
  pub base : ℕ
  pub procs : List Proc
  pub nextpid : ℕ
  pub initproc : ℕ

-- `nextpid++`, which wraps around.
abbrev pub next_pid : ℕ → ℕ
next_pid n = (n + 1) % 2 ^ 32

-- The int that a process id is, and its bits.
abbrev pub pid_int : ℕ → ℤ
pid_int w = if ltb w (2 ^ 31) then pos w else negsuc (2 ^ 32 - 1 - w)

abbrev pub pid_bits : ℤ → ℕ
pid_bits (pos n) = n
pid_bits (negsuc n) = 2 ^ 32 - 1 - n

abbrev pub nproc : ℕ
nproc = 64

-- `&ptable.proc[i]`; a struct proc takes 128 bytes.
abbrev pub proc_addr : Table → ℕ → ℕ
proc_addr t i = t.base + 128 * i

-- `ptable.proc[i] = f(ptable.proc[i])`
abbrev pub update : Table → ℕ → (Proc → Proc) → Table
update t i f = record t { procs = modify_at f t.procs i }

-- The scan of `allocproc`: the first UNUSED slot, counted from `i`.
unfoldable pub find_unused : List Proc → ℕ → Option ℕ
find_unused [] i = none
find_unused (p ∷ ps) i = if is_unused p.state then some i else find_unused ps (i + 1)

abbrev pub wake : ℕ → Proc → Proc
wake chan p = if is_sleeping p.state && (p.chan == chan) then record p { state = runnable } else p

unfoldable pub wakeup1 : ℕ → Table → Table
wakeup1 chan t = record t { procs = map (wake chan) t.procs }

-- `wakeup` is `wakeup1` under the lock.
pub wakeup : ℕ → Table → Table
unfolding wakeup1
wakeup chan t = wakeup1 chan t

-- What `kill` does to the process that it finds.
abbrev pub kill_proc : Proc → Proc
kill_proc p = record p { killed = true; state = if is_sleeping p.state then runnable else p.state }

-- The scan of `kill`; the result says whether a process was found.
pub kill_loop : ℕ → List Proc → Bool × List Proc
kill_loop pid [] = (false, [])
kill_loop pid (p ∷ ps) =
    let (found, rest) = kill_loop pid ps in
    if p.pid == pid then (true, kill_proc p ∷ ps) else (found, p ∷ rest)

pub kill : ℤ → Table → ℤ × Table
unfolding kill_loop
kill pid t =
    let (found, ps) = kill_loop (pid_bits pid) t.procs in
    (if found then pos 0 else minus_one, record t { procs = ps })

pub chpr_loop : ℕ → ℤ → List Proc → List Proc
chpr_loop pid priority [] = []
chpr_loop pid priority (p ∷ ps) =
    if p.pid == pid then record p { priority = priority } ∷ ps else p ∷ chpr_loop pid priority ps

pub chpr : ℤ → ℤ → Table → ℤ × Table
unfolding chpr_loop
chpr pid priority t = (pid, record t { procs = chpr_loop (pid_bits pid) priority t.procs })

-- The lines that `cps` prints: name, pid, state and priority.
abbrev pub Line : Type 0
Line = Bytes × ℕ × ProcState × ℤ

abbrev pub is_listed : ProcState → Bool
is_listed sleeping = true
is_listed running = true
is_listed runnable = true
is_listed _ = false

pub cps_lines : List Proc → List Line
cps_lines [] = []
cps_lines (p ∷ ps) =
    if is_listed p.state then (p.name, p.pid, p.state, p.priority) ∷ cps_lines ps else cps_lines ps

pub cps : Table → ℤ × List Line
unfolding cps_lines
cps t = (pos 22, cps_lines t.procs)

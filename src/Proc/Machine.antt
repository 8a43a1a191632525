-- ===== src/Proc/Machine.antt =====
-- All processors together with the process table. Each step is a section of proc.c that runs under
-- `ptable.lock`, by the process that a processor runs, by an interrupt, or by the scheduler.
pub mod Invariant
mod Tests
use cpp.Prelude.{ℕ, ◌≡◌, true, ◌==◌, if◌then◌else◌, Option, none, some, get_elem?}
use cpp.Prelude.Int.{ℤ}
use cpp.Proc.Table.{
  unused, embryo, sleeping, runnable, Proc, Table, update, wakeup1, kill, chpr, is_embryo,
  is_zombie,
}
use cpp.Proc.Alloc.{claim}
use cpp.Proc.Exit.{become_zombie, free_slot}
use cpp.Proc.Sched.{choose, next_runnable, dispatch}

-- `cpu c` is the slot of `cpus[c].proc`.
pub record Machine : Type 0 where
  pub table : Table
  pub cpu : ℕ → Option ℕ

abbrev pub assign : (ℕ → Option ℕ) → ℕ → Option ℕ → ℕ → Option ℕ
assign f c v d = if d == c then v else f d

pub data Step : Machine → Machine → Type 0 where
  -- the scheduler, at slot `j`
  dispatches :
      (m : Machine) (c from j : ℕ) (p : Proc) (t : Table)
      → m.cpu c ≡ none
      → next_runnable m.table.procs from 0 ≡ some (j, p)
      → dispatch (choose m.table.procs j p) m.table ≡ some t
      → Step m (record { table = t; cpu = assign m.cpu c (some (choose m.table.procs j p)) })
  -- `yield`, `sleep` and `exit`, up to the switch to the scheduler
  yields :
      (m : Machine) (c i : ℕ)
      → m.cpu c ≡ some i
      → Step m (record {
        table = update m.table i (λ p. record p { state = runnable });
        cpu = assign m.cpu c none;
      })
  sleeps :
      (m : Machine) (c i chan : ℕ)
      → m.cpu c ≡ some i
      → Step m (record {
        table = update m.table i (λ p. record p { chan = chan; state = sleeping });
        cpu = assign m.cpu c none;
      })
  exits :
      (m : Machine) (c i parent : ℕ)
      → m.cpu c ≡ some i
      → Step m (record { table = become_zombie i parent m.table; cpu = assign m.cpu c none })
  -- `sleep`, when it goes on
  tidies :
      (m : Machine) (i : ℕ)
      → Step m (record m { table = update m.table i (λ p. record p { chan = 0 }) })
  wakes : (m : Machine) (chan : ℕ) → Step m (record m { table = wakeup1 chan m.table })
  kills : (m : Machine) (pid : ℤ) → Step m (record m { table = (kill pid m.table).1 })
  changes_priority :
      (m : Machine) (pid pr : ℤ) → Step m (record m { table = (chpr pid pr m.table).1 })
  -- what a process does outside the lock to other fields of its own slot, or of the one that it
  -- fills for a new process: `allocproc`, `userinit`, `fork`, `growproc`, `exit`
  edits :
      (m : Machine) (i : ℕ) (f : Proc → Proc)
      → ((p : Proc) → (f p).state ≡ p.state)
      → ((p : Proc) → (f p).pid ≡ p.pid)
      → Step m (record m { table = update m.table i f })
  -- `allocproc`; then its failure, or the end of `fork`
  claims :
      (m : Machine) (i : ℕ) (t : Table)
      → claim m.table ≡ some (i, t)
      → Step m (record m { table = t })
  gives_back :
      (m : Machine) (i : ℕ) (p : Proc)
      → get_elem? m.table.procs i ≡ some p
      → is_embryo p.state ≡ true
      → Step m
          (record m { table = update m.table i (λ p. record p { kstack = 0; state = unused }) })
  publishes :
      (m : Machine) (i : ℕ) (p : Proc)
      → get_elem? m.table.procs i ≡ some p
      → is_embryo p.state ≡ true
      → Step m (record m { table = update m.table i (λ p. record p { state = runnable }) })
  -- `wait`
  reaps :
      (m : Machine) (i : ℕ) (p : Proc)
      → get_elem? m.table.procs i ≡ some p
      → is_zombie p.state ≡ true
      → Step m (record m { table = update m.table i free_slot })

pub data Reach (m : Machine) : Machine → Type 0 where
  here : Reach m m
  next : {n o : Machine} → Reach m n → Step n o → Reach m o

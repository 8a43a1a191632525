-- ===== src/Proc/Exit.antt =====
-- Processes give up the processor, in proc.c: exit and wait, sleep and yield. What runs between two
-- calls of the scheduler is one function; `others` stands for what the rest of the machine does
-- from a call of `sched` until the scheduler switches back.
pub mod Orphans
pub mod Reparent
pub mod Wait
mod Tests
use cpp.Prelude.{
  ℕ, zero, suc, ◌+◌, Bool, true, false, ◌==◌, ◌||◌, not, if◌then◌else◌, Option, none, some, List,
  [], ◌∷◌, get_elem?, get_or, set,
}
use cpp.Strings.{poke}
use cpp.Proc.Table.{
  unused, sleeping, runnable, zombie, is_running, is_zombie, Proc, Table, nproc, proc_addr, update,
  wakeup1,
}
use cpp.Proc.Kernel.{
  Kernel, M, ◌>>=◌, ◌>>◌, pure, panic, proc_at, get_table, on_table, modify, call, Callees,
}

abbrev pub nofile : ℕ
nofile = 16

-- One slot of `exit`'s loop over the table, for the exiting process at address `self`.
pub reparent_one : ℕ → ℕ → Table → Table
unfolding wakeup1
reparent_one self i t = elim (get_elem? t.procs i) [
  | none ↦ t
  | some p ↦
      if p.parent == self
      then (let t' : Table = update t i (λ q. record q { parent = t.initproc }) in
          if is_zombie p.state then wakeup1 t.initproc t' else t')
      else t
]

-- The loop: `n` slots are left, from `i` on.
pub reparent : ℕ → ℕ → ℕ → Table → Table
unfolding reparent_one
reparent self zero i t = t
reparent self (suc n) i t = reparent self n (i + 1) (reparent_one self i t)

-- What `exit` does under the lock before it calls `sched`.
unfoldable pub become_zombie : ℕ → ℕ → Table → Table
unfolding reparent
become_zombie cur parent t =
    update (reparent (proc_addr t cur) nproc 0 (wakeup1 parent t)) cur
      (λ p. record p { state = zombie })

-- One scan of `wait`: a zombie child, or whether there is a child at all.
pub find_zombie : ℕ → List Proc → ℕ → Bool → Option ℕ × Bool
find_zombie self [] i havekids = (none, havekids)
find_zombie self (p ∷ ps) i havekids =
    let rest = find_zombie self ps (i + 1) (havekids || (p.parent == self)) in
    if p.parent == self then (if is_zombie p.state then (some i, true) else rest) else rest

abbrev pub free_slot : Proc → Proc
free_slot p = record p {
  kstack = 0;
  pid = 0;
  parent = 0;
  name = poke p.name 0 0;
  killed = false;
  state = unused;
}

pub data Waited : Type 0 where
  child : ℕ → Waited
  no_child : Waited
  asleep : Waited

module _ {W : Type 0} where
  -- `sched`: the process must have left the state RUNNING. What other processes do until this
  -- one runs again is `others`.
  unfoldable pub sched : ℕ → (Kernel W → Kernel W) → M W (Unit {0})
  sched cur others = do
    p ← proc_at cur
    if is_running p.state then panic else λ k. some (tt, others k)

  pub yield : ℕ → (Kernel W → Kernel W) → M W (Unit {0})
  unfolding sched
  yield cur others = do modify cur (λ p. record p { state = runnable }); sched cur others

  -- `sleep`, from the moment at which it holds `ptable.lock` and has given up `lk`.
  unfoldable pub sleep : ℕ → ℕ → (Kernel W → Kernel W) → M W (Unit {0})
  unfolding sched
  sleep cur chan others = do
    modify cur (λ p. record p { chan = chan; state = sleeping })
    sched cur others
    modify cur (λ p. record p { chan = 0 })

module _ {W : Type 0} (c : Callees W) where
  open c use {kfree, freevm, fileclose, begin_op, iput, end_op}

  -- The loop of `exit` over the descriptors: `n` are left, from `fd` on.
  pub close_files : ℕ → ℕ → ℕ → M W (Unit {0})
  close_files cur zero fd = pure tt
  close_files cur (suc n) fd = do
    p ← proc_at cur
    (if get_or p.ofile fd 0 == 0 then pure tt else do
      fileclose (get_or p.ofile fd 0)
      modify cur (λ p. record p { ofile = set p.ofile fd 0 }))
    close_files cur n (fd + 1)

  -- `exit` up to its call of `sched`, from which it does not return.
  pub exit : ℕ → M W (Unit {0})
  unfolding close_files become_zombie
  exit cur = do
    t ← get_table
    if proc_addr t cur == t.initproc then panic else do
      close_files cur nofile 0
      begin_op
      p ← proc_at cur
      iput p.cwd
      end_op
      modify cur (λ p. record p { cwd = 0 })
      p ← proc_at cur
      on_table (become_zombie cur p.parent)

  -- What `wait` does with the zombie in slot `i`; the result is its pid.
  pub reap : ℕ → M W ℕ
  reap i = do
    p ← proc_at i
    call (kfree p.kstack)
    call (freevm p.pgdir)
    modify i free_slot
    pure p.pid

  -- One round of `wait`; `none` says that it has to sleep.
  pub wait_round : ℕ → M W (Option Waited)
  unfolding find_zombie reap
  wait_round cur = do
    t ← get_table
    p ← proc_at cur
    let found = find_zombie (proc_addr t cur) t.procs 0 false
    elim found.0 [
      | some i ↦ do pid ← reap i; pure (some (child pid))
      | none ↦ pure (if not found.1 || p.killed then some no_child else none)
    ]

  -- `wait`, each of whose rounds but the last sleeps once, on the process itself, and finds the
  -- machine as one of `others` leaves it. `asleep` says that the list ends while it sleeps.
  pub wait : List (Kernel W → Kernel W) → ℕ → M W Waited
  unfolding wait_round sleep
  wait [] cur = do
    t ← get_table
    r ← wait_round cur
    elim r [
      | some w ↦ pure w
      | none ↦ do
        modify cur (λ p. record p { chan = proc_addr t cur; state = sleeping })
        pure asleep
    ]
  wait (o ∷ others) cur = do
    t ← get_table
    r ← wait_round cur
    elim r [ some w ↦ pure w | none ↦ do sleep cur (proc_addr t cur) o; wait others cur ]

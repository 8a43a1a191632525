-- ===== src/Proc/Alloc.antt =====
-- Processes come to be, in proc.c: allocproc, userinit, growproc and fork. The sections under
-- `ptable.lock` and the calls outside it run in the order of the source.
pub mod Claim
pub mod Failure
pub mod Fork
pub mod Newborn
mod Tests
use cpp.Prelude.{
  ℕ, zero, suc, ◌+◌, ◌-◌, ◌%◌, ◌^◌, Bool, true, false, ◌&&◌, ◌==◌, not, if◌then◌else◌, Option, none,
  some, List, ◌∷◌, replicate, ltb,
}
use cpp.Prelude.Int.{ℤ, pos, negsuc, minus_one}
use cpp.Strings.{Bytes, safestrcpy}
use cpp.Proc.Table.{
  next_pid, pid_int, unused, embryo, runnable, TrapFrame, Table, proc_addr, update, find_unused,
}
use cpp.Proc.Kernel.{
  M, ◌>>=◌, ◌>>◌, pure, panic, proc_at, get_table, put_table, on_table, modify, call, Callees,
}

-- The part of `allocproc` under the lock.
pub claim : Table → Option (ℕ × Table)
unfolding find_unused
claim t = elim (find_unused t.procs 0) [
  | none ↦ none
  | some i ↦ some (
    i,
    record (update t i (λ p. record p { state = embryo; pid = t.nextpid; priority = pos 10 })) {
      nextpid = next_pid t.nextpid;
    },
  )
]

-- The addresses on a new kernel stack: the trap frame (76 bytes) at the top, the word that
-- `forkret` returns to below it, and the context (20 bytes) below that.
abbrev pub trap_frame_at : ℕ → ℕ
trap_frame_at kstack = kstack + 4096 - 76

abbrev pub context_at : ℕ → ℕ
context_at kstack = kstack + 4096 - 76 - 4 - 20

-- Copying a name between two arrays of 16 bytes, laid side by side.
pub copy_name : Bytes → Bytes → Bytes
copy_name src dst =
    λ i. safestrcpy (λ j. if ltb j 16 then src j else dst (j - 16)) 16 0 (pos 16) (16 + i)

-- The frame that `userinit` builds: user segments, interrupts on, the stack pointer at the end
-- of the one page, the program counter at its start, and zeros.
abbrev user_frame : TrapFrame
user_frame = record {
  eax = 0;
  cs = 0x1b;
  ds = 0x23;
  es = 0x23;
  ss = 0x23;
  eflags = 0x200;
  esp = 4096;
  eip = 0;
  rest = replicate 11 0;
}

-- `sz + n` as an unsigned 32-bit sum.
abbrev pub add_int : ℕ → ℤ → ℕ
add_int sz (pos n) = (sz + n) % 2 ^ 32
add_int sz (negsuc n) = (sz + 2 ^ 32 - suc n) % 2 ^ 32

abbrev pub is_zero : ℤ → Bool
is_zero (pos zero) = true
is_zero _ = false

abbrev pub clear_eax : TrapFrame → TrapFrame
clear_eax f = record f { eax = 0 }

module _ {W : Type 0} (c : Callees W) where
  open c use {
    trapret, forkret, kalloc, kfree, copyuvm, allocuvm, deallocuvm, setupkvm, inituvm, filedup,
    idup, namei_root,
  }

  -- The stack that `allocproc` gives to slot `i`, or the slot given back.
  pub stack_setup : ℕ → ℕ → M W (Option ℕ)
  stack_setup i stack =
      if stack == 0
      then (do modify i (λ p. record p { kstack = 0; state = unused }); pure none)
      else (do
        modify i (λ p. record p {
          kstack = stack;
          tf = trap_frame_at stack;
          ret = trapret;
          context = context_at stack;
          saved = record { edi = 0; esi = 0; ebx = 0; ebp = 0; eip = forkret };
        })
        pure (some i))

  pub allocproc : M W (Option ℕ)
  unfolding claim stack_setup
  allocproc k = elim (claim k.table) [
    | none ↦ some (none, k)
    | some (i, t) ↦ (do put_table t; stack ← call kalloc; stack_setup i stack) k
  ]

  -- The first process, made at boot. Without a slot for it the source dereferences null.
  pub userinit : Bytes → M W (Unit {0})
  unfolding allocproc
  userinit initcode = do
    p ← allocproc
    elim p [
      | none ↦ panic
      | some i ↦ do
        on_table (λ t. record t { initproc = proc_addr t i })
        pgdir ← call setupkvm
        if pgdir == 0 then panic else do
          call (inituvm pgdir)
          modify i (λ p. record p {
            pgdir = pgdir;
            sz = 4096;
            frame = user_frame;
            name = copy_name initcode p.name;
          })
          cwd ← namei_root
          modify i (λ p. record p { cwd = cwd })
          modify i (λ p. record p { state = runnable })
    ]

  pub resize : ℕ → ℕ → ℤ → M W ℕ
  resize pgdir sz (pos zero) = pure sz
  resize pgdir sz (pos (suc n)) = call (allocuvm pgdir sz (add_int sz (pos (suc n))))
  resize pgdir sz (negsuc n) = call (deallocuvm pgdir sz (add_int sz (negsuc n)))

  -- The page table that `switchuvm` loads at the end is no state of the kernel.
  pub growproc : ℕ → ℤ → M W ℤ
  unfolding resize
  growproc cur n = do
    p ← proc_at cur
    sz ← resize p.pgdir p.sz n
    if not (is_zero n) && (sz == 0)
        then pure minus_one
        else do modify cur (λ p. record p { sz = sz }); pure (pos 0)

  -- The loop of `fork` over the open files; a descriptor that the parent does not use keeps what
  -- the child's slot holds there.
  pub dup_files : List ℕ → List ℕ → M W (List ℕ)
  dup_files (f ∷ fs) (g ∷ gs) =
      if f == 0
      then (do rest ← dup_files fs gs; pure (g ∷ rest))
      else (do call (filedup f); rest ← dup_files fs gs; pure (f ∷ rest))
  dup_files _ gs = pure gs

  -- `fork` from its copy of the page table on, for the slot `np` that `allocproc` claimed.
  pub fork_into : ℕ → ℕ → M W ℤ
  unfolding dup_files
  fork_into cur np = do
    p ← proc_at cur
    child ← proc_at np
    pgdir ← call (copyuvm p.pgdir p.sz)
    if pgdir == 0
        then (do
          call (kfree child.kstack)
          modify np (λ q. record q { pgdir = 0; kstack = 0; state = unused })
          pure minus_one)
        else (do
          t ← get_table
          modify np (λ q. record q {
            pgdir = pgdir;
            sz = p.sz;
            parent = proc_addr t cur;
            frame = clear_eax p.frame;
          })
          files ← dup_files p.ofile child.ofile
          modify np (λ q. record q { ofile = files })
          call (idup p.cwd)
          modify np (λ q. record q { cwd = p.cwd; name = copy_name p.name q.name })
          modify np (λ q. record q { state = runnable })
          pure (pid_int child.pid))

  pub fork : ℕ → M W ℤ
  unfolding allocproc fork_into
  fork cur = do slot ← allocproc; elim slot [ none ↦ pure minus_one | some np ↦ fork_into cur np ]

-- ===== src/Proc/Alloc/Tests.antt =====
-- Runs of allocproc and fork on a small table, and the theorems at such inputs.
use cpp.Prelude.{
  ℕ, zero, suc, ◌-◌, none, replicate, ◌≡◌, ◌≢◌, refl, inl, inr, true, false, some, [], ◌∷◌,
  get_elem?, arith,
}
use cpp.Prelude.Int.{pos, minus_one}
use cpp.Proc.Table.{is_unused, runnable, Proc, Table, update, find_unused, kill}
use cpp.Proc.Table.Pids.{IsValid, NoNewPids}
use cpp.Proc.Kernel.{Kernel, Callees}
use cpp.Proc.Alloc.{claim, fork, clear_eax, add_int}
use cpp.Proc.Alloc.Claim.{claimed, claim-IsValid}
use cpp.Proc.Alloc.Failure.{fork-failure}
use cpp.Proc.Alloc.Fork.{DupsOpen, inherit, fork-child}
use cpp.Proc.Alloc.Newborn.{kill-claim_killed}
use cpp.File.{File, Files, fd_inode, filedup}
use cpp.File.Refs.{IsOpen, filedup-IsOpen}
use cpp.Fs.{Fs}
use cpp.Fs.Icache.{idup}
use cpp.Fs.Sample.{mounted}
use cpp.Proc.Sample.{slot, family, nobody, callees, machine}

abbrev claimed_table : Table
claimed_table = record (update family 4 (claimed 5)) { nextpid = 6 }

family-claim : claim family ≡ some (4, claimed_table)
unfolding claim find_unused
family-claim = refl

nobody-free : find_unused nobody.procs 0 ≡ some 0
unfolding find_unused
nobody-free = refl

nobody-IsValid : IsValid nobody
nobody-IsValid = record {
  counter = omega arith;
  bound = λ i p l. absurd (free i p l.at l.in_use);
  distinct = λ i j p q l k ne. absurd (free i p l.at l.in_use);
}
  where
    free : (i : ℕ) (p : Proc) → get_elem? nobody.procs i ≡ some p → is_unused p.state ≢ false
    free zero p at used = ground arith
    free (suc zero) p at used = ground arith
    free (suc (suc i)) p at used = ground arith

-- One process, and then two.
abbrev single : Table
single = record (update nobody 0 (claimed 1)) { nextpid = 2 }

abbrev pair : Table
pair = record (update single 1 (claimed 2)) { nextpid = 3 }

nobody-claim : claim nobody ≡ some (0, single)
unfolding claim find_unused
nobody-claim = refl

single-claim : claim single ≡ some (1, pair)
unfolding claim find_unused
single-claim = refl

single-IsValid : IsValid single
single-IsValid = claim-IsValid nobody nobody-claim (omega arith) nobody-IsValid

-- A negative number of bytes shrinks a process.
growproc_shrinks : add_int 4096 minus_one ≡ 4095
growproc_shrinks = refl

-- The table of open files of file.c and the inodes of fs.c behind `filedup` and `idup`. A pointer to an
-- open file is its number and 1.
abbrev calls : Callees (Files Fs)
calls = record {
  trapret = 11;
  forkret = 12;
  kalloc = λ w. some (0x8000, w);
  kfree = λ a w. some (tt, w);
  copyuvm = λ d n w. some (0x9000, w);
  freevm = λ a w. some (tt, w);
  allocuvm = λ d o n w. some (n, w);
  deallocuvm = λ d o n w. some (n, w);
  setupkvm = λ w. some (0x9000, w);
  inituvm = λ d w. some (tt, w);
  filedup = λ f. filedup (f - 1);
  idup = λ i w. elim (idup i w.world) [
    | none ↦ none
    | some (_, s) ↦ some (tt, record w { world = s })
  ];
  fileclose = λ f k. some (tt, k);
  begin_op = λ k. some (tt, k);
  iput = λ i k. some (tt, k);
  end_op = λ k. some (tt, k);
  namei_root = λ k. some (9, k);
}

abbrev opened : File
opened = record {
  type = fd_inode;
  ref = 1;
  readable = true;
  writable = true;
  pipe = 0;
  ip = 0;
  off = 0;
}

abbrev parent : Kernel (Files Fs)
parent = record { table = family; world = record { table = replicate 6 opened; world = mounted } }

idups : (i : ℕ) (w : Files Fs) → (w' : Files Fs) × (calls.idup i w ≡ some (tt, w'))
unfolding idup
idups i w = (_, refl)

dups : DupsOpen calls (λ f. IsOpen (f - 1))
dups f w o = let (w', e, keeps) = filedup-IsOpen (f - 1) w o in (w', e, λ g. keeps (g - 1))

fork-child_example :
    (k' : Kernel (Files Fs)) × (q : Proc) × (fork calls 1 parent ≡ some (pos 5, k'))
    × (get_elem? k'.table.procs 4 ≡ some q)
    × (q.state ≡ runnable)
    × (q.pid ≡ 5)
    × (q.parent ≡ 1128)
    × (q.frame ≡ clear_eax slot.frame)
    × (q.sz ≡ 4096)
    × (q.cwd ≡ 9)
    × (q.pgdir ≡ 0x9000)
    × (q.kstack ≡ 0x8000)
    × ((old : Proc)
        → get_elem? family.procs 4 ≡ some old
        → q.ofile ≡ inherit (5 ∷ 0 ∷ []) old.ofile)
fork-child_example =
    fork-child calls (λ f. IsOpen (f - 1)) dups idups 1 4 0x9000 0x8000 parent refl refl
      family-claim refl (λ e. omega arith) refl (λ e. omega arith)
      (λ ne. (opened, refl, λ e. omega arith), (λ ne. absurd (ne refl), tt))

fork-failure_example :
    (k' : Kernel ℕ) × (fork (callees true) 1 machine ≡ some (minus_one, k'))
    × NoNewPids family.procs k'.table.procs
fork-failure_example =
    fork-failure (callees true) 1 machine refl refl
      (inr (4, claimed_table, 0, 0x9000, family-claim, refl, inl refl))

kill-claim_killed_example :
    ((kill (pos 0) nobody).0 ≡ pos 0)
    × ((t' : Table) × (q : Proc) × (claim (kill (pos 0) nobody).1 ≡ some (0, t'))
        × (get_elem? t'.procs 0 ≡ some q)
        × (q.pid ≡ 1)
        × (q.killed ≡ true))
kill-claim_killed_example =
    kill-claim_killed nobody 0 nobody-free refl refl (λ j q l at. absurd (omega arith))

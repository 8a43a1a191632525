-- ===== src/Proc/Machine/Tests.antt =====
-- A run from boot to a process that runs.
use cpp.Prelude.{ℕ, zero, suc, ◌<◌, ◌^◌, ◌≡◌, refl, true, get_elem?, arith, some, none}
use cpp.Proc.Table.{runnable, running, Proc, Table, update, find_unused, is_unused}
use cpp.Proc.Alloc.Claim.{claimed}
use cpp.Proc.Alloc.Newborn.{claim_at}
use cpp.Proc.Sched.{choose_loop, choose, next_runnable, dispatch}
use cpp.Proc.Machine.{Machine, assign, claims, edits, publishes, dispatches, Reach, here, next}
use cpp.Proc.Machine.Invariant.{IsSafe, Boots, births, claimed_by, Reach-IsSafe}
use cpp.Proc.Sample.{slot, nobody}

abbrev booted : Machine
booted = record { table = nobody; cpu = λ c. none }

booted-Boots : Boots booted
booted-Boots = record { first_pid = refl; slots = free; idle = λ c. refl }
  where
    free : (i : ℕ) (p : Proc) → get_elem? nobody.procs i ≡ some p → is_unused p.state ≡ true
    free zero p at = ground arith
    free (suc zero) p at = ground arith
    free (suc (suc i)) p at = ground arith

nobody-free : find_unused nobody.procs 0 ≡ some 0
unfolding find_unused
nobody-free = refl

-- The new process, with a stack and a page directory.
abbrev filled : Proc → Proc
filled p = record p { kstack = 0x1000; pgdir = 0x2000 }

abbrev newborn : Table
newborn = update (record (update nobody 0 (claimed 1)) { nextpid = 2 }) 0 filled

abbrev ready : Table
ready = update newborn 0 (λ p. record p { state = runnable })

abbrev started : Machine
started = record {
  table = update ready 0 (λ p. record p { state = running });
  cpu = assign (λ c. none) 3 (some 0);
}

ready-next_runnable :
    next_runnable ready.procs 0 0 ≡ some (0, record (filled (claimed 1 slot)) { state = runnable })
unfolding next_runnable
ready-next_runnable = refl

chosen : choose ready.procs 0 (record (filled (claimed 1 slot)) { state = runnable }) ≡ 0
unfolding choose choose_loop
chosen = refl

run : Reach booted started
unfolding choose choose_loop next_runnable dispatch
run =
    next
      (next
        (next (next here (claims booted 0 _ (claim_at nobody 0 nobody-free)))
          (edits _ 0 filled (λ p. refl) (λ p. refl)))
        (publishes _ 0 (filled (claimed 1 slot)) refl refl))
      (dispatches _ 3 0 0 (record (filled (claimed 1 slot)) { state = runnable }) started.table refl
        ready-next_runnable refl)

run-births : births run ≡ 1
unfolding births run claimed_by
run-births = refl

Reach-IsSafe_example : IsSafe started × (started.table.nextpid < 2 ^ 31)
Reach-IsSafe_example = Reach-IsSafe booted-Boots run (omega (arith, run-births))

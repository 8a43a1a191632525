-- ===== src/Proc/Exit/Tests.antt =====
-- Runs of exit and wait on a small table, and the theorems at such inputs.
use cpp.Prelude.{ℕ, ◌≡◌, refl, inr, false, some, [], ◌==◌, if◌then◌else◌, get_elem?, arith}
use cpp.Proc.Table.{runnable, zombie, Proc}
use cpp.Proc.Kernel.{Kernel}
use cpp.Proc.Exit.{child, find_zombie, become_zombie, wait, wait_round, reap}
use cpp.Proc.Exit.Orphans.{become_zombie-parent, become_zombie-wakes}
use cpp.Proc.Exit.Wait.{exit-find_zombie}
use cpp.Proc.Sample.{process, family, callees, machine}

-- Process 2 waits, and reaps process 4.
wait_reaps : (k : Kernel ℕ) × (wait (callees false) [] 1 machine ≡ some (child 4, k))
unfolding wait wait_round reap find_zombie
wait_reaps = (_, refl)

become_zombie-parent_example :
    (q : Proc) × (get_elem? (become_zombie 1 1000 family).procs 2 ≡ some q)
    × (q.parent ≡ (if 1128 == 1128 then 1000 else 1128))
    × (q.pid ≡ 3)
become_zombie-parent_example =
    become_zombie-parent family 1 1000 (λ e. omega (arith, e)) refl 2 (λ e. omega (arith, e)) refl

-- init waits, and inherits the zombie in slot 3.
become_zombie-wakes_example :
    (q : Proc) × (get_elem? (become_zombie 1 1000 family).procs 0 ≡ some q) × (q.state ≡ runnable)
become_zombie-wakes_example =
    become_zombie-wakes family 1 1000 (λ e. omega (arith, e)) refl 0 (λ e. omega (arith, e)) refl
      refl (inr (refl, (3, process zombie 4 1128, refl, refl, refl)))

exit-find_zombie_example :
    (i : ℕ) × ((find_zombie 1000 (become_zombie 1 1000 family).procs 0 false).0 ≡ some i)
exit-find_zombie_example =
    exit-find_zombie family 1 (λ e. omega (arith, e)) refl (λ e. omega (arith, e))

-- ===== src/Proc/Sched/Tests.antt =====
-- A round of the scheduler on a small table, and the theorem there.
use cpp.Prelude.{ℕ, ◌≡◌, refl, some, [], ◌∷◌}
use cpp.Proc.Table.{running, runnable, Table, update}
use cpp.Proc.Sched.{choose_loop, choose, next_runnable, dispatch, scan, scheduler}
use cpp.Proc.Sched.Best.{AllBest, scheduler-AllBest}
use cpp.Proc.Sample.{family}

-- Process 2 is RUNNABLE too.
abbrev busy : Table
busy = update family 1 (λ p. record p { state = runnable })

-- The process that runs yields at once.
abbrev yield_at_once : ℕ → Table → Table
yield_at_once h t = update t h (λ p. record p { state = runnable })

-- Slot 2 has the smallest number, and runs first; the scan goes on behind it.
one_round :
    scheduler (yield_at_once ∷ []) busy
    ≡ some (yield_at_once 2 (update busy 2 (λ p. record p { state = running })), (busy, 2) ∷ [])
unfolding scheduler scan next_runnable choose choose_loop dispatch
one_round = refl

scheduler-AllBest_example : AllBest ((busy, 2) ∷ [])
scheduler-AllBest_example = scheduler-AllBest (yield_at_once ∷ []) busy one_round

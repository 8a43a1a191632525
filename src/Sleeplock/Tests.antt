-- ===== src/Sleeplock/Tests.antt =====
-- A sleep lock between two processes, and the theorems there.
use cpp.Prelude.{◌≡◌, refl, Bool, some, true, false, [], ◌∷◌}
use cpp.Proc.Table.{running}
use cpp.Proc.Kernel.{Kernel}
use cpp.Proc.Sample.{process, family}
use cpp.Sleeplock.{SleepLock, initsleeplock, acquiresleep}
use cpp.Sleeplock.Handover.{Outcome, acquiresleep_lem}

-- init sleeps on the lock, and process 2 runs. Another process has the lock, and then releases it.
abbrev kernel : Kernel SleepLock
kernel = record { table = family; world = record (initsleeplock 1000) { locked = true; pid = 7 } }

abbrev frees : Kernel SleepLock → Kernel SleepLock
frees k = record k { world = record k.world { locked = false; pid = 0 } }

acquiresleep_lem_example :
    (b : Bool) × (k' : Kernel SleepLock) × (acquiresleep 1 (frees ∷ []) kernel ≡ some (b, k'))
    × Outcome 2 1 1000 (frees ∷ []) kernel b k'
acquiresleep_lem_example =
    acquiresleep_lem 2 1 (frees ∷ []) kernel (λ k h. (h, refl), tt)
      (process running 2 1000, refl, refl)

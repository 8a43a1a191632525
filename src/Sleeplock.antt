-- ===== src/Sleeplock.antt =====
-- OperatingSystem/HW5/sleeplock.c. A function runs under the spin lock inside, which `sleep` gives
-- up: then each of `others` is what the rest of the machine does until the process runs again. The
-- name of the lock is not in the model.
pub mod Handover
mod Tests
use cpp.Prelude.{ℕ, Bool, true, false, if◌then◌else◌, some, List, [], ◌∷◌}
use cpp.Proc.Table.{wakeup, sleeping}
use cpp.Proc.Kernel.{Kernel, M, ◌>>=◌, ◌>>◌, pure, proc_at, modify}
use cpp.Proc.Exit.{sleep}

-- `struct sleeplock`; `base` is its address.
pub record SleepLock : Type 0 where
  pub base : ℕ
  pub locked : Bool
  pub pid : ℕ

abbrev pub initsleeplock : ℕ → SleepLock
initsleeplock base = record { base = base; locked = false; pid = 0 }

abbrev pub on_lock : (SleepLock → SleepLock) → M SleepLock (Unit {0})
on_lock f k = some (tt, record k { world = f k.world })

-- `lk->locked = 1; lk->pid = myproc()->pid`
pub take : ℕ → M SleepLock (Unit {0})
take cur = do me ← proc_at cur; on_lock (λ l. record l { locked = true; pid = me.pid })

-- The result says whether the lock is taken, or the list of others ends while the process sleeps.
pub acquiresleep : ℕ → List (Kernel SleepLock → Kernel SleepLock) → M SleepLock Bool
unfolding take sleep
acquiresleep cur [] k =
    if k.world.locked
    then (do modify cur (λ p. record p { chan = k.world.base; state = sleeping }); pure false) k
    else (do take cur; pure true) k
acquiresleep cur (o ∷ others) k = elim k.world.locked [
  | true ↦ (do sleep cur k.world.base o; acquiresleep cur others) k
  | false ↦ (do take cur; pure true) k
]

pub releasesleep : M SleepLock (Unit {0})
releasesleep k = some (
  tt,
  record {
    table = wakeup k.world.base k.table;
    world = record k.world { locked = false; pid = 0 };
  },
)

-- The test is whether anyone holds the lock.
pub holdingsleep : SleepLock → Bool
holdingsleep l = l.locked

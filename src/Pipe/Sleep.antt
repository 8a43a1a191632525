-- ===== src/Pipe/Sleep.antt =====
-- A call that sleeps in a pipe, and what it relies on while it does.
use cpp.Prelude.{ℕ, ◌≡◌, refl, some, get_elem?, get_elem?-modify_at_self, arith}
use cpp.Proc.Table.{sleeping, Proc, update, wake, wakeup}
use cpp.Proc.Table.Ops.{wakeup-get_elem?}
use cpp.Proc.Kernel.{Kernel}
use cpp.Pipe.{Pipe, sleep_on, doze}

-- The calling process is in the table.
abbrev pub HasProc : ℕ → Kernel Pipe → Type 0
HasProc cur k = (p : Proc) × (get_elem? k.table.procs cur ≡ some p)

-- `ptable.proc[cur]` on the way to sleep, and when it goes on.
abbrev pub fall_asleep : ℕ → ℕ → Kernel Pipe → Kernel Pipe
fall_asleep cur chan k = record k {
  table = update k.table cur (λ p. record p { chan = chan; state = sleeping });
}

abbrev pub wake_up : ℕ → Kernel Pipe → Kernel Pipe
wake_up cur k = record k { table = update k.table cur (λ p. record p { chan = 0 }) }

pub sleep_on_lem :
    (chan : Pipe → ℕ) (cur : ℕ) (o : Kernel Pipe → Kernel Pipe) (k : Kernel Pipe)
    → HasProc cur k
    → sleep_on chan cur o k ≡ some (tt, wake_up cur (o (fall_asleep cur (chan k.world) k)))
unfolding sleep_on
sleep_on_lem chan cur o k (p, at) =
    let f : Proc → Proc = λ p. record p { chan = chan k.world; state = sleeping } in
    ground (arith, get_elem?-modify_at_self f k.table.procs cur at)

pub doze_lem :
    (chan : Pipe → ℕ) (cur : ℕ) (k : Kernel Pipe)
    → doze chan cur k ≡ some (tt, fall_asleep cur (chan k.world) k)
unfolding doze
doze_lem chan cur k = refl

pub HasProc-update :
    (cur : ℕ) (f : Proc → Proc) (k : Kernel Pipe)
    → HasProc cur k
    → HasProc cur (record k { table = update k.table cur f })
HasProc-update cur f k (p, at) = (f p, get_elem?-modify_at_self f k.table.procs cur at)

pub HasProc-wakeup :
    (cur chan : ℕ) (k : Kernel Pipe)
    → HasProc cur k
    → HasProc cur (record k { table = wakeup chan k.table })
HasProc-wakeup cur chan k (p, at) = (wake chan p, wakeup-get_elem? chan cur k.table at)

-- ===== src/Pipe/Close.antt =====
-- `pipeclose`: whom it wakes, and when the page of the pipe is given back.
use cpp.Prelude.{
  ℕ, ◌≡◌, refl, Bool, true, false, ◌&&◌, not, some, get_elem?, if◌then◌else◌, arith, ◌↔◌,
}
use cpp.Proc.Table.{sleeping, runnable, Proc, wakeup}
use cpp.Proc.Table.Ops.{wakeup-get_elem?}
use cpp.Proc.Kernel.{Kernel}
use cpp.Pipe.{Pipe, nread_chan, nwrite_chan, pipeclose}

-- `pipeclose` closes one end and leaves the other and the bytes as they are; each process that
-- sleeps on the other end, to read if the writer closes and to write if the reader does, becomes
-- RUNNABLE; and the page is given back exactly when both ends are closed.
pub pipeclose_lem :
    (writable : Bool) (k : Kernel Pipe)
    → let chan : ℕ = if writable then nread_chan k.world else nwrite_chan k.world in
      (gone : Bool) × (k' : Kernel Pipe) × (pipeclose writable k ≡ some (gone, k'))
      × (k'.world ≡ record k.world {
        readopen = writable && k.world.readopen;
        writeopen = not writable && k.world.writeopen;
      })
      × ((gone ≡ true) ↔ ((k'.world.readopen ≡ false) × (k'.world.writeopen ≡ false)))
      × ((i : ℕ) (p : Proc)
          → get_elem? k.table.procs i ≡ some p
          → p.state ≡ sleeping
          → p.chan ≡ chan
          → (q : Proc) × (get_elem? k'.table.procs i ≡ some q) × (q.state ≡ runnable))
unfolding pipeclose
pipeclose_lem true k = (
  _,
  record {
    table = wakeup (nread_chan k.world) k.table;
    world = record k.world { writeopen = false };
  },
  refl,
  ground arith,
  ground arith,
  λ i p at asleep on. (_, wakeup-get_elem? (nread_chan k.world) i k.table at, ground arith),
)
pipeclose_lem false k = (
  _,
  record {
    table = wakeup (nwrite_chan k.world) k.table;
    world = record k.world { readopen = false };
  },
  refl,
  ground arith,
  ground arith,
  λ i p at asleep on. (_, wakeup-get_elem? (nwrite_chan k.world) i k.table at, ground arith),
)

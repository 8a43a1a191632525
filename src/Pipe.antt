-- ===== src/Pipe.antt =====
-- OperatingSystem/HW5/pipe.c: the ring of 512 bytes between a writer and a reader. The kernel's
-- world is here one struct pipe, beside the process table. A function runs from `acquire` to
-- `release` of the pipe's lock, which `sleep` gives up: then each of `others` is what the rest of
-- the machine does until the process runs again.
pub mod Alloc
pub mod Close
pub mod Receive
pub mod Ring
pub mod Sleep
mod Tests
pub mod Write
use cpp.Prelude.{
  ℕ, zero, suc, ◌+◌, ◌%◌, ◌^◌, Bool, true, false, ◌&&◌, ◌||◌, not, ◌==◌, if◌then◌else◌, List, [],
  ◌∷◌, get_or, set, some, length,
}
use cpp.Prelude.Int.{ℤ, pos, minus_one}
use cpp.Proc.Table.{wakeup, sleeping}
use cpp.Proc.Kernel.{Kernel, M, ◌>>=◌, ◌>>◌, pure, proc_at, modify}
use cpp.Proc.Exit.{sleep}

abbrev pub pipesize : ℕ
pipesize = 512

-- `struct pipe` without its lock; the counters are unsigned 32-bit numbers. `base` is its address.
pub record Pipe : Type 0 where
  pub base : ℕ
  pub bytes : List ℕ
  pub nread : ℕ
  pub nwrite : ℕ
  pub readopen : Bool
  pub writeopen : Bool

-- `&p->nread` and `&p->nwrite`, behind the lock (52 bytes) and the bytes.
abbrev pub nread_chan : Pipe → ℕ
nread_chan p = p.base + 564

abbrev pub nwrite_chan : Pipe → ℕ
nwrite_chan p = p.base + 568

-- The pipe that `pipealloc` makes in a new page.
pub fresh : ℕ → List ℕ → Pipe
fresh base page = record {
  base = base;
  bytes = page;
  nread = 0;
  nwrite = 0;
  readopen = true;
  writeopen = true;
}

abbrev pub is_full : Pipe → Bool
is_full p = p.nwrite == (p.nread + pipesize) % 2 ^ 32

abbrev pub is_empty : Pipe → Bool
is_empty p = p.nread == p.nwrite

-- `p->data[p->nwrite++ % PIPESIZE] = b`
pub put : ℕ → Pipe → Pipe
put b p = record p { bytes = set p.bytes (p.nwrite % pipesize) b; nwrite = (p.nwrite + 1) % 2 ^ 32 }

-- `p->data[p->nread++ % PIPESIZE]`
pub next_byte : Pipe → ℕ
next_byte p = get_or p.bytes (p.nread % pipesize) 0

pub advance : Pipe → Pipe
advance p = record p { nread = (p.nread + 1) % 2 ^ 32 }

abbrev pub get_pipe : M Pipe Pipe
get_pipe k = some (k.world, k)

abbrev pub on_pipe : (Pipe → Pipe) → M Pipe (Unit {0})
on_pipe f k = some (tt, record k { world = f k.world })

abbrev pub wake_on : (Pipe → ℕ) → M Pipe (Unit {0})
wake_on chan k = some (tt, record k { table = wakeup (chan k.world) k.table })

abbrev pub Others : Type 0
Others = List (Kernel Pipe → Kernel Pipe)

-- A call returns a number, or is still asleep when the list of others ends.
pub data Written : Type 0 where
  wrote : ℤ → Written
  asleep : Written

-- The body of `while(full)`, up to the call of `sleep`: whether the call has to fail.
pub must_fail : ℕ → M Pipe Bool
must_fail cur = do p ← get_pipe; me ← proc_at cur; pure (not p.readopen || me.killed)

-- `sleep(&p->nwrite, &p->lock)`
pub sleep_on : (Pipe → ℕ) → ℕ → (Kernel Pipe → Kernel Pipe) → M Pipe (Unit {0})
unfolding sleep
sleep_on chan cur o k = sleep cur (chan k.world) o k

-- Falling asleep with no word of what others do.
pub doze : (Pipe → ℕ) → ℕ → M Pipe (Unit {0})
doze chan cur k = modify cur (λ q. record q { chan = chan k.world; state = sleeping }) k

-- The loop of `pipewrite` over the bytes that are left; `n` is the size of the whole call.
pub write_loop : ℕ → ℤ → List ℕ → Others → M Pipe Written
unfolding put must_fail sleep_on doze
write_loop cur n [] others k = (do wake_on nread_chan; pure (wrote n)) k
write_loop cur n (b ∷ bs) [] k = elim (is_full k.world) [
  | false ↦ (do on_pipe (put b); write_loop cur n bs []) k
  | true ↦
      (do
        bad ← must_fail cur
        if bad
            then pure (wrote minus_one)
            else do wake_on nread_chan; doze nwrite_chan cur; pure asleep)
        k
]
write_loop cur n (b ∷ bs) (o ∷ others) k = elim (is_full k.world) [
  | false ↦ (do on_pipe (put b); write_loop cur n bs (o ∷ others)) k
  | true ↦
      (do
        bad ← must_fail cur
        if bad then pure (wrote minus_one) else do
          wake_on nread_chan
          sleep_on nwrite_chan cur o
          write_loop cur n (b ∷ bs) others)
        k
]

pub pipewrite : ℕ → List ℕ → Others → M Pipe Written
unfolding write_loop
pipewrite cur bytes others = write_loop cur (pos (length bytes)) bytes others

-- The bytes that `piperead` stores; their number is what it returns.
pub data Read : Type 0 where
  got : List ℕ → Read
  failed : Read
  waits : Read

-- The copying loop of `piperead`, for at most `n` bytes.
pub copy_loop : ℕ → Pipe → List ℕ × Pipe
unfolding next_byte advance
copy_loop zero p = ([], p)
copy_loop (suc n) p =
    let rest : List ℕ × Pipe = copy_loop n (advance p) in
    if is_empty p then ([], p) else (next_byte p ∷ rest.0, rest.1)

pub take_bytes : ℕ → M Pipe Read
unfolding copy_loop
take_bytes n k =
    let (bytes, p) = copy_loop n k.world in
    (do wake_on nwrite_chan; pure (got bytes)) (record k { world = p })

pub piperead : ℕ → ℕ → Others → M Pipe Read
unfolding take_bytes sleep_on doze
piperead cur n [] k =
    if is_empty k.world && k.world.writeopen
    then (do
      me ← proc_at cur
      if me.killed then pure failed else do doze nread_chan cur; pure waits)
        k
    else take_bytes n k
piperead cur n (o ∷ others) k = elim (is_empty k.world && k.world.writeopen) [
  | true ↦
      (do
        me ← proc_at cur
        if me.killed then pure failed else do sleep_on nread_chan cur o; piperead cur n others)
        k
  | false ↦ take_bytes n k
]

-- `pipeclose`; the result says that the page of the pipe goes to `kfree`.
pub pipeclose : Bool → M Pipe Bool
pipeclose writable = do
  (if writable
      then (do on_pipe (λ p. record p { writeopen = false }); wake_on nread_chan)
      else (do on_pipe (λ p. record p { readopen = false }); wake_on nwrite_chan))
  p ← get_pipe
  pure (not p.readopen && not p.writeopen)

-- ===== src/Log.antt =====
-- OperatingSystem/HW5/log.c, the redo log of the file system. A block is its 128 words of 32 bits.
-- The layer below is `Store`: what bread gives and what bwrite puts on the disk. The machine may
-- stop at any block write: `power` counts the writes that still reach the disk.
pub mod Budget
pub mod Commit
pub mod Crash
pub mod Header
pub mod Install
pub mod Recover
pub mod Space
mod Tests
use cpp.Prelude.{
  ℕ, zero, suc, ◌+◌, ◌*◌, Bool, true, false, ◌||◌, ltb, leb, ◌==◌, if◌then◌else◌, List, [], ◌∷◌,
  ◌++◌, length, some,
}
use cpp.Prelude.Int.{ℤ, pos, negsuc}
use cpp.Proc.Table.{wakeup, sleeping}
use cpp.Proc.Kernel.{Kernel, M, ◌>>=◌, ◌>>◌, pure, panic, modify}
use cpp.Proc.Exit.{sleep}
use cpp.Blocks.{Block, Store, bread, bwrite}

abbrev pub logsize : ℕ
logsize = 30

abbrev pub maxopblocks : ℕ
maxopblocks = 10

-- `struct log` without its lock and device; `base` is its address. `blocks` are the `lh.n` entries
-- of `lh.block` that are in use.
pub record Log : Type 0 where
  pub base : ℕ
  pub start : ℕ
  pub size : ℕ
  pub outstanding : ℤ
  pub committing : Bool
  pub blocks : List ℕ

-- The log in memory and the blocks.
pub record World : Type 0 where
  pub log : Log
  pub store : Store

-- The loop of `install_trans`, from log block `tail` on: log blocks go to their home locations.
pub install_from : ℕ → ℕ → List ℕ → Store → Store
install_from start tail [] s = s
install_from start tail (b ∷ bs) s =
    install_from start (tail + 1) bs (bwrite b (bread (start + tail + 1) s) s)

pub install_trans : Log → Store → Store
unfolding install_from
install_trans l s = install_from l.start 0 l.blocks s

-- The loop of `write_log`: modified blocks go from the cache to the log.
pub write_log_from : ℕ → ℕ → List ℕ → Store → Store
write_log_from start tail [] s = s
write_log_from start tail (b ∷ bs) s =
    write_log_from start (tail + 1) bs (bwrite (start + tail + 1) (bread b s) s)

pub write_log : Log → Store → Store
unfolding write_log_from
write_log l s = write_log_from l.start 0 l.blocks s

-- Words `i`, `i + 1`, … of a block are set to the list.
pub set_words : ℕ → List ℕ → Block → Block
set_words i [] b = b
set_words i (w ∷ ws) b = set_words (i + 1) ws (λ j. if j == i then w else b j)

-- The header block: the number of entries, and the entries.
pub write_head : Log → Store → Store
unfolding set_words
write_head l s = bwrite l.start (set_words 0 (length l.blocks ∷ l.blocks) (bread l.start s)) s

pub get_words : ℕ → ℕ → Block → List ℕ
get_words i zero b = []
get_words i (suc n) b = b i ∷ get_words (i + 1) n b

pub read_head : Log → Store → Log
unfolding get_words
read_head l s = let b : Block = bread l.start s in record l { blocks = get_words 1 (b 0) b }

pub recover_from_log : World → World
recover_from_log w =
    let l : Log = read_head w.log w.store in
    let l' : Log = record l { blocks = [] } in
    record { log = l'; store = write_head l' (install_trans l w.store) }

-- `initlog`, with the place and the size of the log as the superblock has them.
pub initlog : (start size : ℕ) → World → World
unfolding recover_from_log
initlog start size w =
    recover_from_log (record w { log = record w.log { start = start; size = size } })

pub commit : World → World
commit w =
    let l : Log = w.log in
    let l' : Log = record l { blocks = [] } in
    if ltb 0 (length l.blocks)
    then record {
      log = l';
      store = write_head l' (install_trans l (write_head l (write_log l w.store)));
    }
    else w

-- `log.lh.n + (log.outstanding + 1) * MAXOPBLOCKS > LOGSIZE`, for a signed count.
abbrev pub might_exhaust : ℕ → ℤ → Bool
might_exhaust n (pos o) = ltb logsize (n + (o + 1) * maxopblocks)
might_exhaust n (negsuc o) = ltb (logsize + o * maxopblocks) n

abbrev pub increment : ℤ → ℤ
increment (pos o) = pos (o + 1)
increment (negsuc zero) = pos 0
increment (negsuc (suc o)) = negsuc o

abbrev pub decrement : ℤ → ℤ
decrement (pos zero) = negsuc 0
decrement (pos (suc o)) = pos o
decrement (negsuc o) = negsuc (suc o)

-- Whether `begin_op` has to wait.
pub must_wait : Log → Bool
must_wait l = l.committing || might_exhaust (length l.blocks) l.outstanding

abbrev pub get_log : M World Log
get_log k = some (k.world.log, k)

abbrev pub on_world : (World → World) → M World (Unit {0})
on_world f k = some (tt, record k { world = f k.world })

abbrev pub on_log : (Log → Log) → M World (Unit {0})
on_log f = on_world (λ w. record w { log = f w.log })

-- `wakeup(&log)`
abbrev pub wake_log : M World (Unit {0})
wake_log k = some (tt, record k { table = wakeup k.world.log.base k.table })

-- `begin_op`, whose every round but the last sleeps once on the log and finds the machine as one
-- of `others` leaves it. The result says whether the operation has begun.
pub begin_op : ℕ → List (Kernel World → Kernel World) → M World Bool
unfolding must_wait sleep
begin_op cur [] k =
    if must_wait k.world.log
    then (do modify cur (λ p. record p { chan = k.world.log.base; state = sleeping }); pure false) k
    else (do on_log (λ l. record l { outstanding = increment l.outstanding }); pure true) k
begin_op cur (o ∷ others) k = elim (must_wait k.world.log) [
  | true ↦ (do sleep cur k.world.log.base o; begin_op cur others) k
  | false ↦ (do on_log (λ l. record l { outstanding = increment l.outstanding }); pure true) k
]

abbrev pub is_zero : ℤ → Bool
is_zero (pos zero) = true
is_zero _ = false

pub end_op : M World (Unit {0})
unfolding commit
end_op = do
  on_log (λ l. record l { outstanding = decrement l.outstanding })
  l ← get_log
  if l.committing
      then panic
      else if is_zero l.outstanding
      then (do
        on_log (λ l. record l { committing = true })
        on_world commit
        on_log (λ l. record l { committing = false })
        wake_log)
      else wake_log

abbrev pub has : ℕ → List ℕ → Bool
has a [] = false
has a (b ∷ bs) = (a == b) || has a bs

abbrev pub below_one : ℤ → Bool
below_one (pos zero) = true
below_one (pos (suc o)) = false
below_one (negsuc o) = true

-- `log_write` for the buffer of block `b`, whose new contents are in the cache; it stays there
-- since it is dirty. A block that is in the log already is absorbed.
pub log_write : ℕ → M World (Unit {0})
log_write b = do
  l ← get_log
  if leb logsize (length l.blocks) || leb l.size (length l.blocks + 1)
      then panic
      else if below_one l.outstanding
      then panic
      else on_log
          (λ l. record l { blocks = if has b l.blocks then l.blocks else l.blocks ++ (b ∷ []) })

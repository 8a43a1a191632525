-- ===== src/Blocks.antt =====
-- The blocks of the disk and their cached copies, as bread and bwrite of bio.c give them to log.c.
use cpp.Prelude.{ℕ, ◌-◌, ◌==◌, if◌then◌else◌}

abbrev pub Block : Type 0
Block = ℕ → ℕ

-- `view` is what `bread` finds in the buffer of a block, `disk` what is on the disk.
pub record Store : Type 0 where
  pub view : ℕ → Block
  pub disk : ℕ → Block
  pub power : ℕ

unfoldable pub bread : ℕ → Store → Block
bread n s = s.view n

abbrev pub put_block : (ℕ → Block) → ℕ → Block → ℕ → Block
put_block f n b m = if m == n then b else f m

-- The contents of a buffer change, and go to the disk if the machine still runs.
unfoldable pub bwrite : ℕ → Block → Store → Store
bwrite n b s = record s {
  view = put_block s.view n b;
  disk = if s.power == 0 then s.disk else put_block s.disk n b;
  power = s.power - 1;
}

-- The machine starts again, with an empty cache, for `power` writes.
abbrev pub boot : ℕ → (ℕ → Block) → Store
boot power disk = record { view = disk; disk = disk; power = power }

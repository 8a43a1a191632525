-- ===== src/Log/Tests.antt =====
-- Runs of the log on a small disk, and the theorems there.
use cpp.Prelude.{
  ℕ, zero, suc, ◌+◌, ◌*◌, ◌≤◌, ◌<◌, ◌≡◌, ◌⊎◌, inr, refl, fun_ext, true, false, ◌==◌, if◌then◌else◌,
  some, none, List, [], ◌∷◌, length, arith,
}
use cpp.Prelude.Int.{pos}
use cpp.Proc.Kernel.{Kernel}
use cpp.Proc.Sample.{family}
use cpp.Blocks.{Block}
use cpp.Log.{Log, World, maxopblocks, has, commit, begin_op, end_op, log_write}
use cpp.Log.Install.{AllHome}
use cpp.Log.Crash.{Clear, Committed}
use cpp.Log.Commit.{Ready, commit-crash}
use cpp.Log.Recover.{recovered, recover_each, recover_from_log-commit}
use cpp.Log.Space.{Reserved, Orderly, begin_op-Reserved}
use cpp.Log.Budget.{log_write-Reserved, end_op-Reserved}

abbrev old : ℕ → Block
old a i = 0

-- Blocks 50 and 60 have changed.
abbrev new : ℕ → Block
new a i = if a == 50 then 5 else if a == 60 then 6 else 0

abbrev log : List ℕ → Log
log blocks = record {
  base = 0x4000;
  start = 2;
  size = 31;
  outstanding = pos 1;
  committing = false;
  blocks = blocks;
}

-- The machine stops after `power` writes.
abbrev world : ℕ → World
world power = record {
  log = log (50 ∷ 60 ∷ []);
  store = record { view = new; disk = old; power = power };
}

world-Ready : (power : ℕ) → Ready 31 (world power)
world-Ready power = record {
  room = omega arith;
  home = at_home;
  empty = refl;
  clean = λ a h out. fun_ext λ i. ground arith;
}
  where
    at_home : AllHome 2 31 (50 ∷ 60 ∷ [])
    at_home zero b e = ground arith
    at_home (suc zero) b e = ground arith
    at_home (suc (suc i)) b e = ground arith

-- The machine stops after one installed block, and then twice in the recovery.
recover_from_log-commit_example :
    let d : ℕ → Block =
      recovered
        (log (50 ∷ 60 ∷ []))
        31
        (recover_each (log (50 ∷ 60 ∷ [])) (1 ∷ 2 ∷ []) (commit (world 4)).store.disk) in
    (4 ≤ 2 → Clear 2 31 old d) × (2 < 4 → Clear 2 31 new d)
recover_from_log-commit_example =
    recover_from_log-commit 31 (world 4) (1 ∷ 2 ∷ []) 31 (world-Ready 4) (omega arith)

commit-crash_example :
    let d : ℕ → Block = (commit (world 4)).store.disk in
    (4 ≤ 2 → Clear 2 31 old d)
    × (0 < 2 → 2 < 4 → 4 ≤ 2 * 2 + 1 → Committed 2 31 (50 ∷ 60 ∷ []) new d)
    × ((length (world 4).log.blocks ≡ 0) ⊎ (2 * 2 + 1 < 4) → Clear 2 31 new d)
commit-crash_example = commit-crash 31 (world 4) (world-Ready 4)

-- One operation is under way, and may write one block more.
abbrev kernel : Kernel World
kernel = record { table = family; world = world 0 }

kernel-Reserved : Reserved (1 ∷ []) kernel.world
kernel-Reserved = record { idle = refl; counted = refl; each = refl; fits = omega arith }

-- The operation begins at once.
kernel-begins : (k : Kernel World) × (begin_op 1 [] kernel ≡ some (true, k))
unfolding begin_op
kernel-begins = (_, refl)

begin_op-Reserved_example :
    (true ≡ false → Orderly kernel-begins.0)
    × (true ≡ true → (shares : List ℕ) × Reserved (maxopblocks ∷ shares) kernel-begins.0.world)
begin_op-Reserved_example =
    begin_op-Reserved 1 [] kernel kernel-begins.0 true (λ i o at k r. absurd (ground arith))
      (inr (1 ∷ [], kernel-Reserved)) kernel-begins.1

-- The same on a log of 30 blocks, as mkfs.c makes it.
abbrev made : Kernel World
made = record kernel { world = record kernel.world { log = record kernel.world.log { size = 30 } } }

made-Reserved : Reserved (1 ∷ []) made.world
made-Reserved = record { idle = refl; counted = refl; each = refl; fits = omega arith }

log_write-Reserved_example :
    (k' : Kernel World) × (log_write 70 made ≡ some (tt, k'))
    × Reserved (0 ∷ []) k'.world
    × (has 70 k'.world.log.blocks ≡ true)
    × (length k'.world.log.blocks + 0 < k'.world.log.size)
log_write-Reserved_example = log_write-Reserved 70 0 [] [] made (omega arith) made-Reserved

end_op-Reserved_example :
    (k' : Kernel World) × (end_op kernel ≡ some (tt, k'))
    × Reserved [] k'.world
    × (length {A = ℕ} [] ≡ 0
        → (k'.world.log.blocks ≡ []) × (k'.world.store ≡ (commit kernel.world).store))
    × (0 < 0
        → (k'.world.log.blocks ≡ kernel.world.log.blocks) × (k'.world.store ≡ kernel.world.store))
end_op-Reserved_example = end_op-Reserved 1 [] [] kernel kernel-Reserved

-- A log of 30 blocks, as mkfs.c makes it, has room for 29. Three operations begin, since they
-- reserve 30, and the block that is the thirtieth panics though it was reserved.
abbrev block_numbers : ℕ → List ℕ
block_numbers zero = []
block_numbers (suc n) = (n + 100) ∷ block_numbers n

abbrev crowded : Kernel World
crowded = record {
  table = family;
  world = record {
    log = record (log (block_numbers 29)) { size = 30; outstanding = pos 3 };
    store = record { view = old; disk = old; power = 0 };
  };
}

crowded-Reserved : Reserved (1 ∷ 0 ∷ 0 ∷ []) crowded.world
crowded-Reserved = record { idle = refl; counted = refl; each = refl; fits = omega arith }

crowded-panics : log_write 88 crowded ≡ none
unfolding log_write
crowded-panics = refl

-- ===== src/Pipe/Write.antt =====
-- `pipewrite` sends its bytes in order, whatever readers do meanwhile.
use cpp.Prelude.{get_elem?, ℕ, ◌≡◌, ◌≢◌, ◌⊎◌, true, Option, some, List, [], ◌∷◌, ◌++◌}
use cpp.Prelude.Int.{ℤ, minus_one}
use cpp.Proc.Table.{Proc, wakeup}
use cpp.Proc.Kernel.{Kernel}
use cpp.Pipe.{Pipe, Others, Written, wrote, asleep, is_full, nread_chan, nwrite_chan}
use cpp.Pipe.Ring.{contents, IsValid}
use cpp.Pipe.Sleep.{HasProc, fall_asleep}

-- What others do while a writer sleeps: they take bytes from the front of the pipe.
abbrev pub Reads : ℕ → (Kernel Pipe → Kernel Pipe) → Type 0
Reads cur o =
    (k : Kernel Pipe)
    → IsValid k.world
    → HasProc cur k
    → IsValid (o k).world
      × HasProc cur (o k)
      × ((taken : List ℕ) × (contents k.world ≡ taken ++ contents (o k).world))

abbrev pub AllRead : ℕ → Others → Type 0
AllRead cur [] = Unit {0}
AllRead cur (o ∷ os) = Reads cur o × AllRead cur os

-- A call of size `n` for the bytes `bs`, begun at a pipe that holds `c`: `sent` is the part that
-- went into the pipe, and `taken` is what has left it since.
pub record Sent (c bs : List ℕ) (n : ℤ) (w : Written) (k : Kernel Pipe) : Type 0 where
  pub valid : IsValid k.world
  pub sent : List ℕ
  pub rest : List ℕ
  pub taken : List ℕ
  pub split : bs ≡ sent ++ rest
  pub fifo : c ++ sent ≡ taken ++ contents k.world
  pub outcome :
      ((w ≡ wrote n) × (rest ≡ [])) ⊎ (((w ≡ wrote minus_one) ⊎ (w ≡ asleep)) × (rest ≢ []))

abbrev pub Ends : (c bs : List ℕ) → ℤ → Option (Written × Kernel Pipe) → Type 0
Ends c bs n r = (w : Written) × (k' : Kernel Pipe) × (r ≡ some (w, k')) × Sent c bs n w k'

module _ (cur : ℕ) (n : ℤ) where
  module _ (b : ℕ) (bs : List ℕ) (k : Kernel Pipe) {p : Proc}
      (at : get_elem? k.table.procs cur ≡ some p) (full : is_full k.world ≡ true) where
    -- The reader is woken, and the writer sleeps.
    abbrev asleep_at : Kernel Pipe
    asleep_at =
        fall_asleep cur (nwrite_chan k.world)
          (record k { table = wakeup (nread_chan k.world) k.table })

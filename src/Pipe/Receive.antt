-- ===== src/Pipe/Receive.antt =====
-- `piperead` receives the bytes of the pipe in order, whatever writers do meanwhile.
use cpp.Prelude.{
  ℕ, zero, suc, ◌<◌, ◌≡◌, ◌⊎◌, refl, inl, inr, true, false, Option, some, List, [], ◌∷◌, ◌++◌, take,
  arith, Bool-cases,
}
use cpp.Proc.Table.{Proc}
use cpp.Proc.Kernel.{Kernel}
use cpp.Pipe.{Pipe, Others, Read, got, failed, waits, is_empty, advance, copy_loop}
use cpp.Pipe.Ring.{contents, IsValid, is_empty_iff, advance_lem}
use cpp.Pipe.Sleep.{HasProc}

contents-empty : (p : Pipe) → IsValid p → is_empty p ≡ true → contents p ≡ []
contents-empty p v e = let none_there = (is_empty_iff p v).0 e in rw none_there

-- The copying loop takes the first `n` bytes, or all if there are fewer.
pub copy_loop_lem :
    (n : ℕ) (p : Pipe)
    → IsValid p
    → IsValid (copy_loop n p).1
      × ((copy_loop n p).0 ≡ take n (contents p))
      × (contents p ≡ (copy_loop n p).0 ++ contents (copy_loop n p).1)
unfolding copy_loop
copy_loop_lem zero p v = (v, refl, refl)
copy_loop_lem (suc n) p v = elim (Bool-cases (is_empty p)) [
  | inl e ↦ let empty = contents-empty p v e in (ground arith, ground (arith, empty), ground arith)
  | inr e ↦
      let (v', more, first) = advance_lem p v (ground (arith, is_empty_iff p v)) in
      let (v'', taken, left) = copy_loop_lem n (advance p) v' in
      (ground arith, ground arith, ground arith)
]

-- What others do while a reader sleeps: they add bytes at the back of the pipe.
abbrev pub Writes : ℕ → (Kernel Pipe → Kernel Pipe) → Type 0
Writes cur o =
    (k : Kernel Pipe)
    → IsValid k.world
    → HasProc cur k
    → IsValid (o k).world
      × HasProc cur (o k)
      × ((added : List ℕ) × (contents (o k).world ≡ contents k.world ++ added))

abbrev pub AllWrite : ℕ → Others → Type 0
AllWrite cur [] = Unit {0}
AllWrite cur (o ∷ os) = Writes cur o × AllWrite cur os

-- A call for `n` bytes, begun at a pipe that holds `c`: `added` came in while it slept, and `bytes`
-- is what it took out.
pub record Received (c : List ℕ) (n : ℕ) (r : Read) (k : Kernel Pipe) : Type 0 where
  pub valid : IsValid k.world
  pub added : List ℕ
  pub bytes : List ℕ
  pub fifo : c ++ added ≡ bytes ++ contents k.world
  pub outcome :
      ((r ≡ got bytes) × (bytes ≡ take n (c ++ added)))
      ⊎ (((r ≡ failed) ⊎ (r ≡ waits)) × (bytes ≡ []))
  pub eof : r ≡ got [] → 0 < n → k.world.writeopen ≡ false

abbrev pub Reply : (c : List ℕ) → ℕ → Option (Read × Kernel Pipe) → Type 0
Reply c n o = (r : Read) × (k' : Kernel Pipe) × (o ≡ some (r, k')) × Received c n r k'

-- ===== src/Proc/Sched.antt =====
-- The scheduler of proc.c: the scan for a RUNNABLE process, the inner scan for the one of highest
-- priority (the smallest number), and the switch to it.
use cpp.Prelude.{
  ℕ, ◌+◌, ◌&&◌, ◌||◌, leb, ◌==◌, if◌then◌else◌, Option, none, some, List, [], ◌∷◌, get_elem?,
}
pub mod Best
mod Tests
use cpp.Prelude.Int.{ℤ, ltb_ℤ}
use cpp.Proc.Table.{running, is_runnable, Proc, Table, update}

-- `highP`: its index in the table and its priority.
abbrev pub HighP : Type 0
HighP = ℕ × ℤ

-- The inner loop, from slot `j` on.
unfoldable pub choose_loop : List Proc → ℕ → HighP → HighP
choose_loop [] j best = best
choose_loop (p ∷ ps) j best =
    choose_loop ps (j + 1)
      (if is_runnable p.state && ltb_ℤ p.priority best.1 then (j, p.priority) else best)

-- `highP` for the process `p` in slot `i`, at which the outer loop stands.
unfoldable pub choose : List Proc → ℕ → Proc → ℕ
unfolding choose_loop
choose ps i p = (choose_loop ps 0 (i, p.priority)).0

-- The outer loop goes on from slot `i` to a RUNNABLE process; `j` counts the slots.
unfoldable pub next_runnable : List Proc → (i j : ℕ) → Option (ℕ × Proc)
next_runnable [] i j = none
next_runnable (p ∷ ps) i j =
    if leb i j && is_runnable p.state then some (j, p) else next_runnable ps i (j + 1)

-- The switch to slot `h`: `switchuvm` panics without a kernel stack or a page table.
unfoldable pub dispatch : ℕ → Table → Option Table
dispatch h t = elim (get_elem? t.procs h) [
  | none ↦ none
  | some p ↦
      if p.kstack == 0 || p.pgdir == 0
      then none
      else some (update t h (λ q. record q { state = running }))
]

-- A run of the outer loop from slot `i`. Each of `runs` is what happens from a switch to the
-- process until it switches back; the loop is cut short where the list ends. The result has each
-- process that was chosen, with the table at that time.
pub scan : List (ℕ → Table → Table) → ℕ → Table → Option (Table × List (Table × ℕ))
unfolding choose next_runnable dispatch
scan [] i t = some (t, [])
scan (run ∷ runs) i t = elim (next_runnable t.procs i 0) [
  | none ↦ some (t, [])
  | some (j, p) ↦
      let h : ℕ = choose t.procs j p in
      elim (dispatch h t) [
        | none ↦ none
        | some t' ↦ elim (scan runs (h + 1) (run h t')) [
          | none ↦ none
          | some (t'', trace) ↦ some (t'', (t, h) ∷ trace)
        ]
      ]
]

-- One round of the scheduler's endless loop.
pub scheduler : List (ℕ → Table → Table) → Table → Option (Table × List (Table × ℕ))
unfolding scan
scheduler runs t = scan runs 0 t

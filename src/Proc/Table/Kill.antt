-- ===== src/Proc/Table/Kill.antt =====
-- `kill`: whom it finds, and what happens to a slot that is not in use.
use cpp.Prelude.{
  ℕ, zero, suc, ◌+◌, ◌<◌, ◌≡◌, ◌≢◌, ◌⊎◌, refl, inl, inr, true, some, List, [], ◌∷◌, get_elem?,
  modify_at, arith,
}
use cpp.Prelude.Int.{pos, minus_one}
use cpp.Proc.Table.{Proc, Table, update, kill_proc, kill_loop, kill, find_unused}
use cpp.Proc.Table.Pids.{kill_loop_lem}

-- `kill` either finds no process with the id, returns -1 and changes nothing, or returns 0 and
-- marks one such process as killed, which becomes RUNNABLE if it slept.
pub kill_lem :
    (pid : ℕ) (t : Table)
    → ((kill (pos pid) t ≡ (minus_one, t))
        × ((i : ℕ) (p : Proc) → get_elem? t.procs i ≡ some p → p.pid ≢ pid))
      ⊎ ((i : ℕ) × (p : Proc) × (get_elem? t.procs i ≡ some p)
          × (p.pid ≡ pid)
          × (kill (pos pid) t ≡ (pos 0, update t i kill_proc)))
unfolding kill
kill_lem pid t = elim (kill_loop_lem pid t.procs) [
  | inl h ↦ inl (rw h.0, h.1)
  | inr (i, p, at, is, e) ↦ inr (i, p, at, is, rw e)
]

-- The first slot whose id is 0 is the one that `kill` of 0 marks.
kill_loop_at :
    (ps : List Proc) (i : ℕ) (pid : ℕ) {p : Proc}
    → get_elem? ps i ≡ some p
    → p.pid ≡ pid
    → ((j : ℕ) (q : Proc) → j < i → get_elem? ps j ≡ some q → q.pid ≢ pid)
    → kill_loop pid ps ≡ (true, modify_at kill_proc ps i)
unfolding kill_loop
kill_loop_at [] i pid at e before = cc
kill_loop_at (p ∷ ps) zero pid at e before = ground arith
kill_loop_at (p ∷ ps) (suc i) pid at e before =
    let rest = kill_loop_at ps i pid at e (λ j q l a. before (suc j) q (omega arith) a) in
    ground (arith, before 0 p, rest)

find_unused-kill_proc :
    (ps : List Proc) (i j : ℕ) → find_unused (modify_at kill_proc ps i) j ≡ find_unused ps j
unfolding find_unused
find_unused-kill_proc [] i j = refl
find_unused-kill_proc (p ∷ ps) zero j = ground arith
find_unused-kill_proc (p ∷ ps) (suc i) j = ground (arith, find_unused-kill_proc ps i (j + 1))

-- An UNUSED slot keeps the id 0, so that `kill(0)` finds it, returns 0 and marks the slot; the
-- slot is still the next that `allocproc` takes.
pub kill_zero :
    (t : Table) (i : ℕ) {p : Proc}
    → find_unused t.procs 0 ≡ some i
    → get_elem? t.procs i ≡ some p
    → p.pid ≡ 0
    → ((j : ℕ) (q : Proc) → j < i → get_elem? t.procs j ≡ some q → q.pid ≢ 0)
    → (kill (pos 0) t ≡ (pos 0, update t i kill_proc))
      × (find_unused (kill (pos 0) t).1.procs 0 ≡ some i)
unfolding kill
kill_zero t i {p} free at e before =
    let found = kill_loop_at t.procs i 0 at e before in
    (rw found, rw (found, find_unused-kill_proc t.procs i 0) free)

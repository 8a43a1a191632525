-- ===== src/Proc/Alloc/Newborn.antt =====
-- `allocproc` leaves `killed` as it finds it in the slot.
use cpp.Prelude.{ℕ, ◌<◌, ◌≡◌, ◌≢◌, refl, true, some, get_elem?, get_elem?-modify_at_self, ap}
use cpp.Prelude.Int.{pos}
use cpp.Proc.Table.{next_pid, Proc, Table, update, kill_proc, find_unused, kill}
use cpp.Proc.Table.Kill.{kill_zero}
use cpp.Proc.Alloc.{claim}
use cpp.Proc.Alloc.Claim.{claimed}

pub claim_at :
    (t : Table) (i : ℕ)
    → find_unused t.procs 0 ≡ some i
    → claim t ≡ some (i, record (update t i (claimed t.nextpid)) { nextpid = next_pid t.nextpid })
unfolding claim
claim_at t i e = rw (e, claim)

-- Where the next slot that `allocproc` takes is the first with the id 0, `kill(0)` returns 0, and
-- the next new process, with its new id, is one that has been killed before it runs.
pub kill-claim_killed :
    (t : Table) (i : ℕ) {p : Proc}
    → find_unused t.procs 0 ≡ some i
    → get_elem? t.procs i ≡ some p
    → p.pid ≡ 0
    → ((j : ℕ) (q : Proc) → j < i → get_elem? t.procs j ≡ some q → q.pid ≢ 0)
    → ((kill (pos 0) t).0 ≡ pos 0)
      × ((t' : Table) × (q : Proc) × (claim (kill (pos 0) t).1 ≡ some (i, t'))
          × (get_elem? t'.procs i ≡ some q)
          × (q.pid ≡ t.nextpid)
          × (q.killed ≡ true))
kill-claim_killed t i {p} free at e before =
    let (killed, still) = kill_zero t i free at e before in
    let t₁ : Table = update t i kill_proc in
    let marked = get_elem?-modify_at_self kill_proc t.procs i at in
    (
      ap (λ r. r.0) killed,
      (
        record (update t₁ i (claimed t₁.nextpid)) { nextpid = next_pid t₁.nextpid },
        claimed t.nextpid (kill_proc p),
        rw killed (claim_at t₁ i (rw killed at still)),
        get_elem?-modify_at_self (claimed t.nextpid) t₁.procs i marked,
        refl,
        refl,
      ),
    )

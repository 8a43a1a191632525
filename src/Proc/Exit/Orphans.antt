-- ===== src/Proc/Exit/Orphans.antt =====
-- What `exit` leaves behind: a zombie, a woken parent, and children that init has adopted.
use cpp.Prelude.{
  sym, ℕ, zero, suc, ◌+◌, ◌≤◌, ◌<◌, ◌≡◌, ◌≢◌, ◌⊎◌, inl, inr, true, some, get_elem?, get_elem?-map,
  get_elem?-modify_at_ne, length, ◌==◌, if◌then◌else◌, arith, ==→eq, Bool-cases,
  lt_length_of_get_elem?,
}
use cpp.Proc.Table.{
  sleeping, runnable, zombie, is_zombie, Proc, Table, nproc, proc_addr, update, wake, wakeup1,
}
use cpp.Proc.Exit.{reparent_one, reparent, become_zombie}
use cpp.Proc.Exit.Reparent.{
  Moved, initproc-reparent_one, Moved-adopt, reparent_one-Moved, reparent-Moved,
}

reparent_one-zombie :
    (self i : ℕ) (t : Table) {c : Proc}
    → get_elem? t.procs i ≡ some c
    → (c.parent == self) ≡ true
    → is_zombie c.state ≡ true
    → reparent_one self i t
      ≡ wakeup1 t.initproc (update t i (λ q. record q { parent = t.initproc }))
unfolding reparent_one
reparent_one-zombie self i t at child dead = rw (at, reparent_one, child, dead)

-- A zombie child in slot `i` wakes init.
reparent_one-wakes :
    (self i l : ℕ) (t : Table) {c s : Proc}
    → t.initproc ≢ self
    → get_elem? t.procs i ≡ some c
    → c.parent ≡ self
    → c.state ≡ zombie
    → get_elem? t.procs l ≡ some s
    → s.state ≡ sleeping
    → s.chan ≡ t.initproc
    → (q : Proc) × (get_elem? (reparent_one self i t).procs l ≡ some q) × (q.state ≡ runnable)
unfolding wakeup1
reparent_one-wakes self i l t {c} {s} ne at child dead e asleep on =
    let yes_child : (c.parent == self) ≡ true = ground arith in
    let yes_zombie : is_zombie c.state ≡ true = ground arith in
    let (q, got, m) = Moved-adopt self t.initproc i l t.procs at yes_child e in
    (
      wake t.initproc q,
      rw (reparent_one-zombie self i t at yes_child yes_zombie)
          (get_elem?-map (wake t.initproc) _ l got),
      ground arith,
    )

reparent-wakes :
    (self n i k l : ℕ) (t : Table) {c s : Proc}
    → t.initproc ≢ self
    → i ≤ k
    → k < i + n
    → get_elem? t.procs k ≡ some c
    → c.parent ≡ self
    → c.state ≡ zombie
    → get_elem? t.procs l ≡ some s
    → s.state ≡ sleeping
    → s.chan ≡ t.initproc
    → (q : Proc) × (get_elem? (reparent self n i t).procs l ≡ some q) × (q.state ≡ runnable)
unfolding reparent
reparent-wakes self zero i k l t ne lo hi at child dead e asleep on = absurd (omega arith)
reparent-wakes self (suc n) i k l t {c} {s} ne lo hi at child dead e asleep on =
    let t' : Table = reparent_one self i t in
    let same = initproc-reparent_one self i t in
    let ne' : t'.initproc ≢ self = ground (arith, same) in
    elim (Bool-cases (i == k)) [
      | inl eq ↦
          let there : get_elem? t.procs i ≡ some c = rw (==→eq i k eq) at in
          let (q, got, up) = reparent_one-wakes self i l t ne there child dead e asleep on in
          let (r, got', m) = reparent-Moved self n (i + 1) l t' ne' got in (r, got', ground arith)
      | inr later ↦
          let (c', at', m) = reparent_one-Moved self i k t ne at in
          let (s', e', m') = reparent_one-Moved self i l t ne e in
          elim m'.state [
            | inl still ↦
                reparent-wakes self n (i + 1) k l t' ne' (ground arith) (ground arith) at'
                  (ground arith) (ground arith) e' (ground arith) (ground (arith, same))
            | inr woken ↦
                let (r, got', m'') = reparent-Moved self n (i + 1) l t' ne' e' in
                (r, got', ground arith)
          ]
    ]

module _ (t : Table) (cur parent : ℕ) (not_init : t.initproc ≢ proc_addr t cur)
    (size : length t.procs ≡ nproc) where
  -- What stands in slot `k` when `exit` calls `sched`, for a slot other than the exiting one.
  after_exit :
      (k : ℕ) {p : Proc}
      → k ≢ cur
      → get_elem? t.procs k ≡ some p
      → (q : Proc) × (get_elem? (become_zombie cur parent t).procs k ≡ some q)
        × Moved (proc_addr t cur) t.initproc true (wake parent p) q
  unfolding become_zombie wakeup1
  after_exit k {p} ne e =
      let (q, at, m) =
        reparent-Moved (proc_addr t cur) nproc 0 k (wakeup1 parent t) not_init
          (get_elem?-map (wake parent) t.procs k e) in
      (
        q,
        rw (get_elem?-modify_at_ne _ _ cur k (λ x. ne (sym x))) at,
        ground (arith, lt_length_of_get_elem? t.procs k e),
      )

  -- When a process that is not init exits, in a table of 64 slots, each other slot keeps its id,
  -- and its parent too unless that is the exiting process, in whose place it gets init.
  pub become_zombie-parent :
      (k : ℕ) {p : Proc}
      → k ≢ cur
      → get_elem? t.procs k ≡ some p
      → (q : Proc) × (get_elem? (become_zombie cur parent t).procs k ≡ some q)
        × (q.parent ≡ (if p.parent == proc_addr t cur then t.initproc else p.parent))
        × (q.pid ≡ p.pid)
  become_zombie-parent k {p} ne e =
      let (q, at, m) = after_exit k ne e in (q, at, ground arith, ground arith)

  -- When a process that is not init exits, in a table of 64 slots, each other process that sleeps
  -- in `wait` for it is RUNNABLE, and so is init if it sleeps in `wait` and a child of the exiting
  -- process is a zombie.
  pub become_zombie-wakes :
      (l : ℕ) {s : Proc}
      → l ≢ cur
      → get_elem? t.procs l ≡ some s
      → s.state ≡ sleeping
      → (s.chan ≡ parent)
        ⊎ ((s.chan ≡ t.initproc)
            × ((k : ℕ) × (c : Proc) × (get_elem? t.procs k ≡ some c)
                × (c.parent ≡ proc_addr t cur)
                × (c.state ≡ zombie)))
      → (q : Proc) × (get_elem? (become_zombie cur parent t).procs l ≡ some q)
        × (q.state ≡ runnable)
  unfolding become_zombie wakeup1
  become_zombie-wakes l {s} ne e asleep (inl on) =
      let (q, at, m) = after_exit l ne e in (q, at, ground arith)
  become_zombie-wakes l {s} ne e asleep (inr (on, (k, c, at, child, dead))) =
      elim (Bool-cases (s.chan == parent)) [
        | inl also ↦ let (q, got, m) = after_exit l ne e in (q, got, ground arith)
        | inr only ↦
            let (q, got, up) =
              reparent-wakes (proc_addr t cur) nproc 0 k l (wakeup1 parent t) not_init (omega arith)
                (omega (arith, lt_length_of_get_elem? t.procs k at))
                (get_elem?-map (wake parent) t.procs k at) (ground arith) (ground arith)
                (get_elem?-map (wake parent) t.procs l e) (ground arith) (ground arith) in
            (q, rw (get_elem?-modify_at_ne _ _ cur l (λ x. ne (sym x))) got, up)
      ]

-- ===== src/Proc/Sched/Best.antt =====
-- The scheduler always runs a process of the highest priority.
use cpp.Prelude.{
  zero-add, ℕ, zero, suc, ◌+◌, ◌≡◌, refl, ◌⊎◌, inl, inr, true, leb, ◌&&◌, Option, none, some, List,
  [], ◌∷◌, get_elem?, Bool-cases, Option-cases, arith,
}
use cpp.Prelude.Int.{◌≤ℤ◌, ltb_ℤ}
use cpp.Proc.Table.{is_runnable, running, update, Proc, Table}
use cpp.Proc.Sched.{HighP, choose_loop, choose, next_runnable, dispatch, scan, scheduler}

-- Slot `h` holds a RUNNABLE process, and no RUNNABLE process has a smaller priority number.
pub record IsBest (ps : List Proc) (h : ℕ) : Type 0 where
  pub chosen : Proc
  pub at : get_elem? ps h ≡ some chosen
  pub ready : is_runnable chosen.state ≡ true
  pub least :
      (k : ℕ) (p : Proc)
      → get_elem? ps k ≡ some p
      → is_runnable p.state ≡ true
      → chosen.priority ≤ℤ p.priority

-- The outcome is the start, or a RUNNABLE process of the list.
choose_loop-from :
    (ps : List Proc) (j : ℕ) (b : HighP)
    → (choose_loop ps j b ≡ b)
      ⊎ ((k : ℕ) × (p : Proc) × (get_elem? ps k ≡ some p)
          × (is_runnable p.state ≡ true)
          × (choose_loop ps j b ≡ (j + k, p.priority)))
unfolding choose_loop
choose_loop-from [] j b = inl refl
choose_loop-from (p ∷ ps) j b = elim (Bool-cases (is_runnable p.state && ltb_ℤ p.priority b.1)) [
  | inl t ↦ elim (choose_loop-from ps (j + 1) (j, p.priority)) [
    | inl e ↦ inr (0, p, refl, ground arith, rw t (ground (arith, e)))
    | inr (k, q, at, ready, e) ↦ inr (suc k, q, at, ready, rw t (ground (arith, e)))
  ]
  | inr f ↦ elim (choose_loop-from ps (j + 1) b) [
    | inl e ↦ inl (rw f e)
    | inr (k, q, at, ready, e) ↦ inr (suc k, q, at, ready, rw f (ground (arith, e)))
  ]
]

choose_loop-le : (ps : List Proc) (j : ℕ) (b : HighP) → (choose_loop ps j b).1 ≤ℤ b.1
unfolding choose_loop
choose_loop-le [] j b = omega arith
choose_loop-le (p ∷ ps) j b =
    ground (arith, choose_loop-le ps (j + 1) (j, p.priority), choose_loop-le ps (j + 1) b)

choose_loop-least :
    (ps : List Proc) (j : ℕ) (b : HighP) (k : ℕ) (p : Proc)
    → get_elem? ps k ≡ some p
    → is_runnable p.state ≡ true
    → (choose_loop ps j b).1 ≤ℤ p.priority
unfolding choose_loop
choose_loop-least [] j b k p e r = ground arith
choose_loop-least (q ∷ ps) j b zero p e r =
    ground (arith, choose_loop-le ps (j + 1) (j, q.priority), choose_loop-le ps (j + 1) b)
choose_loop-least (q ∷ ps) j b (suc k) p e r = ground (
  arith,
  choose_loop-least ps (j + 1) (j, q.priority) k p e r,
  choose_loop-least ps (j + 1) b k p e r,
)

-- From a RUNNABLE process the inner scan reaches a RUNNABLE process of the smallest priority
-- number in the table.
pub choose-IsBest :
    (ps : List Proc) (i : ℕ) (p : Proc)
    → get_elem? ps i ≡ some p
    → is_runnable p.state ≡ true
    → IsBest ps (choose ps i p)
unfolding choose
choose-IsBest ps i p at ready = elim (choose_loop-from ps 0 (i, p.priority)) [
  | inl e ↦ record {
    chosen = p;
    at = rw (e, choose) at;
    ready = ready;
    least = λ k q a r. ground (arith, choose_loop-least ps 0 (i, p.priority) k q a r);
  }
  | inr (k, q, a, r, e) ↦ record {
    chosen = q;
    at = rw (e, choose, zero-add) a;
    ready = r;
    least = λ l q' a' r'. ground (arith, choose_loop-least ps 0 (i, p.priority) l q' a' r');
  }
]

pub next_runnable-found :
    (ps : List Proc) (i j : ℕ) {k : ℕ} {p : Proc}
    → next_runnable ps i j ≡ some (k, p)
    → (d : ℕ) × (k ≡ j + d) × (get_elem? ps d ≡ some p) × (is_runnable p.state ≡ true)
unfolding next_runnable
next_runnable-found [] i j e = ground arith
next_runnable-found (p ∷ ps) i j e = elim (Bool-cases (leb i j && is_runnable p.state)) [
  | inl t ↦ (0, ground arith, ground arith, ground arith)
  | inr f ↦
      let (d, at, got, ready) = next_runnable-found ps i (j + 1) (rw f at e) in
      (suc d, omega arith, got, ready)
]

pub dispatch-update :
    (h : ℕ) (t : Table) {t' : Table}
    → dispatch h t ≡ some t'
    → update t h (λ q. record q { state = running }) ≡ t'
unfolding dispatch
dispatch-update h t e = ground arith

-- Every process of a trace was the best of its table.
abbrev pub AllBest : List (Table × ℕ) → Type 0
AllBest [] = Unit {0}
AllBest ((t, h) ∷ trace) = IsBest t.procs h × AllBest trace

abbrev pub TraceBest : Option (Table × List (Table × ℕ)) → Type 0
TraceBest none = Unit {0}
TraceBest (some (t, trace)) = AllBest trace

scan-TraceBest : (runs : List (ℕ → Table → Table)) (i : ℕ) (t : Table) → TraceBest (scan runs i t)
unfolding scan
scan-TraceBest [] i t = tt
scan-TraceBest (run ∷ runs) i t = elim (Option-cases (next_runnable t.procs i 0)) [
  | inl end ↦ rw (end, scan) tt
  | inr ((j, p), found) ↦
      let (d, at, got, ready) = next_runnable-found t.procs i 0 found in
      let best = choose-IsBest t.procs j p (ground (arith)) ready in
      let h : ℕ = choose t.procs j p in
      rw (found, scan)
        (elim (Option-cases (dispatch h t)) [
          | inl e ↦ rw (e, scan) tt
          | inr (t', e) ↦
              rw (e, scan)
                (elim (Option-cases (scan runs (h + 1) (run h t'))) [
                  | inl e' ↦ rw (e', scan) tt
                  | inr ((t'', trace), e') ↦
                      rw (e', scan) (best, rw e' at (scan-TraceBest runs (h + 1) (run h t')))
                ])
        ])
]

-- Whatever the processes do while they run, each process that a round of the scheduler switches to
-- is RUNNABLE at that time, and no RUNNABLE process of the table has a smaller priority number.
pub scheduler-AllBest :
    (runs : List (ℕ → Table → Table)) (t : Table) {t' : Table} {trace : List (Table × ℕ)}
    → scheduler runs t ≡ some (t', trace)
    → AllBest trace
unfolding scheduler
scheduler-AllBest runs t e = rw e at (scan-TraceBest runs 0 t)

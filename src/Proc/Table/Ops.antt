-- ===== src/Proc/Table/Ops.antt =====
-- What the operations of proc.c on the table do to process ids and to RUNNING processes.
use cpp.Prelude.{
  ℕ, suc, ◌+◌, ◌≡◌, refl, inl, inr, true, some, List, [], ◌∷◌, get_elem?, get_elem?-map, arith,
  Bool-cases,
}
use cpp.Prelude.Int.{ℤ}
use cpp.Proc.Table.{
  pid_bits, Proc, Table, update, wake, wakeup1, wakeup, kill_proc, kill, chpr, find_unused,
  is_unused, is_running,
}
use cpp.Proc.Table.Pids.{
  NoNewPids, KeepsPid, NoNewPids-map, NoNewPids-modify_at, kill_loop_lem, chpr_loop_lem,
}
use cpp.Proc.Table.Running.{SameRunning, SameRunning-refl, SameRunning-map, SameRunning-modify_at}

-- An operation that makes no process live, changes no id of a live one, and starts and stops none.
pub record Quiet (t t' : Table) : Type 0 where
  pub counter : t'.nextpid ≡ t.nextpid
  pub no_new : NoNewPids t.procs t'.procs
  pub same : SameRunning t.procs t'.procs

pub Quiet-refl : (t : Table) → Quiet t t
Quiet-refl t = record {
  counter = refl;
  no_new = λ i q l. (q, l, refl);
  same = SameRunning-refl t.procs;
}

pub Quiet-trans : {t t' t'' : Table} → Quiet t t' → Quiet t' t'' → Quiet t t''
Quiet-trans q r = record {
  counter = cc (q.counter, r.counter);
  no_new = λ i p l.
      let (p', l', e) = r.no_new i p l in
      let (p'', l'', e') = q.no_new i p' l' in (p'', l'', omega arith);
  same = λ i. (λ a. (r.same i).0 ((q.same i).0 a), λ a. (q.same i).1 ((r.same i).1 a));
}

pub wakeup1-Quiet : (chan : ℕ) (t : Table) → Quiet t (wakeup1 chan t)
unfolding wakeup1
wakeup1-Quiet chan t = record {
  counter = refl;
  no_new = NoNewPids-map (wake chan) t.procs (λ p h. ground arith);
  same = SameRunning-map (wake chan) t.procs (λ p. ground arith);
}

pub update-Quiet :
    (t : Table) (i : ℕ) (f : Proc → Proc)
    → ((p : Proc) → get_elem? t.procs i ≡ some p → KeepsPid f p)
    → ((p : Proc) → get_elem? t.procs i ≡ some p → is_running (f p).state ≡ is_running p.state)
    → Quiet t (update t i f)
update-Quiet t i f keeps same = record {
  counter = refl;
  no_new = NoNewPids-modify_at f t.procs i keeps;
  same = SameRunning-modify_at f t.procs i same;
}

pub kill-Quiet : (pid : ℤ) (t : Table) → Quiet t (kill pid t).1
unfolding kill
kill-Quiet pid t = elim (kill_loop_lem (pid_bits pid) t.procs) [
  | inl h ↦ rw h.0 (Quiet-refl t)
  | inr (i, p, at, is, e) ↦
      rw e (update-Quiet t i kill_proc (λ q a h. ground arith) (λ q a. ground arith))
]

pub chpr-Quiet : (pid pr : ℤ) (t : Table) → Quiet t (chpr pid pr t).1
unfolding chpr
chpr-Quiet pid pr t = elim (chpr_loop_lem (pid_bits pid) pr t.procs) [
  | inl e ↦ rw e (Quiet-refl t)
  | inr (i, e) ↦ rw e (
      update-Quiet t i (λ p. record p { priority = pr }) (λ q a h. ground arith)
        (λ q a. ground arith))
]

-- The slot that `find_unused` finds is UNUSED.
pub find_unused-is_unused :
    (ps : List Proc) (j : ℕ) {i : ℕ}
    → find_unused ps j ≡ some i
    → (d : ℕ) × (p : Proc) × (i ≡ j + d) × (get_elem? ps d ≡ some p) × (is_unused p.state ≡ true)
unfolding find_unused
find_unused-is_unused [] j e = cc
find_unused-is_unused (p ∷ ps) j e = elim (Bool-cases (is_unused p.state)) [
  | inl free ↦ (0, p, ground arith, refl, free)
  | inr used ↦
      let (d, q, at, got, free) = find_unused-is_unused ps (j + 1) (rw used at e) in
      (suc d, q, omega arith, got, free)
]

-- A wakeup leaves each process in its slot.
pub wakeup-get_elem? :
    (chan i : ℕ) (t : Table) {p : Proc}
    → get_elem? t.procs i ≡ some p
    → get_elem? (wakeup chan t).procs i ≡ some (wake chan p)
unfolding wakeup
wakeup-get_elem? chan i t e = get_elem?-map (wake chan) t.procs i e

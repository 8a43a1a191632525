-- ===== src/Proc/Machine/Invariant.antt =====
-- What holds in every state of the machine that proc.c can reach.
use cpp.Prelude.{
  subst, ◌∙◌, ap, ℕ, ◌+◌, ◌-◌, ◌^◌, ◌≤◌, ◌<◌, ◌≡◌, ◌≢◌, refl, sym, inl, inr, true, false, none,
  some, List, get_elem?, modify_at, get_elem?-modify_at_self, ◌==◌, arith, Bool-cases, ==→eq,
}
use cpp.Proc.Table.{
  sleeping, runnable, running, zombie, is_unused, is_running, Proc, Table, nproc, proc_addr, update,
}
use cpp.Proc.Table.Pids.{IsValid, NoNewPids-modify_at, KeepsPid, IsValid-of_NoNewPids}
use cpp.Proc.Table.Running.{RunningAt, RunningAt-modify_at_ne, not-RunningAt-modify_at}
use cpp.Proc.Table.Ops.{
  Quiet, Quiet-refl, Quiet-trans, wakeup1-Quiet, update-Quiet, kill-Quiet, chpr-Quiet,
}
use cpp.Proc.Alloc.Claim.{claim_lem, claim-IsValid, claim-SameRunning}
use cpp.Proc.Exit.{become_zombie, free_slot}
use cpp.Proc.Exit.Reparent.{reparent-Quiet}
use cpp.Proc.Sched.{choose, dispatch}
use cpp.Proc.Sched.Best.{dispatch-update, choose-IsBest, next_runnable-found, IsBest}
use cpp.Proc.Machine.{
  Machine, assign, Step, dispatches, edits, yields, sleeps, exits, tidies, wakes, kills,
  changes_priority, claims, gives_back, publishes, reaps, Reach, here, next,
}

-- Process ids are in order, and a process is RUNNING exactly when a processor runs it, and then
-- just one does.
pub record IsSafe (m : Machine) : Type 0 where
  pub valid : IsValid m.table
  pub runs : (c i : ℕ) → m.cpu c ≡ some i → RunningAt m.table.procs i
  pub has_cpu : (i : ℕ) → RunningAt m.table.procs i → (c : ℕ) × (m.cpu c ≡ some i)
  pub alone : (c d i : ℕ) → m.cpu c ≡ some i → m.cpu d ≡ some i → c ≡ d

IsSafe-of_Quiet :
    (m : Machine) {t : Table} → Quiet m.table t → IsSafe m → IsSafe (record m { table = t })
IsSafe-of_Quiet m q s = record {
  valid = IsValid-of_NoNewPids q.counter q.no_new s.valid;
  runs = λ c i e. (q.same i).0 (s.runs c i e);
  has_cpu = λ i r. s.has_cpu i ((q.same i).1 r);
  alone = s.alone;
}

-- The processor `c` leaves the process in slot `i`, which stops running.
IsSafe-of_leave :
    (m : Machine) (c i : ℕ) {t : Table} (f : Proc → Proc)
    → Quiet m.table t
    → ((p : Proc) → is_running p.state ≡ true → KeepsPid f p)
    → ((p : Proc) → is_running (f p).state ≡ false)
    → m.cpu c ≡ some i
    → IsSafe m
    → IsSafe (record { table = update t i f; cpu = assign m.cpu c none })
IsSafe-of_leave m c i {t} f q keeps stop at s =
    let s' = IsSafe-of_Quiet m q s in
    record {
      valid =
          IsValid-of_NoNewPids refl
            (NoNewPids-modify_at f t.procs i λ p e. keeps p (was_running p e)) s'.valid;
      runs = λ d j e. elim (Bool-cases (d == c)) [
        | inl eq ↦ absurd (ground arith)
        | inr ne ↦
            let old : m.cpu d ≡ some j = ground arith in
            (RunningAt-modify_at_ne f t.procs i j
                (λ (x : i ≡ j). ground (arith, s.alone c d i at (old ∙ sym (ap some x))))).0
              (s'.runs d j old)
      ];
      has_cpu = λ j r. elim (Bool-cases (i == j)) [
        | inl eq ↦ absurd (
            not-RunningAt-modify_at f t.procs i stop
              (subst (λ k. RunningAt (modify_at f t.procs i) k) (sym (==→eq i j eq)) r))
        | inr ne ↦
            let (d, e) = s'.has_cpu j ((RunningAt-modify_at_ne f t.procs i j (ground arith)).1 r) in
            (d, ground arith)
      ];
      alone = λ d e j x y. s.alone d e j (ground arith) (ground arith);
    }
  where
    was_running : (p : Proc) → get_elem? t.procs i ≡ some p → is_running p.state ≡ true
    was_running p e = let (q, a, r) = (q.same i).0 (s.runs c i at) in ground arith

dispatch-IsSafe :
    (m : Machine) (c h : ℕ) {t : Table}
    → m.cpu c ≡ none
    → IsBest m.table.procs h
    → dispatch h m.table ≡ some t
    → IsSafe m
    → IsSafe (record { table = t; cpu = assign m.cpu c (some h) })
dispatch-IsSafe m c h {t} idle best e s =
    let f : Proc → Proc = λ q. record q { state = running } in
    let ps : List Proc = m.table.procs in
    rw (← dispatch-update h m.table e) (record {
      valid =
          IsValid-of_NoNewPids refl (NoNewPids-modify_at f ps h (λ p a. ground (arith, best.at)))
            s.valid;
      runs = λ d j a. elim (Bool-cases (d == c)) [
        | inl eq ↦
            let same : h ≡ j = ground arith in
            subst (RunningAt (modify_at f ps h)) same
              (f best.chosen, get_elem?-modify_at_self f ps h best.at, refl)
        | inr ne ↦
            let old = s.runs d j (ground arith) in
            (RunningAt-modify_at_ne f ps h j (started j old)).0 old
      ];
      has_cpu = λ j r. elim (Bool-cases (h == j)) [
        | inl eq ↦ (c, ground arith)
        | inr ne ↦
            let (d, a) = s.has_cpu j ((RunningAt-modify_at_ne f ps h j (ground arith)).1 r) in
            (d, ground arith)
      ];
      alone = λ d e j x y. ground (arith, s.alone d e j, taken d, taken e);
    })
  where
    started : (j : ℕ) → RunningAt m.table.procs j → h ≢ j
    started j (p, at, r) same =
        let there : get_elem? m.table.procs h ≡ some p =
          subst (λ k. get_elem? m.table.procs k ≡ some p) (sym same) at in
        ground (arith, best.at, best.ready)

    taken : (d : ℕ) → m.cpu d ≢ some h
    taken d at = started h (s.runs d h at) refl

-- Every step of the machine keeps `IsSafe`, where `nextpid` does not wrap around.
Step-IsSafe : {m n : Machine} → Step m n → m.table.nextpid + 1 < 2 ^ 32 → IsSafe m → IsSafe n
unfolding become_zombie
Step-IsSafe (dispatches m c from j p t idle found e) room s =
    let (d, at, got, ready) = next_runnable-found m.table.procs from 0 found in
    let there : get_elem? m.table.procs j ≡ some p = ground arith in
    dispatch-IsSafe m c (choose m.table.procs j p) idle
      (choose-IsBest m.table.procs j p there ready) e s
Step-IsSafe (yields m c i at) room s =
    IsSafe-of_leave m c i (λ p. record p { state = runnable }) (Quiet-refl m.table)
      (λ p r h. (ground arith, refl)) (λ p. refl) at s
Step-IsSafe (sleeps m c i chan at) room s =
    IsSafe-of_leave m c i (λ p. record p { chan = chan; state = sleeping }) (Quiet-refl m.table)
      (λ p r h. (ground arith, refl)) (λ p. refl) at s
Step-IsSafe (exits m c i parent at) room s =
    IsSafe-of_leave m c i (λ p. record p { state = zombie })
      (Quiet-trans (wakeup1-Quiet parent m.table) (reparent-Quiet (proc_addr m.table i) nproc 0 _))
      (λ p r h. (ground arith, refl)) (λ p. refl) at s
Step-IsSafe (tidies m i) room s =
    IsSafe-of_Quiet m (update-Quiet m.table i _ (λ p a h. (h, refl)) (λ p a. refl)) s
Step-IsSafe (wakes m chan) room s = IsSafe-of_Quiet m (wakeup1-Quiet chan m.table) s
Step-IsSafe (kills m pid) room s = IsSafe-of_Quiet m (kill-Quiet pid m.table) s
Step-IsSafe (changes_priority m pid pr) room s = IsSafe-of_Quiet m (chpr-Quiet pid pr m.table) s
Step-IsSafe (edits m i f state pid) room s =
    IsSafe-of_Quiet m
      (update-Quiet m.table i f (λ p a h. (ground (arith, state p), pid p))
        (λ p a. ground (arith, state p)))
      s
Step-IsSafe (claims m i t e) room s = record {
  valid = claim-IsValid m.table e room s.valid;
  runs = λ c j a. (claim-SameRunning m.table e j).0 (s.runs c j a);
  has_cpu = λ j r. s.has_cpu j ((claim-SameRunning m.table e j).1 r);
  alone = s.alone;
}
Step-IsSafe (gives_back m i p at new) room s =
    IsSafe-of_Quiet m (update-Quiet m.table i _ (λ q a h. cc) (λ q a. ground arith)) s
Step-IsSafe (publishes m i p at new) room s =
    IsSafe-of_Quiet m
      (update-Quiet m.table i _ (λ q a h. (ground arith, refl)) (λ q a. ground arith)) s
Step-IsSafe (reaps m i p at dead) room s =
    IsSafe-of_Quiet m (update-Quiet m.table i free_slot (λ q a h. cc) (λ q a. ground arith)) s

-- The machine after `pinit`: no slot is in use, and no processor runs a process.
pub record Boots (m : Machine) : Type 0 where
  pub first_pid : m.table.nextpid ≡ 1
  pub slots : (i : ℕ) (p : Proc) → get_elem? m.table.procs i ≡ some p → is_unused p.state ≡ true
  pub idle : (c : ℕ) → m.cpu c ≡ none

boot-IsSafe : {m : Machine} → Boots m → IsSafe m
boot-IsSafe b = record {
  valid = record {
    counter = omega (arith, b.first_pid);
    bound = λ i p l. ground (arith, b.slots i p l.at, l.in_use);
    distinct = λ i j p q l k. ground (arith, b.slots i p l.at, l.in_use);
  };
  runs = λ c i e. ground (arith, b.idle c);
  has_cpu = λ i (p, at, r). ground (arith, b.slots i p at);
  alone = λ c d i e. ground (arith, b.idle c);
}

-- How many processes a step, and a run, make.
unfoldable pub claimed_by : {m n : Machine} → Step m n → ℕ
claimed_by (claims m i t e) = 1
claimed_by _ = 0

unfoldable pub births : {m n : Machine} → Reach m n → ℕ
unfolding claimed_by
births here = 0
births (next r st) = births r + claimed_by st

Step-nextpid : {m n : Machine} (st : Step m n) → n.table.nextpid ≤ m.table.nextpid + claimed_by st
unfolding claimed_by become_zombie
Step-nextpid (dispatches m c from j p t idle found e) =
    subst (λ u. u.nextpid ≤ m.table.nextpid + 0)
      (dispatch-update (choose m.table.procs j p) m.table e) (omega arith)
Step-nextpid (yields m c i at) = omega arith
Step-nextpid (sleeps m c i chan at) = omega arith
Step-nextpid (exits m c i parent at) =
    let q =
      Quiet-trans (wakeup1-Quiet parent m.table) (reparent-Quiet (proc_addr m.table i) nproc 0 _) in
    omega (arith, q.counter)
Step-nextpid (tidies m i) = omega arith
Step-nextpid (wakes m chan) = omega (arith, (wakeup1-Quiet chan m.table).counter)
Step-nextpid (kills m pid) = omega (arith, (kill-Quiet pid m.table).counter)
Step-nextpid (changes_priority m pid pr) = omega (arith, (chpr-Quiet pid pr m.table).counter)
Step-nextpid (edits m i f state pid) = omega arith
Step-nextpid (claims m i t e) =
    let c = claim_lem m.table e in
    subst (λ u. u.nextpid ≤ m.table.nextpid + 1) (sym c.result) (omega arith)
Step-nextpid (gives_back m i p at new) = omega arith
Step-nextpid (publishes m i p at new) = omega arith
Step-nextpid (reaps m i p at dead) = omega arith

Reach-nextpid : {m n : Machine} → Boots m → (r : Reach m n) → n.table.nextpid ≤ 1 + births r
unfolding births
Reach-nextpid b here = omega (arith, b.first_pid)
Reach-nextpid b (next r st) = omega (arith, Reach-nextpid b r, Step-nextpid st)

-- In every state that the machine reaches from boot, where no slot is in use, while fewer than
-- 2 ^ 31 - 1 processes were made, so that `nextpid` has not overflowed: process ids are positive ints
-- below `nextpid` and each live process has one of its own, and a process is RUNNING exactly when a
-- processor runs it, and then just one processor does.
pub Reach-IsSafe :
    {m n : Machine}
    → Boots m
    → (r : Reach m n) → births r < 2 ^ 31 - 1
    → IsSafe n × (n.table.nextpid < 2 ^ 31)
unfolding births
Reach-IsSafe b here few = (boot-IsSafe b, omega (arith, b.first_pid))
Reach-IsSafe b (next r st) few =
    let old = Reach-IsSafe b r (omega arith) in
    (Step-IsSafe st (omega (arith, old.1)) old.0, omega (arith, Reach-nextpid b (next r st), few))

-- ===== src/Spinlock/Exclusion.antt =====
-- Mutual exclusion: the processors take the locks step by step.
use cpp.Prelude.{
  ℕ, ◌≡◌, ◌≢◌, ◌↔◌, refl, fun_ext, sym, subst, inl, inr, Bool, true, false, ◌&&◌, ◌==◌,
  if◌then◌else◌, none, some, arith, Bool-cases, Option-cases, ==→eq,
}
use cpp.Spinlock.{
  Lock, Cores, put, is_cpu, holding, enter, xchg, record_cpu, clear_cpu, unlock, popcli, initlock,
}

-- Where a processor stands with a lock: not at all, in the loop of `acquire`, behind its `xchg`,
-- behind `acquire`, and between the two writes of `release`.
pub data Phase : Type 0 where
  away waiting taken held leaving : Phase

abbrev pub busy : Phase → Bool
busy taken = true
busy held = true
busy leaving = true
busy _ = false

abbrev pub is_held : Phase → Bool
is_held held = true
is_held _ = false

-- `phase c l` is the processor `c`'s with the lock `l`.
pub record System : Type 0 where
  pub cores : Cores
  pub phase : ℕ → ℕ → Phase

abbrev pub at : System → (c l : ℕ) → Phase → ℕ → ℕ → Phase
at s c l p d m = if (d == c) && (m == l) then p else s.phase d m

-- One memory access of a processor to a lock; between two, the others go on.
pub data Turn (s : System) : System → Type 0 where
  enters :
      (c l : ℕ) (k : Cores)
      → s.phase c l ≡ away
      → enter c l s.cores ≡ some k
      → Turn s (record { cores = k; phase = at s c l waiting })
  spins :
      (c l : ℕ)
      → s.phase c l ≡ waiting
      → (xchg l s.cores).0 ≡ true
      → Turn s (record s { cores = (xchg l s.cores).1 })
  takes :
      (c l : ℕ)
      → s.phase c l ≡ waiting
      → (xchg l s.cores).0 ≡ false
      → Turn s (record { cores = (xchg l s.cores).1; phase = at s c l taken })
  records :
      (c l : ℕ)
      → s.phase c l ≡ taken
      → Turn s (record { cores = record_cpu c l s.cores; phase = at s c l held })
  clears :
      (c l : ℕ) (k : Cores)
      → s.phase c l ≡ held
      → clear_cpu c l s.cores ≡ some k
      → Turn s (record { cores = k; phase = at s c l leaving })
  unlocks :
      (c l : ℕ) (k : Cores)
      → s.phase c l ≡ leaving
      → unlock c l s.cores ≡ some k
      → Turn s (record { cores = k; phase = at s c l away })

pub data Turns (s : System) : System → Type 0 where
  start : Turns s s
  then_turn : {t u : System} → Turns s t → Turn t u → Turns s u

-- A lock is taken exactly when a processor is between its `xchg` and the end of its `release`, and
-- then just one is; and the lock names a processor exactly when that is behind `acquire`.
pub record Exclusive (k : Lock) (phase : ℕ → Phase) : Type 0 where
  pub taken_by : k.locked ≡ true → (c : ℕ) × (busy (phase c) ≡ true)
  pub takes_it : (c : ℕ) → busy (phase c) ≡ true → k.locked ≡ true
  pub alone : (c d : ℕ) → busy (phase c) ≡ true → busy (phase d) ≡ true → c ≡ d
  pub named : (c : ℕ) → is_cpu c k.cpu ≡ is_held (phase c)

abbrev pub IsExclusive : System → Type 0
IsExclusive s = (l : ℕ) → Exclusive (s.cores.locks l) (λ c. s.phase c l)

module _ (k : Lock) (f : ℕ → Phase) (c : ℕ) (x : Exclusive k f) where
  Exclusive-enter : f c ≡ away → Exclusive k (put f c waiting)
  Exclusive-enter p = record {
    taken_by = λ t. let (d, b) = x.taken_by t in (d, ground arith);
    takes_it = λ d b. x.takes_it d (ground arith);
    alone = λ d e b b'. x.alone d e (ground arith) (ground arith);
    named = λ d. ground (arith, x.named d);
  }

  Exclusive-take :
      f c ≡ waiting → k.locked ≡ false → Exclusive (record k { locked = true }) (put f c taken)
  Exclusive-take p free = record {
    taken_by = λ t. (c, ground arith);
    takes_it = λ d b. refl;
    alone = λ d e b b'. ground (arith, x.takes_it d, x.takes_it e);
    named = λ d. ground (arith, x.named d);
  }

  Exclusive-record : f c ≡ taken → Exclusive (record k { cpu = some c }) (put f c held)
  Exclusive-record p = record {
    taken_by = λ t. (c, ground arith);
    takes_it = λ d b. x.takes_it c (ground arith);
    alone = λ d e b b'. x.alone d e (ground arith) (ground arith);
    named = λ d. ground (arith, x.alone c d);
  }

  Exclusive-clear : f c ≡ held → Exclusive (record k { cpu = none }) (put f c leaving)
  Exclusive-clear p = record {
    taken_by = λ t. (c, ground arith);
    takes_it = λ d b. x.takes_it c (ground arith);
    alone = λ d e b b'. x.alone d e (ground arith) (ground arith);
    named = λ d. ground (arith, x.alone c d);
  }

  Exclusive-unlock : f c ≡ leaving → Exclusive (record k { locked = false }) (put f c away)
  Exclusive-unlock p = record {
    taken_by = λ t. absurd (ground arith);
    takes_it = λ d b. absurd (ground (arith, x.alone c d));
    alone = λ d e b b'. x.alone d e (ground arith) (ground arith);
    named = λ d. ground (arith, x.named d);
  }

is_held-held : (p : Phase) → is_held p ≡ true → p ≡ held
is_held-held held e = refl
is_held-held away e = cc
is_held-held waiting e = cc
is_held-held taken e = cc
is_held-held leaving e = cc

unlocked :
    (c l : ℕ) (s k : Cores)
    → unlock c l s ≡ some k
    → (k.locks l ≡ record (s.locks l) { locked = false })
      × ((m : ℕ) → m ≢ l → k.locks m ≡ s.locks m)
unfolding unlock
unlocked c l s k e = elim (Option-cases (popcli (s.cpus c))) [
  | inl bad ↦ absurd (ground arith)
  | inr (p, ok) ↦ (ground arith, λ m ne. ground arith)
]

-- A change of one lock and of one processor's phase with it leaves the other locks exclusive.
IsExclusive-change :
    (s : System) (c l : ℕ) (p : Phase) (k : Cores) (new : Lock)
    → ((m : ℕ) → m ≢ l → k.locks m ≡ s.cores.locks m)
    → k.locks l ≡ new
    → Exclusive new (put (λ d. s.phase d l) c p)
    → IsExclusive s
    → IsExclusive (record { cores = k; phase = at s c l p })
IsExclusive-change s c l p k new others is_new here x m = elim (Bool-cases (m == l)) [
  | inl same ↦
      let e : m ≡ l = ==→eq m l same in
      subst (λ f. Exclusive (k.locks m) f) (fun_ext λ d. ground arith)
        (subst (λ m. Exclusive (k.locks m) (put (λ d. s.phase d m) c p)) (sym e) (rw is_new here))
  | inr other ↦
      rw (others m (ground arith))
        (subst (λ f. Exclusive (s.cores.locks m) f) (fun_ext λ d. ground arith) (x m))
]

pub Turn-IsExclusive : {s t : System} → Turn s t → IsExclusive s → IsExclusive t
unfolding enter xchg record_cpu clear_cpu unlock
Turn-IsExclusive {s} (enters c l k p e) x =
    IsExclusive-change s c l waiting k (s.cores.locks l) (λ m ne. ground arith) (ground arith)
      (Exclusive-enter (s.cores.locks l) (λ d. s.phase d l) c (x l) p) x
Turn-IsExclusive {s} (spins c l p e) x =
    λ m. subst (λ k. Exclusive k (λ d. s.phase d m)) (ground arith) (x m)
Turn-IsExclusive {s} (takes c l p e) x =
    IsExclusive-change s c l taken (xchg l s.cores).1 (record (s.cores.locks l) { locked = true })
      (λ m ne. ground arith) (ground arith)
      (Exclusive-take (s.cores.locks l) (λ d. s.phase d l) c (x l) p e) x
Turn-IsExclusive {s} (records c l p) x =
    IsExclusive-change s c l held (record_cpu c l s.cores)
      (record (s.cores.locks l) { cpu = some c }) (λ m ne. ground arith) (ground arith)
      (Exclusive-record (s.cores.locks l) (λ d. s.phase d l) c (x l) p) x
Turn-IsExclusive {s} (clears c l k p e) x =
    IsExclusive-change s c l leaving k (record (s.cores.locks l) { cpu = none })
      (λ m ne. ground arith) (ground arith)
      (Exclusive-clear (s.cores.locks l) (λ d. s.phase d l) c (x l) p) x
Turn-IsExclusive {s} (unlocks c l k p e) x =
    let (new, same) = unlocked c l s.cores k e in
    IsExclusive-change s c l away k (record (s.cores.locks l) { locked = false }) same new
      (Exclusive-unlock (s.cores.locks l) (λ d. s.phase d l) c (x l) p) x

-- No lock is taken, and no processor is at one.
pub record Starts (s : System) : Type 0 where
  pub free : (l : ℕ) → s.cores.locks l ≡ initlock
  pub idle : (c l : ℕ) → s.phase c l ≡ away

start-IsExclusive : {s : System} → Starts s → IsExclusive s
start-IsExclusive b l = record {
  taken_by = λ t. absurd (ground (arith, b.free l));
  takes_it = λ c h. ground (arith, b.idle c l);
  alone = λ c d h. ground (arith, b.idle c l);
  named = λ c. ground (arith, b.idle c l, b.free l);
}

-- However the processors take turns, from a start where no lock is taken: each lock is taken
-- exactly when a processor is between its `xchg` and the end of its `release`, and then just one
-- is; no two processors are behind `acquire` of the same lock; and `holding` is true exactly for
-- the processor that is.
pub Turns-exclude :
    {s t : System}
    → Starts s
    → Turns s t
    → IsExclusive t
      × ((c d l : ℕ) → t.phase c l ≡ held → t.phase d l ≡ held → c ≡ d)
      × ((c l : ℕ) → (holding c (t.cores.locks l) ≡ true) ↔ (t.phase c l ≡ held))
Turns-exclude {s} {t} b ts =
    let x = all ts in
    (
      x,
      λ c d l h h'. (x l).alone c d (ground arith) (ground arith),
      λ c l. (
        λ e. is_held-held (t.phase c l) (ground (arith, (x l).named c)),
        λ e. ground (arith, (x l).named c, (x l).takes_it c),
      ),
    )
  where
    all : {t : System} → Turns s t → IsExclusive t
    all start = start-IsExclusive b
    all (then_turn ts turn) = Turn-IsExclusive turn (all ts)

-- ===== src/Sleeplock/Handover.antt =====
-- A sleep lock goes from one process to the next.
use cpp.Prelude.{
  ℕ, zero, suc, ◌≤◌, ◌<◌, length, ◌≡◌, ◌⊎◌, refl, ap, subst, ◌∙◌, inl, inr, Bool, true, false, some,
  List, [], ◌∷◌, get_elem?, get_elem?-modify_at_self, arith, Bool-cases,
}
use cpp.Proc.Table.{Proc, update, wake, sleeping, runnable}
use cpp.Proc.Table.Ops.{wakeup-get_elem?}
use cpp.Proc.Kernel.{Kernel}
use cpp.Proc.Exit.{sleep, sched}
use cpp.Sleeplock.{SleepLock, take, acquiresleep, releasesleep, holdingsleep}

-- Slot `cur` has the process with this id.
abbrev pub HasPid : ℕ → ℕ → Kernel SleepLock → Type 0
HasPid pid cur k = (p : Proc) × (get_elem? k.table.procs cur ≡ some p) × (p.pid ≡ pid)

-- What others do while a process sleeps: that stays, and the lock does.
abbrev pub Stays : (pid cur : ℕ) → List (Kernel SleepLock → Kernel SleepLock) → Type 0
Stays pid cur [] = Unit {0}
Stays pid cur (o ∷ os) =
    ((k : Kernel SleepLock)
      → HasPid pid cur k
      → HasPid pid cur (o k) × ((o k).world.base ≡ k.world.base))
    × Stays pid cur os

abbrev pub asleep : ℕ → Kernel SleepLock → Kernel SleepLock
asleep cur k = record k {
  table = update k.table cur (λ p. record p { chan = k.world.base; state = sleeping });
}

abbrev pub awake : ℕ → Kernel SleepLock → Kernel SleepLock
awake cur k = record k { table = update k.table cur (λ p. record p { chan = 0 }) }

-- The state that the caller finds when it has slept `j` times, and the others have run each time.
abbrev pub after :
    (j cur : ℕ) → List (Kernel SleepLock → Kernel SleepLock) → Kernel SleepLock → Kernel SleepLock
after zero cur os k = k
after (suc j) cur [] k = k
after (suc j) cur (o ∷ os) k = after j cur os (awake cur (o (asleep cur k)))

-- The lock is taken from a state where it is free, the first such that the caller finds, and is the
-- caller's; or it was taken in all of them, and the caller sleeps on it.
abbrev pub Outcome :
    (pid cur base : ℕ)
    → List (Kernel SleepLock → Kernel SleepLock)
    → Kernel SleepLock
    → Bool
    → Kernel SleepLock
    → Type 0
Outcome pid cur base os k b k' =
    ((b ≡ true)
      × ((j : ℕ) × (j ≤ length os)
          × ((i : ℕ) → i < j → (after i cur os k).world.locked ≡ true)
          × ((after j cur os k).world.locked ≡ false)
          × (k' ≡ record (after j cur os k) {
            world = record { base = base; locked = true; pid = pid };
          })))
    ⊎ ((b ≡ false)
        × ((i : ℕ) → i ≤ length os → (after i cur os k).world.locked ≡ true)
        × (k' ≡ asleep cur (after (length os) cur os k)))

after-nil : (j cur : ℕ) (k : Kernel SleepLock) → after j cur [] k ≡ k
after-nil zero cur k = refl
after-nil (suc j) cur k = refl

Outcome-now :
    (pid cur : ℕ) (os : List (Kernel SleepLock → Kernel SleepLock)) (k : Kernel SleepLock)
    → k.world.locked ≡ false
    → Outcome pid cur k.world.base os k true
        (record k { world = record k.world { locked = true; pid = pid } })
Outcome-now pid cur os k free =
    inl (refl, (0, omega arith, λ i l. absurd (omega arith), free, refl))

-- What the rest of the calls find, one sleep later.
Outcome-later :
    (pid cur base : ℕ) (o : Kernel SleepLock → Kernel SleepLock)
    (os : List (Kernel SleepLock → Kernel SleepLock)) (k : Kernel SleepLock) (b : Bool)
    (k' : Kernel SleepLock)
    → k.world.locked ≡ true
    → Outcome pid cur base os (awake cur (o (asleep cur k))) b k'
    → Outcome pid cur base (o ∷ os) k b k'
Outcome-later pid cur base o os k b k' now (inl (e, (j, le, before, free, end))) =
    inl (e, (suc j, omega arith, earlier, free, end))
  where
    earlier : (i : ℕ) → i < suc j → (after i cur (o ∷ os) k).world.locked ≡ true
    earlier zero l = now
    earlier (suc i) l = before i (omega arith)
Outcome-later pid cur base o os k b k' now (inr (e, all, end)) = inr (e, every, end)
  where
    every : (i : ℕ) → i ≤ length (o ∷ os) → (after i cur (o ∷ os) k).world.locked ≡ true
    every zero l = now
    every (suc i) l = all i (omega arith)

acquiresleep-free :
    (cur : ℕ) (others : List (Kernel SleepLock → Kernel SleepLock)) (k : Kernel SleepLock)
    {p : Proc}
    → get_elem? k.table.procs cur ≡ some p
    → k.world.locked ≡ false
    → acquiresleep cur others k
      ≡ some (true, record k { world = record k.world { locked = true; pid = p.pid } })
unfolding acquiresleep take
acquiresleep-free cur [] k here free = ground arith
acquiresleep-free cur (o ∷ others) k here free = ground arith

acquiresleep-again :
    (cur : ℕ) (o : Kernel SleepLock → Kernel SleepLock)
    (others : List (Kernel SleepLock → Kernel SleepLock)) (k : Kernel SleepLock) {p : Proc}
    → get_elem? k.table.procs cur ≡ some p
    → k.world.locked ≡ true
    → acquiresleep cur (o ∷ others) k ≡ acquiresleep cur others (awake cur (o (asleep cur k)))
unfolding acquiresleep sleep sched
acquiresleep-again cur o others k here is_locked =
    let f : Proc → Proc = λ p. record p { chan = k.world.base; state = sleeping } in
    ground (arith, get_elem?-modify_at_self f k.table.procs cur here)

-- Let the caller be in the table, and let what runs while it sleeps keep it there and keep the
-- lock's address. Then `acquiresleep` does not panic. It looks at the lock again each time it has
-- slept: when it returns, it has taken the lock for the caller in the first state it found where the
-- lock was free, and it changed nothing else there; until then the lock was taken in every state it
-- found, and the caller sleeps on it.
pub acquiresleep_lem :
    (pid cur : ℕ) (others : List (Kernel SleepLock → Kernel SleepLock)) (k : Kernel SleepLock)
    → Stays pid cur others
    → HasPid pid cur k
    → (b : Bool) × (k' : Kernel SleepLock) × (acquiresleep cur others k ≡ some (b, k'))
      × Outcome pid cur k.world.base others k b k'
unfolding acquiresleep
acquiresleep_lem pid cur [] k st (p, here, id) = elim (Bool-cases k.world.locked) [
  | inr free ↦
      (true, _, acquiresleep-free cur [] k here free ∙ ground arith, Outcome-now pid cur [] k free)
  | inl is_locked ↦ (
    false,
    asleep cur k,
    ground arith,
    inr (refl, λ i l. ap (λ x. x.world.locked) (after-nil i cur k) ∙ is_locked, refl),
  )
]
acquiresleep_lem pid cur (o ∷ others) k (o_stays, st) (p, here, id) =
    elim (Bool-cases k.world.locked) [
      | inr free ↦ (
        true,
        _,
        acquiresleep-free cur (o ∷ others) k here free ∙ ground arith,
        Outcome-now pid cur (o ∷ others) k free,
      )
      | inl is_locked ↦
          let ((q, there, id'), same) =
            o_stays (asleep cur k) (_, get_elem?-modify_at_self _ k.table.procs cur here, id) in
          let k₁ : Kernel SleepLock = awake cur (o (asleep cur k)) in
          let (b, k', e, out) =
            acquiresleep_lem pid cur others k₁ st
              (_, get_elem?-modify_at_self _ (o (asleep cur k)).table.procs cur there, id') in
          (
            b,
            k',
            acquiresleep-again cur o others k here is_locked ∙ e,
            Outcome-later pid cur k.world.base o others k b k' is_locked
                (subst (λ x. Outcome pid cur x others k₁ b k') same out),
          )
    ]

-- `releasesleep` frees the lock, and every process that sleeps on it becomes RUNNABLE.
releasesleep_lem :
    (k : Kernel SleepLock)
    → (k' : Kernel SleepLock) × (releasesleep k ≡ some (tt, k'))
      × (holdingsleep k'.world ≡ false)
      × (k'.world.base ≡ k.world.base)
      × ((i : ℕ) (p : Proc)
          → get_elem? k.table.procs i ≡ some p
          → p.state ≡ sleeping
          → p.chan ≡ k.world.base
          → (q : Proc) × (get_elem? k'.table.procs i ≡ some q) × (q.state ≡ runnable))
unfolding releasesleep holdingsleep
releasesleep_lem k = (
  _,
  refl,
  refl,
  refl,
  λ i p here is_asleep on.
      (wake k.world.base p, wakeup-get_elem? k.world.base i k.table here, ground arith),
)

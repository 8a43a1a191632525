-- ===== src/Spinlock/Pair.antt =====
-- `acquire` and `release` of one processor, on a lock that is free.
use cpp.Prelude.{ℕ, ◌≡◌, ◌≢◌, subst, Bool, true, false, none, some, List, [], ◌∷◌, arith}
use cpp.Spinlock.{
  Cpu, Lock, Cores, put, initlock, holding, pushcli, enter, xchg, record_cpu, spin, acquire,
  clear_cpu, unlock, release,
}
use cpp.Spinlock.Cli.{Inside, pushcli-Inside, popcli-Inside}

spin-free :
    (c l : ℕ) (others : List (Cores → Cores)) (s : Cores)
    → (s.locks l).locked ≡ false
    → spin c l others s ≡ (true, record_cpu c l (xchg l s).1)
unfolding spin xchg record_cpu
spin-free c l [] s free = ground arith
spin-free c l (o ∷ others) s free = ground arith

-- Let the lock be free, and the processor be inside `n` calls of `pushcli`, the first of which
-- found the interrupts as `was`. Then `acquire` gets the lock, with interrupts off, and a second
-- `acquire` by the same processor panics; `release` frees it, leaves the processor inside `n`
-- calls as before, and does not touch the other locks.
release-acquire :
    (c l n : ℕ) (was : Bool) (others : List (Cores → Cores)) (s : Cores)
    → s.locks l ≡ initlock
    → Inside was n (s.cpus c)
    → (s' : Cores) × (s'' : Cores) × (acquire c l others s ≡ some (true, s'))
      × (holding c (s'.locks l) ≡ true)
      × ((s'.cpus c).flag ≡ false)
      × (acquire c l others s' ≡ none)
      × (release c l s' ≡ some s'')
      × (s''.locks l ≡ initlock)
      × Inside was n (s''.cpus c)
      × ((m : ℕ) → m ≢ l → s''.locks m ≡ s.locks m)
unfolding acquire enter xchg record_cpu release clear_cpu unlock
release-acquire c l n was others s free i =
    let p : Cpu = pushcli (s.cpus c) in
    let inner = pushcli-Inside was n (s.cpus c) i in
    let (p', e, outer) = popcli-Inside was n p inner in
    let here : Lock = record { locked = true; cpu = some c } in
    let gone : Lock = record { locked = false; cpu = none } in
    (
      record {
        cpus = put s.cpus c p;
        locks = put (put s.locks l (record (s.locks l) { locked = true })) l here;
      },
      record {
        cpus = put (put s.cpus c p) c p';
        locks =
            put
              (put (put (put s.locks l (record (s.locks l) { locked = true })) l here) l
                (record here { cpu = none }))
              l gone;
      },
      ground (arith, spin-free c l others (record s { cpus = put s.cpus c p })),
      ground arith,
      ground arith,
      ground arith,
      ground arith,
      ground arith,
      subst (Inside was n) (ground arith) outer,
      λ m ne. ground arith,
    )

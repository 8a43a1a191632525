-- ===== src/Spinlock.antt =====
-- OperatingSystem/HW5/spinlock.c, with several processors. The call stack that a lock keeps for
-- debugging is not in the model, nor is its name.
pub mod Cli
pub mod Exclusion
pub mod Pair
mod Tests
use cpp.Prelude.{
  ℕ, zero, suc, ◌+◌, Bool, true, false, ◌&&◌, ◌==◌, if◌then◌else◌, Option, none, some, List, [],
  ◌∷◌,
}
use cpp.Prelude.Int.{ℤ, pos, negsuc}

-- What `struct cpu` and the flags register have for interrupts: `flag` is FL_IF.
pub record Cpu : Type 0 where
  pub ncli : ℤ
  pub intena : Bool
  pub flag : Bool

-- `struct spinlock`; `cpu` is the processor that holds it, or the null pointer.
pub record Lock : Type 0 where
  pub locked : Bool
  pub cpu : Option ℕ

pub record Cores : Type 0 where
  pub cpus : ℕ → Cpu
  pub locks : ℕ → Lock

abbrev pub initlock : Lock
initlock = record { locked = false; cpu = none }

abbrev pub increment : ℤ → ℤ
increment (pos n) = pos (n + 1)
increment (negsuc zero) = pos 0
increment (negsuc (suc n)) = negsuc n

abbrev pub is_zero : ℤ → Bool
is_zero (pos zero) = true
is_zero _ = false

pub pushcli : Cpu → Cpu
pushcli c = record {
  ncli = increment c.ncli;
  intena = if is_zero c.ncli then c.flag else c.intena;
  flag = false;
}

-- The end of `popcli`, for the count as it is after `--`.
pub restore : ℤ → Cpu → Option Cpu
restore (negsuc n) c = none
restore (pos zero) c = some (record c { ncli = pos 0; flag = if c.intena then true else c.flag })
restore (pos (suc n)) c = some (record c { ncli = pos (suc n) })

abbrev pub decrement : ℤ → ℤ
decrement (pos zero) = negsuc 0
decrement (pos (suc n)) = pos n
decrement (negsuc n) = negsuc (suc n)

-- `none` is a panic.
pub popcli : Cpu → Option Cpu
unfolding restore
popcli c = if c.flag then none else restore (decrement c.ncli) c

abbrev pub put : {A : Type 0} → (ℕ → A) → ℕ → A → ℕ → A
put f n a m = if m == n then a else f m

abbrev pub is_cpu : ℕ → Option ℕ → Bool
is_cpu c none = false
is_cpu c (some d) = c == d

-- `holding(lock)` on processor `c`.
abbrev pub holding : ℕ → Lock → Bool
holding c l = l.locked && is_cpu c l.cpu

-- `acquire` up to its loop.
pub enter : (c l : ℕ) → Cores → Option Cores
unfolding pushcli
enter c l s =
    if holding c (s.locks l)
    then none
    else some (record s { cpus = put s.cpus c (pushcli (s.cpus c)) })

-- `xchg(&lk->locked, 1)`: the old value, and the lock is taken.
pub xchg : ℕ → Cores → Bool × Cores
xchg l s =
    ((s.locks l).locked, record s { locks = put s.locks l (record (s.locks l) { locked = true }) })

-- `lk->cpu = mycpu()`
pub record_cpu : (c l : ℕ) → Cores → Cores
record_cpu c l s = record s { locks = put s.locks l (record (s.locks l) { cpu = some c }) }

-- The loop of `acquire` and what is behind it. Each of `others` is what the other processors do
-- in one round; the result says whether the lock is acquired.
pub spin : (c l : ℕ) → List (Cores → Cores) → Cores → Bool × Cores
unfolding xchg record_cpu
spin c l [] s =
    let (taken, s') = xchg l s in if taken then (false, s') else (true, record_cpu c l s')
spin c l (o ∷ others) s =
    let (taken, s') = xchg l s in
    let rest : Bool × Cores = spin c l others (o s') in
    if taken then rest else (true, record_cpu c l s')

pub acquire : (c l : ℕ) → List (Cores → Cores) → Cores → Option (Bool × Cores)
unfolding enter spin
acquire c l others s = elim (enter c l s) [ none ↦ none | some s' ↦ some (spin c l others s') ]

-- `release` up to `lk->cpu = 0`.
pub clear_cpu : (c l : ℕ) → Cores → Option Cores
clear_cpu c l s =
    if holding c (s.locks l)
    then some (record s { locks = put s.locks l (record (s.locks l) { cpu = none }) })
    else none

-- The rest of `release`.
pub unlock : (c l : ℕ) → Cores → Option Cores
unfolding popcli
unlock c l s =
    let s' : Cores = record s { locks = put s.locks l (record (s.locks l) { locked = false }) } in
    elim (popcli (s'.cpus c)) [ none ↦ none | some p ↦ some (record s' { cpus = put s'.cpus c p }) ]

pub release : (c l : ℕ) → Cores → Option Cores
unfolding clear_cpu unlock
release c l s = elim (clear_cpu c l s) [ none ↦ none | some s' ↦ unlock c l s' ]

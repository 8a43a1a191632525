-- ===== src/Spinlock/Cli.antt =====
-- `pushcli` and `popcli` nest.
use cpp.Prelude.{
  ℕ, zero, suc, ◌≡◌, refl, subst, Bool, true, false, if◌then◌else◌, Option, none, some, List, [],
  ◌∷◌, arith,
}
use cpp.Prelude.Int.{pos}
use cpp.Spinlock.{Cpu, pushcli, popcli, restore}

pub data Call : Type 0 where
  push pop : Call

-- The calls that a processor makes, one after the other.
pub calls : List Call → Cpu → Option Cpu
unfolding pushcli popcli
calls [] c = some c
calls (push ∷ cs) c = calls cs (pushcli c)
calls (pop ∷ cs) c = elim (popcli c) [ none ↦ none | some c' ↦ calls cs c' ]

-- How many calls of `pushcli` are open at the end, from `n` on, if there is always one to close.
abbrev pub depth : List Call → ℕ → Option ℕ
depth [] n = some n
depth (push ∷ cs) n = depth cs (suc n)
depth (pop ∷ cs) zero = none
depth (pop ∷ cs) (suc n) = depth cs n

-- Inside `n` open calls, the outermost of which found the interrupts as `was`.
abbrev pub Inside : Bool → ℕ → Cpu → Type 0
Inside was zero c = (c.ncli ≡ pos 0) × (c.flag ≡ was)
Inside was (suc n) c = (c.ncli ≡ pos (suc n)) × (c.flag ≡ false) × (c.intena ≡ was)

pub pushcli-Inside :
    (was : Bool) (n : ℕ) (c : Cpu) → Inside was n c → Inside was (suc n) (pushcli c)
unfolding pushcli
pushcli-Inside was zero c i = (ground arith, refl, ground arith)
pushcli-Inside was (suc n) c i = (ground arith, refl, ground arith)

pub popcli-Inside :
    (was : Bool) (n : ℕ) (c : Cpu)
    → Inside was (suc n) c
    → (c' : Cpu) × (popcli c ≡ some c') × Inside was n c'
unfolding popcli restore
popcli-Inside was zero c (count, off, saved) = (
  record c { ncli = pos 0; flag = if c.intena then true else c.flag },
  ground arith,
  (refl, ground arith),
)
popcli-Inside was (suc n) c (count, off, saved) =
    (record c { ncli = pos (suc n) }, ground arith, (refl, off, saved))

-- A processor that calls `pushcli` and `popcli` so that each `popcli` closes a `pushcli` never
-- panics; at the end interrupts are off if a call is open, and as they were at the start if not.
pub calls-Inside :
    (cs : List Call) (was : Bool) (n d : ℕ) (c : Cpu)
    → depth cs n ≡ some d
    → Inside was n c
    → (c' : Cpu) × (calls cs c ≡ some c') × Inside was d c'
unfolding calls
calls-Inside [] was n d c e i = (c, refl, subst (λ n. Inside was n c) (ground arith) i)
calls-Inside (push ∷ cs) was n d c e i =
    calls-Inside cs was (suc n) d (pushcli c) e (pushcli-Inside was n c i)
calls-Inside (pop ∷ cs) was zero d c e i = absurd (ground arith)
calls-Inside (pop ∷ cs) was (suc n) d c e i =
    let (c₁, e₁, i₁) = popcli-Inside was n c i in
    let (c', e', i') = calls-Inside cs was n d c₁ e i₁ in (c', ground arith, i')

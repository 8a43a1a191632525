-- ===== src/Syscall/Sleep.antt =====
-- `sys_sleep`: it sleeps as long as it is told to.
use cpp.Prelude.{
  ℕ, ◌+◌, ◌-◌, ◌%◌, ◌^◌, ◌≤◌, ◌<◌, ◌≡◌, ◌⊎◌, refl, ◌∙◌, inl, inr, true, false, ltb, some, List, [],
  ◌∷◌, get_elem?, get_elem?-modify_at_self, arith, Bool-cases,
}
use cpp.Prelude.Int.{pos, minus_one}
use cpp.Proc.Table.{Proc, update, sleeping}
use cpp.Proc.Kernel.{Kernel}
use cpp.Proc.Exit.{sleep, sched}
use cpp.Syscall.{User, Slept, returned, asleep, argint, sleep_until, sys_sleep}

-- What others do while it sleeps: the process stays in the table.
abbrev pub Stays : ℕ → List (Kernel ℕ → Kernel ℕ) → Type 0
Stays cur [] = Unit {0}
Stays cur (o ∷ os) =
    ((k : Kernel ℕ) (p : Proc)
      → get_elem? k.table.procs cur ≡ some p
      → (q : Proc) × (get_elem? (o k).table.procs cur ≡ some q))
    × Stays cur os

-- The ticks since `ticks0`, as an unsigned difference.
abbrev pub elapsed : (ticks0 : ℕ) → Kernel ℕ → ℕ
elapsed ticks0 k = (k.world + 2 ^ 32 - ticks0) % 2 ^ 32

-- It returns 0 when `n` ticks have gone by, and -1 when it is killed before; or it sleeps.
abbrev pub Outcome : (cur ticks0 n : ℕ) → Slept → Kernel ℕ → Type 0
Outcome cur ticks0 n r k =
    ((r ≡ returned (pos 0)) × (n ≤ elapsed ticks0 k))
    ⊎ ((r ≡ returned minus_one)
        × (elapsed ticks0 k < n)
        × ((p : Proc) × (get_elem? k.table.procs cur ≡ some p) × (p.killed ≡ true)))
    ⊎ ((r ≡ asleep)
        × (elapsed ticks0 k < n)
        × ((p : Proc) × (get_elem? k.table.procs cur ≡ some p) × (p.state ≡ sleeping)))

abbrev fall_asleep : (cur chan : ℕ) → Kernel ℕ → Kernel ℕ
fall_asleep cur chan k = record k {
  table = update k.table cur (λ p. record p { chan = chan; state = sleeping });
}

abbrev wake_up : ℕ → Kernel ℕ → Kernel ℕ
wake_up cur k = record k { table = update k.table cur (λ p. record p { chan = 0 }) }

sleep_until-again :
    (cur chan ticks0 n : ℕ) (o : Kernel ℕ → Kernel ℕ) (others : List (Kernel ℕ → Kernel ℕ))
    (k : Kernel ℕ) {p : Proc}
    → get_elem? k.table.procs cur ≡ some p
    → p.killed ≡ false
    → ltb (elapsed ticks0 k) n ≡ true
    → sleep_until cur chan ticks0 n (o ∷ others) k
      ≡ sleep_until cur chan ticks0 n others (wake_up cur (o (fall_asleep cur chan k)))
unfolding sleep_until sleep sched
sleep_until-again cur chan ticks0 n o others k at fine early =
    let f : Proc → Proc = λ p. record p { chan = chan; state = sleeping } in
    ground (arith, get_elem?-modify_at_self f k.table.procs cur at)

sleep_until_lem :
    (cur chan ticks0 n : ℕ) (others : List (Kernel ℕ → Kernel ℕ)) (k : Kernel ℕ) {p : Proc}
    → Stays cur others
    → get_elem? k.table.procs cur ≡ some p
    → (r : Slept) × (k' : Kernel ℕ) × (sleep_until cur chan ticks0 n others k ≡ some (r, k'))
      × Outcome cur ticks0 n r k'
unfolding sleep_until
sleep_until_lem cur chan ticks0 n [] k {p} st at = elim (Bool-cases (ltb (elapsed ticks0 k) n)) [
  | inr over ↦ (returned (pos 0), k, ground arith, inl (refl, ground arith))
  | inl early ↦ elim (Bool-cases p.killed) [
    | inl dead ↦
        (returned minus_one, k, ground arith, inr (inl (refl, ground arith, (p, at, dead))))
    | inr fine ↦ (
      asleep,
      fall_asleep cur chan k,
      ground arith,
      inr (inr (refl, ground arith, (_, get_elem?-modify_at_self _ k.table.procs cur at, refl))),
    )
  ]
]
sleep_until_lem cur chan ticks0 n (o ∷ others) k {p} (o_stays, st) at =
    elim (Bool-cases (ltb (elapsed ticks0 k) n)) [
      | inr over ↦ (returned (pos 0), k, ground arith, inl (refl, ground arith))
      | inl early ↦ elim (Bool-cases p.killed) [
        | inl dead ↦
            (returned minus_one, k, ground arith, inr (inl (refl, ground arith, (p, at, dead))))
        | inr fine ↦
            let (q, there) =
              o_stays (fall_asleep cur chan k) _
                (get_elem?-modify_at_self _ k.table.procs cur at) in
            let k₁ : Kernel ℕ = wake_up cur (o (fall_asleep cur chan k)) in
            let (r, k', e, out) =
              sleep_until_lem cur chan ticks0 n others k₁ st
                (get_elem?-modify_at_self _ (o (fall_asleep cur chan k)).table.procs cur there) in
            (r, k', sleep_until-again cur chan ticks0 n o others k at fine early ∙ e, out)
      ]
    ]

-- Whatever others do, `sys_sleep` with the argument `n` does not panic, if they leave the process in
-- the table: it returns 0 only when as many ticks have gone by as `n` is as an unsigned number; it
-- returns -1 before that only to a killed process; and else the process sleeps.
pub sys_sleep_lem :
    (cur chan n : ℕ) (u : User) (others : List (Kernel ℕ → Kernel ℕ)) (k : Kernel ℕ) {p : Proc}
    → argint u 0 ≡ some n
    → Stays cur others
    → get_elem? k.table.procs cur ≡ some p
    → (r : Slept) × (k' : Kernel ℕ) × (sys_sleep cur chan u others k ≡ some (r, k'))
      × Outcome cur k.world n r k'
unfolding sys_sleep
sys_sleep_lem cur chan n u others k arg st at =
    let (r, k', e, out) = sleep_until_lem cur chan k.world n others k st at in
    (r, k', ground arith, out)

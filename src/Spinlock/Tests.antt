-- ===== src/Spinlock/Tests.antt =====
-- Two processors and one lock, and the theorems there.
use cpp.Prelude.{ℕ, ◌≡◌, ◌↔◌, refl, true, false, none, some, [], ◌∷◌}
use cpp.Prelude.Int.{pos}
use cpp.Spinlock.{Cpu, Cores, put, initlock, holding, pushcli, popcli, enter, xchg, record_cpu}
use cpp.Spinlock.Cli.{push, pop, calls, Inside, calls-Inside}
use cpp.Spinlock.Exclusion.{
  away, waiting, taken, held, System, at, enters, takes, records, Turns, start, then_turn,
  IsExclusive, Starts, Turns-exclude,
}

-- Interrupts are on.
abbrev cpu : Cpu
cpu = record { ncli = pos 0; intena = false; flag = true }

abbrev cores : Cores
cores = record { cpus = λ c. cpu; locks = λ l. initlock }

popcli_alone : popcli cpu ≡ none
unfolding popcli
popcli_alone = refl

calls-Inside_example :
    (c : Cpu) × (calls (push ∷ push ∷ pop ∷ pop ∷ []) cpu ≡ some c) × Inside true 0 c
calls-Inside_example = calls-Inside (push ∷ push ∷ pop ∷ pop ∷ []) true 0 0 cpu refl (refl, refl)

abbrev idle : System
idle = record { cores = cores; phase = λ c l. away }

idle-Starts : Starts idle
idle-Starts = record { free = λ l. refl; idle = λ c l. refl }

abbrev entered : System
entered = record {
  cores = record cores { cpus = put cores.cpus 1 (pushcli cpu) };
  phase = at idle 1 0 waiting;
}

abbrev got : System
got = record { cores = (xchg 0 entered.cores).1; phase = at entered 1 0 taken }

abbrev inside : System
inside = record { cores = record_cpu 1 0 got.cores; phase = at got 1 0 held }

run : Turns idle inside
unfolding enter xchg
run =
    then_turn (then_turn (then_turn start (enters 1 0 _ refl refl)) (takes 1 0 refl refl))
      (records 1 0 refl)

Turns-exclude_example :
    IsExclusive inside
    × ((c d l : ℕ) → inside.phase c l ≡ held → inside.phase d l ≡ held → c ≡ d)
    × ((c l : ℕ) → (holding c (inside.cores.locks l) ≡ true) ↔ (inside.phase c l ≡ held))
Turns-exclude_example = Turns-exclude idle-Starts run

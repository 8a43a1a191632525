-- ===== src/Syscall/Tests.antt =====
-- A process that passes a block and a string, and the theorems there.
use cpp.Prelude.{ℕ, ◌+◌, ◌≤◌, ◌<◌, ◌≡◌, ◌↔◌, refl, none, some, [], ◌∷◌, ◌==◌, if◌then◌else◌, arith}
use cpp.Prelude.Int.{pos, negsuc}
use cpp.Kalloc.{load}
use cpp.Proc.Kernel.{Kernel}
use cpp.Proc.Sample.{family, machine}
use cpp.Syscall.{
  User, fetchint, scan_string, fetchstr, argint, argptr, argstr, syscall, Slept, sys_sleep,
}
use cpp.Syscall.Args.{argptr_lem}
use cpp.Syscall.Sleep.{Outcome, sys_sleep_lem}

-- The argument is 40, where there is the string "A".
abbrev user : User
user = record {
  mem = λ a. if a == 104 then 40 else if a == 40 then b'A' else 0;
  sz = 4096;
  esp = 100;
}

user-argint : argint user 0 ≡ some 40
unfolding argint fetchint load
user-argint = refl

user-argstr : argstr user 0 ≡ some (40, 1)
unfolding argstr argint fetchint load fetchstr scan_string
user-argstr = refl

-- A block of 100 bytes would fit in, and one of 5000 does not.
argptr_fits : argptr user 0 (pos 100) ≡ some 40
unfolding argptr argint fetchint load
argptr_fits = refl

argptr_long : argptr user 0 (pos 5000) ≡ none
unfolding argptr argint fetchint load
argptr_long = refl

-- There is no call 9, and 0 is none.
syscall_unknown : syscall {K = Kernel ℕ} (none ∷ none ∷ []) 9 machine ≡ some (0xffffffff, machine)
unfolding syscall
syscall_unknown = refl

argptr_lem_example :
    ((argptr user 0 (pos 100) ≡ some 40)
      ↔ ((argint user 0 ≡ some 40) × (40 < 4096) × (40 + 100 ≤ 4096)))
    × (argptr user 0 (negsuc 0) ≡ none)
argptr_lem_example = argptr_lem user 0 100 40 0 (omega arith) (omega arith)

-- Process 2 sleeps from tick 7 on.
abbrev kernel : Kernel ℕ
kernel = record { table = family; world = 7 }

sys_sleep_lem_example :
    (r : Slept) × (k' : Kernel ℕ) × (sys_sleep 1 0x5000 user [] kernel ≡ some (r, k'))
    × Outcome 1 7 40 r k'
sys_sleep_lem_example = sys_sleep_lem 1 0x5000 40 user [] kernel user-argint tt refl

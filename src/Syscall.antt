-- ===== src/Syscall.antt =====
-- OperatingSystem/HW5/syscall.c: arguments from the memory of the process, and the dispatch; and
-- sysproc.c. A number is 32 bits wide; `none` from a fetch is its -1.
pub mod Args
pub mod Sleep
mod Tests
use cpp.Prelude.{
  ℕ, zero, suc, ◌+◌, ◌-◌, ◌*◌, ◌%◌, ◌^◌, Bool, true, false, ◌||◌, ltb, leb, ◌==◌, if◌then◌else◌,
  Option, none, some, List, [], ◌∷◌, get_elem?,
}
use cpp.Prelude.Int.{ℤ, pos, negsuc, minus_one}
use cpp.Strings.{Bytes}
use cpp.Kalloc.{load}
use cpp.Proc.Table.{Line, sleeping, kill, chpr, cps}
use cpp.Proc.Kernel.{Kernel, M, Callees, ◌>>=◌, ◌>>◌, pure, proc_at, modify}
use cpp.Proc.Alloc.{growproc, fork}
use cpp.Proc.Exit.{sleep}

-- The memory of the current process, its size, and the stack pointer of its trap frame.
pub record User : Type 0 where
  pub mem : Bytes
  pub sz : ℕ
  pub esp : ℕ

-- A word as a signed number.
abbrev pub to_int : ℕ → ℤ
to_int w = if ltb w (2 ^ 31) then pos w else negsuc (2 ^ 32 - 1 - w)

-- A signed number as a word.
abbrev pub to_word : ℤ → ℕ
to_word (pos n) = n % 2 ^ 32
to_word (negsuc n) = 2 ^ 32 - 1 - n % 2 ^ 32

pub fetchint : User → (addr : ℕ) → Option ℕ
fetchint u addr =
    if leb u.sz addr || ltb u.sz ((addr + 4) % 2 ^ 32) then none else some (load u.mem addr)

-- The loop of `fetchstr`, with `n` bytes up to `ep`, and `len` bytes behind it.
pub scan_string : Bytes → (s n len : ℕ) → Option ℕ
scan_string m s zero len = none
scan_string m s (suc n) len =
    let rest : Option ℕ = scan_string m (s + 1) n (len + 1) in if m s == 0 then some len else rest

pub fetchstr : User → (addr : ℕ) → Option ℕ
unfolding scan_string
fetchstr u addr = if leb u.sz addr then none else scan_string u.mem addr (u.sz - addr) 0

pub argint : User → (n : ℕ) → Option ℕ
unfolding fetchint
argint u n = fetchint u ((u.esp + 4 + 4 * n) % 2 ^ 32)

abbrev pub is_negative : ℤ → Bool
is_negative (pos n) = false
is_negative (negsuc n) = true

pub argptr : User → (n : ℕ) → (size : ℤ) → Option ℕ
unfolding argint
argptr u n size = elim (argint u n) [
  | none ↦ none
  | some i ↦
      if is_negative size || leb u.sz i || ltb u.sz ((i + to_word size) % 2 ^ 32)
      then none
      else some i
]

-- The pointer, and the length of the string.
pub argstr : User → (n : ℕ) → Option (ℕ × ℕ)
unfolding argint fetchstr
argstr u n = elim (argint u n) [
  | none ↦ none
  | some addr ↦ elim (fetchstr u addr) [ none ↦ none | some len ↦ some (addr, len) ]
]

-- `syscall`: the new `eax`. The table has the functions at their numbers, and null elsewhere.
pub syscall : {K : Type 0} → List (Option (K → Option (ℤ × K))) → (eax : ℕ) → K → Option (ℕ × K)
syscall table eax k = elim (to_int eax) [
  | negsuc n ↦ some (to_word minus_one, k)
  | pos zero ↦ some (to_word minus_one, k)
  | pos (suc n) ↦ elim (get_elem? table (suc n)) [
    | none ↦ some (to_word minus_one, k)
    | some none ↦ some (to_word minus_one, k)
    | some (some f) ↦ elim (f k) [ none ↦ none | some (r, k') ↦ some (to_word r, k') ]
  ]
]

pub data Slept : Type 0 where
  returned : ℤ → Slept
  asleep : Slept

-- The loop of `sys_sleep`, where the world is `ticks`; `chan` is its address.
pub sleep_until : (cur chan ticks0 n : ℕ) → List (Kernel ℕ → Kernel ℕ) → M ℕ Slept
unfolding sleep
sleep_until cur chan ticks0 n [] k =
    if ltb ((k.world + 2 ^ 32 - ticks0) % 2 ^ 32) n
    then (do
      me ← proc_at cur
      if me.killed
          then pure (returned minus_one)
          else do modify cur (λ p. record p { chan = chan; state = sleeping }); pure asleep)
        k
    else some (returned (pos 0), k)
sleep_until cur chan ticks0 n (o ∷ others) k = elim (ltb ((k.world + 2 ^ 32 - ticks0) % 2 ^ 32) n) [
  | true ↦
      (do
        me ← proc_at cur
        if me.killed
            then pure (returned minus_one)
            else do sleep cur chan o; sleep_until cur chan ticks0 n others)
        k
  | false ↦ some (returned (pos 0), k)
]

-- The comparison is unsigned, and so is `n` in it.
pub sys_sleep : (cur chan : ℕ) → User → List (Kernel ℕ → Kernel ℕ) → M ℕ Slept
unfolding argint sleep_until
sys_sleep cur chan u others k = elim (argint u 0) [
  | none ↦ some (returned minus_one, k)
  | some n ↦ sleep_until cur chan k.world n others k
]

module _ {W : Type 0} where
  pub sys_kill : User → M W ℤ
  unfolding argint
  sys_kill u k = elim (argint u 0) [
    | none ↦ some (minus_one, k)
    | some pid ↦ let (r, t) = kill (to_int pid) k.table in some (r, record k { table = t })
  ]

  pub sys_chpr : User → M W ℤ
  unfolding argint
  sys_chpr u k = elim (argint u 0) [
    | none ↦ some (minus_one, k)
    | some pid ↦ elim (argint u 1) [
      | none ↦ some (minus_one, k)
      | some pr ↦
          let (r, t) = chpr (to_int pid) (to_int pr) k.table in some (r, record k { table = t })
    ]
  ]

  pub sys_getpid : (cur : ℕ) → M W ℤ
  sys_getpid cur = do me ← proc_at cur; pure (to_int me.pid)

  -- The lines that are printed, too.
  pub sys_cps : M W (ℤ × List Line)
  sys_cps k = some (cps k.table, k)

  pub sys_fork : Callees W → (cur : ℕ) → M W ℤ
  sys_fork c cur = fork c cur

  pub sys_sbrk : Callees W → (cur : ℕ) → User → M W ℤ
  unfolding argint
  sys_sbrk c cur u k = elim (argint u 0) [
    | none ↦ some (minus_one, k)
    | some n ↦
        (do
          me ← proc_at cur
          r ← growproc c cur (to_int n)
          if is_negative r then pure minus_one else pure (to_int me.sz))
          k
  ]

-- ===== src/Proc/Kernel.antt =====
-- What proc.c works on: the process table, and a world `W` with the state of the components that
-- it calls (kalloc.c, vm.c, file.c, fs.c and log.c). The calls are an interface.
use cpp.Prelude.{ℕ, Option, none, some, get_elem?}
use cpp.Proc.Table.{Proc, Table, update}

pub record Kernel (W : Type 0) : Type 0 where
  pub table : Table
  pub world : W

-- `none` is a panic.
abbrev pub M : Type 0 → Type 0 → Type 0
M W A = Kernel W → Option (A × Kernel W)

module _ {W : Type 0} where
  infixl 5 ◌>>=◌ ◌>>◌
  abbrev pub ◌>>=◌ : {A B : Type 0} → M W A → (A → M W B) → M W B
  ◌>>=◌ m f k = elim (m k) [ none ↦ none | some (a, k') ↦ f a k' ]

  abbrev pub ◌>>◌ : {A B : Type 0} → M W A → M W B → M W B
  m >> n = m >>= λ _. n

  abbrev pub pure : {A : Type 0} → A → M W A
  pure a k = some (a, k)

  abbrev pub panic : {A : Type 0} → M W A
  panic k = none

  -- `*p` for `p = &ptable.proc[i]`; an index past the table is a wild pointer.
  abbrev pub proc_at : ℕ → M W Proc
  proc_at i k = elim (get_elem? k.table.procs i) [ none ↦ none | some p ↦ some (p, k) ]

  abbrev pub get_table : M W Table
  get_table k = some (k.table, k)

  abbrev pub put_table : Table → M W (Unit {0})
  put_table t k = some (tt, record k { table = t })

  abbrev pub on_table : (Table → Table) → M W (Unit {0})
  on_table f k = some (tt, record k { table = f k.table })

  -- An assignment to fields of `ptable.proc[i]`.
  abbrev pub modify : ℕ → (Proc → Proc) → M W (Unit {0})
  modify i f = on_table (λ t. update t i f)

  -- A call that works on the world alone.
  abbrev pub call : {A : Type 0} → (W → Option (A × W)) → M W A
  call f k = elim (f k.world) [ none ↦ none | some (a, w) ↦ some (a, record k { world = w }) ]

-- The functions of other files that proc.c calls. Those that can sleep, and so let other processes
-- run, work on the table too.
pub record Callees (W : Type 0) : Type 0 where
  pub trapret : ℕ
  pub forkret : ℕ
  pub kalloc : W → Option (ℕ × W)
  pub kfree : ℕ → W → Option (Unit {0} × W)
  pub copyuvm : ℕ → ℕ → W → Option (ℕ × W)
  pub freevm : ℕ → W → Option (Unit {0} × W)
  pub allocuvm : ℕ → ℕ → ℕ → W → Option (ℕ × W)
  pub deallocuvm : ℕ → ℕ → ℕ → W → Option (ℕ × W)
  pub setupkvm : W → Option (ℕ × W)
  pub inituvm : ℕ → W → Option (Unit {0} × W)
  pub filedup : ℕ → W → Option (Unit {0} × W)
  pub idup : ℕ → W → Option (Unit {0} × W)
  pub fileclose : ℕ → M W (Unit {0})
  pub begin_op : M W (Unit {0})
  pub iput : ℕ → M W (Unit {0})
  pub end_op : M W (Unit {0})
  pub namei_root : M W ℕ

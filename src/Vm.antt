-- ===== src/Vm.antt =====
-- OperatingSystem/HW5/vm.c over the memory and the free pages of kalloc.c. The kernel sees physical
-- memory from KERNBASE on; a page table is its kernel address, and 0 is the null pointer. The
-- segments and the registers of the processor are not in the state.
pub mod Copy
pub mod Space
pub mod Map
pub mod Table
pub mod Translate
pub mod Range
pub mod Mappages
pub mod Dealloc
mod Tests
use Prim.Native.Nat.{bit_or}
use cpp.Prelude.{
  ℕ, zero, suc, ◌+◌, ◌-◌, ◌*◌, ◌/◌, ◌%◌, ◌^◌, Bool, true, false, ltb, leb, ◌==◌, if◌then◌else◌,
  Option, none, some, List, [], ◌∷◌,
}
use cpp.Prelude.Int.{ℤ, pos, negsuc, minus_one}
use cpp.Strings.{memset, memmove}
use cpp.Kalloc.{Kmem, pgsize, kernbase, phystop, pgroundup, load, store, kalloc, kfree}

-- `none` is a panic.
abbrev pub V : Type 0 → Type 0
V A = Kmem → Option (A × Kmem)

infixl 5 ◌>>=◌ ◌>>◌
abbrev pub ◌>>=◌ : {A B : Type 0} → V A → (A → V B) → V B
◌>>=◌ m f k = elim (m k) [ none ↦ none | some (a, k') ↦ f a k' ]

abbrev pub ◌>>◌ : {A B : Type 0} → V A → V B → V B
m >> n = m >>= λ _. n

abbrev pub pure : {A : Type 0} → A → V A
pure a k = some (a, k)

abbrev pub panic : {A : Type 0} → V A
panic k = none

abbrev pub load_word : ℕ → V ℕ
load_word a k = some (load k.mem a, k)

abbrev pub store_word : (a w : ℕ) → V (Unit {0})
store_word a w k = some (tt, record k { mem = store k.mem a w })

abbrev pub new_page : V ℕ
new_page k = some (kalloc k)

abbrev pub free_page : ℕ → V (Unit {0})
free_page v k = elim (kfree v k) [ none ↦ none | some k' ↦ some (tt, k') ]

abbrev pub clear_page : ℕ → V (Unit {0})
clear_page v k = some (tt, record k { mem = memset k.mem v 0 pgsize })

abbrev pub move : (dst src n : ℕ) → V (Unit {0})
move dst src n k = some (tt, record k { mem = memmove k.mem dst src n })

abbrev pub pdx : ℕ → ℕ
pdx va = va / 2 ^ 22 % 1024

abbrev pub ptx : ℕ → ℕ
ptx va = va / 2 ^ 12 % 1024

abbrev pub v2p : ℕ → ℕ
v2p a = (a + 2 ^ 32 - kernbase) % 2 ^ 32

abbrev pub p2v : ℕ → ℕ
p2v a = (a + kernbase) % 2 ^ 32

abbrev pub pte_addr : ℕ → ℕ
pte_addr pte = pte - pte % 4096

abbrev pub pte_flags : ℕ → ℕ
pte_flags pte = pte % 4096

-- The lowest three bits of an entry.
abbrev pub is_present : ℕ → Bool
is_present pte = pte % 2 == 1

abbrev pub is_user : ℕ → Bool
is_user pte = pte / 4 % 2 == 1

abbrev pub pte_w_u : ℕ
pte_w_u = 6

-- `pa | PTE_P | PTE_W | PTE_U`, for any number.
abbrev pub with_all : ℕ → ℕ
with_all pa = pa - pa % 8 + 7

-- `pa | perm | PTE_P`, where `perm` has only the bits of flags.
abbrev pub with_flags : (pa perm : ℕ) → ℕ
with_flags pa perm = let w : ℕ = pa - pa % 4096 + bit_or (pa % 4096) perm in w - w % 2 + 1

abbrev pub pgrounddown : ℕ → ℕ
pgrounddown a = a - a % pgsize

-- The table that `*pde` gets, or null.
pub make_table : ℕ → V ℕ
make_table pde = do
  v ← new_page
  (if v == 0 then pure 0 else (do clear_page v; store_word pde (with_all (v2p v)); pure v))

pub walkpgdir : (pgdir va : ℕ) → (alloc : Bool) → V ℕ
unfolding make_table
walkpgdir pgdir va alloc = do
  pde ← load_word (pgdir + 4 * pdx va)
  (if is_present pde
      then pure (p2v (pte_addr pde) + 4 * ptx va)
      else if alloc
      then (do v ← make_table (pgdir + 4 * pdx va); pure (if v == 0 then 0 else v + 4 * ptx va))
      else pure 0)

-- The loop of `mappages`, on fuel.
pub map_from : (fuel pgdir a last pa perm : ℕ) → V ℤ
unfolding walkpgdir
map_from zero pgdir a last pa perm = panic
map_from (suc fuel) pgdir a last pa perm =
    let rest : V ℤ =
      map_from fuel pgdir ((a + pgsize) % 2 ^ 32) last ((pa + pgsize) % 2 ^ 32) perm in
    do
      pte ← walkpgdir pgdir a true
      old ← load_word pte
      (if pte == 0
          then pure minus_one
          else if is_present old
          then panic
          else (do store_word pte (with_flags pa perm); (if a == last then pure (pos 0) else rest)))

-- The loop ends at the last page, which is so many pages behind the first, round the end of the
-- addresses.
pub mappages : (pgdir va size pa perm : ℕ) → V ℤ
unfolding map_from
mappages pgdir va size pa perm =
    let a : ℕ = pgrounddown va in
    let last : ℕ = pgrounddown ((va + size + (2 ^ 32 - 1)) % 2 ^ 32) in
    map_from ((last + 2 ^ 32 - a) % 2 ^ 32 / pgsize + 1) pgdir a last pa perm

-- The loop of `deallocuvm`, on fuel: whether it has come to its end, `false` where the fuel is used up.
pub dealloc_from : (fuel pgdir a oldsz : ℕ) → V Bool
unfolding walkpgdir
dealloc_from zero pgdir a oldsz = pure false
dealloc_from (suc fuel) pgdir a oldsz =
    let next : V Bool = dealloc_from fuel pgdir ((a + pgsize) % 2 ^ 32) oldsz in
    let skip : V Bool = dealloc_from fuel pgdir ((pdx a + 1) * 2 ^ 22 % 2 ^ 32) oldsz in
    (if ltb a oldsz
      then (do
        pte ← walkpgdir pgdir a false
        old ← load_word pte
        (if pte == 0
            then skip
            else if is_present old
            then (if pte_addr old == 0
                then panic
                else (do free_page (p2v (pte_addr old)); store_word pte 0; next))
            else next))
      else pure true)

-- A round for each page below `oldsz`, and one to leave the loop.
pub deallocuvm : (pgdir oldsz newsz : ℕ) → V ℕ
unfolding dealloc_from
deallocuvm pgdir oldsz newsz =
    if leb oldsz newsz
    then pure oldsz
    else (do dealloc_from (oldsz / pgsize + 2) pgdir (pgroundup newsz % 2 ^ 32) oldsz; pure newsz)

-- The loop of `freevm`, over the entries from `i` on.
pub free_tables : (n i pgdir : ℕ) → V (Unit {0})
free_tables zero i pgdir = pure tt
free_tables (suc n) i pgdir = do
  pde ← load_word (pgdir + 4 * i)
  (if is_present pde then free_page (p2v (pte_addr pde)) else pure tt)
  free_tables n (i + 1) pgdir

pub freevm : ℕ → V (Unit {0})
unfolding deallocuvm free_tables
freevm pgdir =
    if pgdir == 0
    then panic
    else (do deallocuvm pgdir kernbase 0; free_tables 1024 0 pgdir; free_page pgdir)

-- `struct kmap`
pub record Kmap : Type 0 where
  pub virt : ℕ
  pub phys_start : ℕ
  pub phys_end : ℕ
  pub perm : ℕ

-- `dat` is the address that the linker gives `data`.
pub kmap : (dat : ℕ) → List Kmap
kmap dat =
    record { virt = kernbase; phys_start = 0; phys_end = 0x100000; perm = 2 }
    ∷ record { virt = kernbase + 0x100000; phys_start = 0x100000; phys_end = v2p dat; perm = 0 }
    ∷ record { virt = dat; phys_start = v2p dat; phys_end = phystop; perm = 2 }
    ∷ record { virt = 0xFE000000; phys_start = 0xFE000000; phys_end = 0; perm = 2 }
    ∷ []

abbrev pub is_negative : ℤ → Bool
is_negative (pos n) = false
is_negative (negsuc n) = true

pub map_kernel : List Kmap → (pgdir : ℕ) → V ℕ
unfolding mappages freevm
map_kernel [] pgdir = pure pgdir
map_kernel (r ∷ rs) pgdir = do
  e ← mappages pgdir r.virt ((r.phys_end + 2 ^ 32 - r.phys_start) % 2 ^ 32) r.phys_start r.perm
  (if is_negative e then (do freevm pgdir; pure 0) else map_kernel rs pgdir)

-- The test of PHYSTOP is one of constants, and passes.
pub setupkvm : (dat : ℕ) → V ℕ
unfolding kmap map_kernel
setupkvm dat = do
  pgdir ← new_page
  (if pgdir == 0 then pure 0 else (do clear_page pgdir; map_kernel (kmap dat) pgdir))

-- As in the source, the results of kalloc and mappages are not looked at.
pub inituvm : (pgdir init sz : ℕ) → V (Unit {0})
unfolding mappages
inituvm pgdir init sz = if leb pgsize sz then panic else (do
  mem ← new_page
  clear_page mem
  mappages pgdir 0 pgsize (v2p mem) pte_w_u
  move mem init sz)

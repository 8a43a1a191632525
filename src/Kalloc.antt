-- ===== src/Kalloc.antt =====
-- OperatingSystem/HW5/kalloc.c: the free list of pages. A free page holds the address of the next
-- one in its first word. Each function runs under `kmem.lock`, or before a second processor runs.
pub mod Free
pub mod Range
mod Tests
use cpp.Prelude.{
  ℕ, zero, suc, ◌+◌, ◌-◌, ◌*◌, ◌%◌, ◌/◌, ◌^◌, Bool, true, false, ◌||◌, not, ltb, leb, ◌==◌,
  if◌then◌else◌, Option, none, some,
}
use cpp.Strings.{Bytes, poke, memset}

abbrev pub pgsize : ℕ
pgsize = 4096

abbrev pub kernbase : ℕ
kernbase = 0x80000000

abbrev pub phystop : ℕ
phystop = 0xE000000

-- `kmem` without its lock, and the memory; `end` is the address that the linker gives `end`.
pub record Kmem : Type 0 where
  pub mem : Bytes
  pub freelist : ℕ
  pub end : ℕ
  pub use_lock : Bool

-- A word of four bytes, the lowest first.
unfoldable pub load : Bytes → ℕ → ℕ
load m a = m a + 256 * m (a + 1) + 65536 * m (a + 2) + 16777216 * m (a + 3)

unfoldable pub store : Bytes → ℕ → ℕ → Bytes
store m a w =
    poke (poke (poke (poke m a (w % 256)) (a + 1) (w / 256 % 256)) (a + 2) (w / 65536 % 256))
      (a + 3) (w / 16777216 % 256)

-- `v % PGSIZE || v < end || V2P(v) >= PHYSTOP`, where V2P is an unsigned difference.
abbrev pub is_bad : ℕ → ℕ → Bool
is_bad end v = not (v % pgsize == 0) || ltb v end || leb phystop ((v + 2 ^ 32 - kernbase) % 2 ^ 32)

-- `none` is a panic.
pub kfree : ℕ → Kmem → Option Kmem
unfolding store
kfree v k =
    if is_bad k.end v
    then none
    else some (record k { mem = store (memset k.mem v 1 pgsize) v k.freelist; freelist = v })

-- The page, or 0.
pub kalloc : Kmem → ℕ × Kmem
unfolding load
kalloc k =
    if k.freelist == 0 then (0, k) else (k.freelist, record k { freelist = load k.mem k.freelist })

abbrev pub pgroundup : ℕ → ℕ
pgroundup a = (a + pgsize - 1) - (a + pgsize - 1) % pgsize

-- The loop of `freerange`, for `n` rounds at most.
pub free_from : ℕ → ℕ → ℕ → Kmem → Option Kmem
unfolding kfree
free_from zero p vend k = some k
free_from (suc n) p vend k =
    if leb (p + pgsize) vend
    then elim (kfree p k) [ none ↦ none | some k' ↦ free_from n (p + pgsize) vend k' ]
    else some k

-- One round for each page up to `vend`, and none is left.
pub freerange : ℕ → ℕ → Kmem → Option Kmem
unfolding free_from
freerange vstart vend k = free_from (vend / pgsize + 1) (pgroundup vstart) vend k

-- The first pages, while there is one processor, and the rest.
pub kinit1 : ℕ → ℕ → Kmem → Option Kmem
unfolding freerange
kinit1 vstart vend k = freerange vstart vend (record k { use_lock = false })

pub kinit2 : ℕ → ℕ → Kmem → Option Kmem
unfolding freerange
kinit2 vstart vend k = elim (freerange vstart vend k) [
  | none ↦ none
  | some k' ↦ some (record k' { use_lock = true })
]

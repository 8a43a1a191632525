-- ===== src/Kalloc/Tests.antt =====
-- Two pages go through kalloc.c, and the theorems at such inputs.
use cpp.Prelude.{ℕ, ◌+◌, ◌%◌, ◌≤◌, ◌<◌, ◌≡◌, ◌⊎◌, refl, false, List, [], ◌∷◌, some, none, arith}
use cpp.Kalloc.{Kmem, pgsize, load, kfree, kalloc}
use cpp.Kalloc.Free.{contains, FreeList, kfree_lem, kalloc_lem}
use cpp.Kalloc.Range.{Usable}

-- The kernel ends in the second page, and nothing is free.
abbrev kmem : Kmem
kmem = record { mem = λ a. 0; freelist = 0; end = 0x80001234; use_lock = false }

-- The next whole page begins at 0x80002000.
usable : Usable 0x80001234 0x80002000 0x80004fff
usable = record {
  some_kernel = omega arith;
  above = omega arith;
  mapped = omega arith;
  below = omega arith;
}

out_of_memory : kalloc kmem ≡ (0, kmem)
unfolding kalloc
out_of_memory = refl

kfree_unaligned : kfree 0x80002001 kmem ≡ none
unfolding kfree
kfree_unaligned = refl

kfree_lem_example :
    (k' : Kmem) × (kfree 0x80003000 kmem ≡ some k')
    × FreeList k' (0x80003000 ∷ [])
    × (k'.end ≡ 0x80001234)
    × ((b : ℕ) → (b < 0x80003000) ⊎ (0x80003000 + pgsize ≤ b) → k'.mem b ≡ 0)
kfree_lem_example = kfree_lem 0x80003000 kmem [] refl (omega arith) (omega arith) refl refl

with_page-next : load kmem.mem 0x80003000 ≡ 0
unfolding load
with_page-next = refl

-- One page is free.
abbrev one_page : List ℕ
one_page = 0x80003000 ∷ []

abbrev with_page : Kmem
with_page = record kmem { freelist = 0x80003000 }

kalloc_lem_example :
    ((one_page ≡ []) × (kalloc with_page ≡ (0, with_page)))
    ⊎ ((p : ℕ) × (qs : List ℕ) × (k' : Kmem) × (one_page ≡ p ∷ qs)
        × (kalloc with_page ≡ (p, k'))
        × (p % pgsize ≡ 0)
        × (0 < p)
        × (contains p qs ≡ false)
        × FreeList k' qs
        × (k'.mem ≡ with_page.mem))
kalloc_lem_example =
    kalloc_lem with_page one_page (refl, refl, omega arith, omega arith, refl, with_page-next)

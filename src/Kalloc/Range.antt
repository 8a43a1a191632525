-- ===== src/Kalloc/Range.antt =====
-- `freerange` frees every whole page of its range, and nothing else.
use cpp.Prelude.{
  ℕ, zero, suc, ◌+◌, ◌*◌, ◌%◌, ◌/◌, ◌≤◌, ◌<◌, ◌≡◌, refl, ◌∙◌, inl, inr, Bool, false, ◌||◌, ◌&&◌,
  leb, ◌==◌, List, [], ◌∷◌, some, arith, Bool-cases,
}
use cpp.Kalloc.{Kmem, pgsize, kernbase, phystop, pgroundup, is_bad, free_from, freerange}
use cpp.Kalloc.Free.{contains, FreeList, kfree_lem}

-- The page at `q` lies in the range.
abbrev pub in_range : ℕ → ℕ → ℕ → Bool
in_range p vend q = leb p q && (q % pgsize == 0) && leb (q + pgsize) vend

-- The range is above the kernel and below the end of the memory.
pub record Usable (end p vend : ℕ) : Type 0 where
  pub some_kernel : 0 < end
  pub above : end ≤ p
  pub mapped : kernbase ≤ p
  pub below : vend ≤ kernbase + phystop

good-page :
    (end p vend : ℕ) → Usable end p vend → p % pgsize ≡ 0 → p + pgsize ≤ vend → is_bad end p ≡ false
good-page end p vend u aligned fits = ground (arith, u.above, u.mapped, u.below)

contains-step :
    (p vend q : ℕ) (ps : List ℕ)
    → p % pgsize ≡ 0
    → p + pgsize ≤ vend
    → (in_range (p + pgsize) vend q || contains q (p ∷ ps)) ≡ (in_range p vend q || contains q ps)
contains-step p vend q ps aligned fits = ground arith

free_from_lem :
    (n p vend : ℕ) (k : Kmem) (ps : List ℕ)
    → Usable k.end p vend
    → p % pgsize ≡ 0
    → vend < p + n * pgsize + pgsize
    → ((q : ℕ) → p ≤ q → contains q ps ≡ false)
    → FreeList k ps
    → (k' : Kmem) × (qs : List ℕ) × (free_from n p vend k ≡ some k')
      × FreeList k' qs
      × ((q : ℕ) → contains q qs ≡ (in_range p vend q || contains q ps))
unfolding free_from
free_from_lem zero p vend k ps u aligned enough out c = (k, ps, refl, c, λ q. ground arith)
free_from_lem (suc n) p vend k ps u aligned enough out c =
    elim (Bool-cases (leb (p + pgsize) vend)) [
      | inr full ↦ (k, ps, ground arith, c, λ q. ground arith)
      | inl fits ↦
          let (k₁, e, c₁, same, frame) =
            kfree_lem p k ps (good-page k.end p vend u aligned (ground arith))
              (omega (arith, u.mapped)) (ground (arith, u.below)) (out p (omega arith)) c in
          let (k', qs, e', c', all) =
            free_from_lem n (p + pgsize) vend k₁ (p ∷ ps)
              (record {
                some_kernel = omega (arith, same, u.some_kernel);
                above = omega (arith, same, u.above);
                mapped = omega (arith, u.mapped);
                below = u.below;
              })
              (omega arith) (omega arith) (λ q h. ground (arith, out q)) c₁ in
          (k', qs, ground arith, c', λ q. all q ∙ contains-step p vend q ps aligned (ground arith))
    ]

-- `freerange` with no page free yet does not panic if its range is above the kernel and below the
-- end of the memory, and then the free list has exactly the whole pages of the range, each once.
freerange_lem :
    (vstart vend : ℕ) (k : Kmem)
    → Usable k.end (pgroundup vstart) vend
    → FreeList k []
    → (k' : Kmem) × (qs : List ℕ) × (freerange vstart vend k ≡ some k')
      × FreeList k' qs
      × ((q : ℕ) → contains q qs ≡ (leb vstart q && (q % pgsize == 0) && leb (q + pgsize) vend))
unfolding freerange
freerange_lem vstart vend k u c =
    let (k', qs, e, c', all) =
      free_from_lem (vend / pgsize + 1) (pgroundup vstart) vend k [] u (omega arith) (omega arith)
        (λ q h. refl) c in
    (k', qs, e, c', λ q. all q ∙ ground arith)

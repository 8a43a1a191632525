-- ===== src/Kalloc/Free.antt =====
-- The free list of kalloc.c as a list of pages.
use cpp.Prelude.{
  ℕ, ◌+◌, ◌%◌, ◌^◌, ◌≤◌, ◌<◌, ◌≡◌, ◌≢◌, ◌⊎◌, refl, sym, ◌∙◌, subst, inl, inr, Bool, false, ◌||◌,
  ◌==◌, List, [], ◌∷◌, some, arith,
}
use cpp.Strings.{Bytes, memset}
use cpp.Strings.Memory.{memset_lem}
use cpp.Kalloc.{Kmem, pgsize, load, store, is_bad, kfree, kalloc}

abbrev pub contains : ℕ → List ℕ → Bool
contains a [] = false
contains a (b ∷ bs) = (a == b) || contains a bs

-- From the address `p` on the free list has these pages, which are aligned and all different.
abbrev pub Chain : Bytes → ℕ → List ℕ → Type 0
Chain m p [] = p ≡ 0
Chain m p (q ∷ qs) =
    (p ≡ q)
    × (q % pgsize ≡ 0)
    × (0 < q)
    × (q < 2 ^ 32)
    × (contains q qs ≡ false)
    × Chain m (load m q) qs

abbrev pub FreeList : Kmem → List ℕ → Type 0
FreeList k ps = Chain k.mem k.freelist ps

pub load-store_self : (m : Bytes) (a w : ℕ) → w < 2 ^ 32 → load (store m a w) a ≡ w
unfolding load store
load-store_self m a w h = ground arith

pub store-outside : (m : Bytes) (a w b : ℕ) → (b < a) ⊎ (a + 4 ≤ b) → store m a w b ≡ m b
unfolding store
store-outside m a w b h = ground arith

-- What `kfree` writes lies in its page.
pub written-outside :
    (m : Bytes) (v w b : ℕ) → (b < v) ⊎ (v + pgsize ≤ b) → store (memset m v 1 pgsize) v w b ≡ m b
written-outside m v w b h =
    store-outside (memset m v 1 pgsize) v w b (omega arith)
    ∙ memset_lem m v 1 pgsize b
    ∙ ground arith

load-written :
    (m : Bytes) (v w q : ℕ)
    → v % pgsize ≡ 0
    → q % pgsize ≡ 0
    → v ≢ q
    → load (store (memset m v 1 pgsize) v w) q ≡ load m q
unfolding load
load-written m v w q hv hq ne =
    let same : (i : ℕ) → i < 4 → store (memset m v 1 pgsize) v w (q + i) ≡ m (q + i) =
      λ i h. written-outside m v w (q + i) (omega arith) in
    ground (arith, same 0, same 1, same 2, same 3)

Chain-written :
    (m : Bytes) (v w p : ℕ) (qs : List ℕ)
    → v % pgsize ≡ 0
    → contains v qs ≡ false
    → Chain m p qs
    → Chain (store (memset m v 1 pgsize) v w) p qs
Chain-written m v w p [] hv out c = c
Chain-written m v w p (q ∷ qs) hv out (e, aligned, pos, range, once, rest) = (
  e,
  aligned,
  pos,
  range,
  once,
  rw (load-written m v w q hv aligned (ground arith))
      (Chain-written m v w (load m q) qs hv (ground arith) rest),
)

-- `kfree` of a page that is not free, aligned, above the kernel and below the end of the memory,
-- puts it in front of the free list, and writes nowhere else.
pub kfree_lem :
    (v : ℕ) (k : Kmem) (ps : List ℕ)
    → is_bad k.end v ≡ false
    → 0 < v
    → v < 2 ^ 32
    → contains v ps ≡ false
    → FreeList k ps
    → (k' : Kmem) × (kfree v k ≡ some k')
      × FreeList k' (v ∷ ps)
      × (k'.end ≡ k.end)
      × ((b : ℕ) → (b < v) ⊎ (v + pgsize ≤ b) → k'.mem b ≡ k.mem b)
unfolding kfree
kfree_lem v k ps good pos range out c =
    let aligned : v % pgsize ≡ 0 = ground arith in
    (
      record k { mem = store (memset k.mem v 1 pgsize) v k.freelist; freelist = v },
      ground arith,
      (
        refl,
        aligned,
        pos,
        range,
        out,
        rw (load-store_self (memset k.mem v 1 pgsize) v k.freelist (head_range k.freelist ps c))
            (Chain-written k.mem v k.freelist k.freelist ps aligned out c),
      ),
      refl,
      λ b h. written-outside k.mem v k.freelist b h,
    )
  where
    head_range : (p : ℕ) (qs : List ℕ) → Chain k.mem p qs → p < 2 ^ 32
    head_range p [] c = omega arith
    head_range p (q ∷ qs) c = omega (arith, c)

-- `kalloc` takes the first page off the free list, which is then no longer free, and writes
-- nothing; without a free page it returns 0.
pub kalloc_lem :
    (k : Kmem) (ps : List ℕ)
    → FreeList k ps
    → ((ps ≡ []) × (kalloc k ≡ (0, k)))
      ⊎ ((p : ℕ) × (qs : List ℕ) × (k' : Kmem) × (ps ≡ p ∷ qs)
          × (kalloc k ≡ (p, k'))
          × (p % pgsize ≡ 0)
          × (0 < p)
          × (contains p qs ≡ false)
          × FreeList k' qs
          × (k'.mem ≡ k.mem))
unfolding kalloc
kalloc_lem k [] c = inl (refl, ground arith)
kalloc_lem k (p ∷ qs) (e, aligned, pos, range, once, rest) = inr (
  p,
  qs,
  record k { freelist = load k.mem k.freelist },
  refl,
  ground arith,
  aligned,
  pos,
  once,
  subst (λ x. Chain k.mem (load k.mem x) qs) (sym e) rest,
  refl,
)

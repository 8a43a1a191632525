-- ===== src/Vm/Translate.antt =====
-- mappages of vm.c maps a range of pages.
use cpp.Prelude.{
  ℕ, ◌+◌, ◌*◌, ◌^◌, ◌<◌, ◌≡◌, ◌⊎◌, refl, sym, ap, subst, ◌∙◌, true, false, List, [], ◌∷◌, Option,
  some, arith, inl, inr, Bool-cases,
}
use cpp.Strings.{Bytes, memset}
use cpp.Kalloc.{Kmem, pgsize, store, kalloc}
use cpp.Kalloc.Free.{Chain, FreeList, kalloc_lem}
use cpp.Vm.{pdx, ptx, v2p, is_present, with_all, walkpgdir, make_table}
use cpp.Vm.Space.{pde_at, table_at, entry, IsSpace}
use cpp.Vm.Table.{tabled, here_present, here_table, tabled-Chain, tabled-IsSpace, tabled-entry}

-- The entry of the page at `va`.
abbrev pub entry_of : Kmem → (pgdir va : ℕ) → ℕ
entry_of k pgdir va = entry k.mem pgdir (pdx va) (ptx va)

-- An address space, and the free pages beside it.
abbrev pub Ready : Kmem → (pgdir : ℕ) → List ℕ → Type 0
Ready k pgdir ps = IsSpace k.mem pgdir ps × FreeList k ps

-- walkpgdir with `alloc` finds the table, or makes one; no entry changes. Or there is none, and no free
-- page for it.
abbrev pub Walked : (k : Kmem) (pgdir va : ℕ) → List ℕ → Option (ℕ × Kmem) → Type 0
Walked k pgdir va ps r =
    ((r ≡ some (0, k)) × (ps ≡ []) × (is_present (pde_at k.mem pgdir (pdx va)) ≡ false))
    ⊎ ((k' : Kmem) × (ps' : List ℕ) × (r ≡ some (table_at k'.mem pgdir (pdx va) + 4 * ptx va, k'))
        × Ready k' pgdir ps'
        × (is_present (pde_at k'.mem pgdir (pdx va)) ≡ true)
        × ((e u : ℕ) → e < 1024 → u < 1024 → entry k'.mem pgdir e u ≡ entry k.mem pgdir e u))

walk_makes :
    (k : Kmem) (pgdir va v : ℕ) (k₁ : Kmem)
    → is_present (pde_at k.mem pgdir (pdx va)) ≡ false
    → kalloc k ≡ (v, k₁)
    → 0 < v
    → k₁.mem ≡ k.mem
    → walkpgdir pgdir va true k
      ≡ some (
        v + 4 * ptx va,
        record k₁ { mem = store (memset k.mem v 0 pgsize) (pgdir + 4 * pdx va) (with_all (v2p v)) },
      )
unfolding walkpgdir make_table
walk_makes k pgdir va v k₁ missing e pos_v same =
    subst
      (λ m.
        walkpgdir pgdir va true k
        ≡ some (
          v + 4 * ptx va,
          record k₁ { mem = store (memset m v 0 pgsize) (pgdir + 4 * pdx va) (with_all (v2p v)) },
        ))
      same (ground (arith, e))

pub walkpgdir_lem :
    (k : Kmem) (pgdir va : ℕ) (ps : List ℕ)
    → Ready k pgdir ps
    → Walked k pgdir va ps (walkpgdir pgdir va true k)
unfolding walkpgdir make_table
walkpgdir_lem k pgdir va ps (space, free) =
    elim (Bool-cases (is_present (pde_at k.mem pgdir (pdx va)))) [
      | inl there ↦ inr (k, ps, ground arith, (space, free), there, λ e u le lu. refl)
      | inr missing ↦ elim (kalloc_lem k ps free) [
        | inl (none_left, e) ↦ inl (ground (arith, e), none_left, missing)
        | inr (v, qs, k₁, is, e, aligned, pos_v, once, free₁, same) ↦
            let space' : IsSpace k.mem pgdir (v ∷ qs) = subst (IsSpace k.mem pgdir) is space in
            let range : v < 2 ^ 32 = (subst (λ l. FreeList k l) is free).3 in
            let d : ℕ = pdx va in
            let ld : d < 1024 = omega arith in
            let m' : Bytes = tabled k.mem pgdir v qs space' d ld missing aligned range once pos_v in
            let table = here_table k.mem pgdir v qs space' d ld missing aligned range once pos_v in
            inr (
              record k₁ { mem = m' },
              qs,
              walk_makes k pgdir va v k₁ missing e pos_v same
                  ∙ ap (λ x. some (x + 4 * ptx va, record k₁ { mem = m' })) (sym table),
              (
                tabled-IsSpace k.mem pgdir v qs space' d ld missing aligned range once pos_v,
                tabled-Chain k.mem pgdir v qs space' d ld missing aligned range once pos_v
                    k₁.freelist (subst (λ m. Chain m k₁.freelist qs) same free₁),
              ),
              here_present k.mem pgdir v qs space' d ld missing aligned range once pos_v,
              tabled-entry k.mem pgdir v qs space' d ld missing aligned range once pos_v,
            )
      ]
    ]

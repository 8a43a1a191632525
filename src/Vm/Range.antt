-- ===== src/Vm/Range.antt =====
-- mappages of vm.c maps a range of pages.
use cpp.Prelude.{
  ℕ, ◌+◌, ◌-◌, ◌*◌, ◌%◌, ◌^◌, ◌≤◌, ◌<◌, ◌≡◌, ◌≢◌, ◌⊎◌, sym, ap, ap₂, subst, ◌∙◌, true, false, leb,
  ltb, [], ◌==◌, ◌&&◌, if◌then◌else◌, List, Option, some, none, arith, inl, inr, Bool-cases,
}
use cpp.Prelude.Int.{ℤ, pos, minus_one}
use cpp.Strings.{Bytes}
use cpp.Kalloc.{Kmem, pgsize, load, store}
use cpp.Vm.{pdx, ptx, is_present, with_flags, walkpgdir}
use cpp.Vm.Space.{pde_at, table_at, entry, IsSpace}
use cpp.Vm.Map.{stored-IsSpace, stored-Chain, stored_here, stored_elsewhere}
use cpp.Vm.Table.{eq_or_ne}
use cpp.Vm.Translate.{entry_of, Ready, walkpgdir_lem}

entry_word :
    (m : Bytes) (pgdir d t : ℕ)
    → is_present (pde_at m pgdir d) ≡ true
    → entry m pgdir d t ≡ load m (table_at m pgdir d + 4 * t)
unfolding entry
entry_word m pgdir d t there = ground arith

different_page :
    (va a : ℕ)
    → va % pgsize ≡ 0
    → a % pgsize ≡ 0
    → va < 2 ^ 32
    → a < 2 ^ 32
    → va ≢ a
    → (pdx va ≢ pdx a) ⊎ (ptx va ≢ ptx a)
different_page va a hv ha lv la ne = elim (eq_or_ne (pdx va) (pdx a)) [
  | inl same ↦ inr (λ q. ne (omega arith))
  | inr other ↦ inl other
]

-- The entries with the pages from `a` on, `n` and one more, at the frames from `pa` on.
abbrev pub mapped : (old : ℕ → ℕ) → (a n pa perm : ℕ) → ℕ → ℕ
mapped old a n pa perm va =
    if leb a va && leb va (a + n * pgsize) then with_flags (pa + (va - a)) perm else old va

-- The entries with `j` pages from `a` on.
abbrev pub mapped_below : (old : ℕ → ℕ) → (a j pa perm : ℕ) → ℕ → ℕ
mapped_below old a j pa perm va =
    if leb a va && ltb va (a + j * pgsize) then with_flags (pa + (va - a)) perm else old va

abbrev pub IsPage : ℕ → Type 0
IsPage va = (va % pgsize ≡ 0) × (va < 2 ^ 32)

abbrev pub Outcome : (k : Kmem) (pgdir a n pa perm : ℕ) → Option (ℤ × Kmem) → Type 0
Outcome k pgdir a n pa perm r =
    ((r ≡ none) × ((j : ℕ) × (j ≤ n) × (is_present (entry_of k pgdir (a + j * pgsize)) ≡ true)))
    ⊎ (((k' : Kmem) × (j : ℕ) × (r ≡ some (minus_one, k'))
          × (j ≤ n)
          × Ready k' pgdir []
          × (is_present (pde_at k'.mem pgdir (pdx (a + j * pgsize))) ≡ false)
          × ((va : ℕ)
              → IsPage va
              → entry_of k' pgdir va ≡ mapped_below (entry_of k pgdir) a j pa perm va))
        ⊎ ((k' : Kmem) × (ps' : List ℕ) × (r ≡ some (pos 0, k'))
            × Ready k' pgdir ps'
            × ((va : ℕ)
                → IsPage va
                → entry_of k' pgdir va ≡ mapped (entry_of k pgdir) a n pa perm va)))

-- One round: no memory, a page that is mapped, or an entry that is written.
pub data Round (k : Kmem) (pgdir a pa perm : ℕ) : Option (ℕ × Kmem) → Type 0 where
  null :
      Ready k pgdir []
      → is_present (pde_at k.mem pgdir (pdx a)) ≡ false
      → Round k pgdir a pa perm (some (0, k))
  taken :
      (p : ℕ) (k₁ : Kmem)
      → p ≢ 0
      → is_present (load k₁.mem p) ≡ true
      → is_present (entry_of k pgdir a) ≡ true
      → Round k pgdir a pa perm (some (p, k₁))
  put :
      (p : ℕ) (k₁ : Kmem) (ps' : List ℕ)
      → p ≢ 0
      → is_present (load k₁.mem p) ≡ false
      → Ready (record k₁ { mem = store k₁.mem p (with_flags pa perm) }) pgdir ps'
      → ((va : ℕ)
          → IsPage va
          → entry_of (record k₁ { mem = store k₁.mem p (with_flags pa perm) }) pgdir va
            ≡ (if va == a then with_flags pa perm else entry_of k pgdir va))
      → Round k pgdir a pa perm (some (p, k₁))

pub walk_round :
    (k : Kmem) (pgdir a pa perm : ℕ) (ps : List ℕ)
    → Ready k pgdir ps
    → IsPage a
    → with_flags pa perm < 2 ^ 32
    → Round k pgdir a pa perm (walkpgdir pgdir a true k)
walk_round k pgdir a pa perm ps ready (aligned, range) word =
    elim (walkpgdir_lem k pgdir a ps ready) [
      | inl (e, none_left, missing) ↦
          subst (Round k pgdir a pa perm) (sym e)
            (null (subst (Ready k pgdir) none_left ready) missing)
      | inr (k₁, ps', e, (space, free), there, same) ↦
          let d : ℕ = pdx a in
          let t : ℕ = ptx a in
          let ld : d < 1024 = omega arith in
          let lt : t < 1024 = omega arith in
          let p : ℕ = table_at k₁.mem pgdir d + 4 * t in
          let ne : p ≢ 0 = λ z. space.not_null d ld there (omega arith) in
          let old : load k₁.mem p ≡ entry_of k pgdir a =
            sym (entry_word k₁.mem pgdir d t there) ∙ same d t ld lt in
          subst (Round k pgdir a pa perm) (sym e) (elim (Bool-cases (is_present (load k₁.mem p))) [
            | inl present ↦ taken p k₁ ne present (ap is_present (sym old) ∙ present)
            | inr absent ↦
                put p k₁ ps' ne absent
                  (
                    stored-IsSpace k₁.mem pgdir ps' space d t (with_flags pa perm) ld lt there word,
                    stored-Chain k₁.mem pgdir ps' space d t (with_flags pa perm) ld lt there word
                        k₁.freelist free,
                  )
                  (λ va is. entries k₁ ps' space there same va is)
          ])
    ]
  where
    entries :
        (k₁ : Kmem) (ps' : List ℕ) (space : IsSpace k₁.mem pgdir ps')
        → is_present (pde_at k₁.mem pgdir (pdx a)) ≡ true
        → ((e u : ℕ) → e < 1024 → u < 1024 → entry k₁.mem pgdir e u ≡ entry k.mem pgdir e u)
        → (va : ℕ) → IsPage va
        → entry_of
            (record k₁ {
              mem = store k₁.mem (table_at k₁.mem pgdir (pdx a) + 4 * ptx a) (with_flags pa perm);
            })
            pgdir
            va
          ≡ (if va == a then with_flags pa perm else entry_of k pgdir va)
    entries k₁ ps' space there same va (hv, lv) = elim (eq_or_ne va a) [
      | inl here ↦
          ap₂
            (λ d t.
              entry (store k₁.mem (table_at k₁.mem pgdir (pdx a) + 4 * ptx a) (with_flags pa perm))
                pgdir d t)
            (ap (λ x. pdx x) here) (ap (λ x. ptx x) here)
          ∙ stored_here k₁.mem pgdir ps' space (pdx a) (ptx a) (with_flags pa perm) (omega arith)
              (omega arith) there word
          ∙ ground arith
      | inr other ↦
          stored_elsewhere k₁.mem pgdir ps' space (pdx a) (ptx a) (with_flags pa perm) (omega arith)
            (omega arith) there word (pdx va) (ptx va) (omega arith) (omega arith)
            (different_page va a hv aligned lv range other)
          ∙ same (pdx va) (ptx va) (omega arith) (omega arith)
          ∙ ground arith
    ]

-- ===== src/Vm/Mappages.antt =====
-- The loop of mappages of vm.c.
use cpp.Prelude.{
  ℕ, zero, suc, ◌+◌, ◌-◌, ◌*◌, ◌/◌, ◌%◌, ◌^◌, ◌≤◌, ◌<◌, ◌≡◌, ◌≢◌, refl, sym, ap, ap₂, subst, ◌∙◌,
  true, false, leb, [], ◌==◌, if◌then◌else◌, List, Option, some, none, arith, inl, inr, Bool-cases,
  ne→==,
}
use cpp.Prelude.Int.{ℤ, pos, minus_one}
use cpp.Kalloc.{Kmem, pgsize, load, store}
use cpp.Vm.Space.{pde_at}
use cpp.Vm.{pdx, is_present, with_flags, walkpgdir, map_from, mappages, pgrounddown}
use cpp.Vm.Table.{eq_or_ne}
use cpp.Vm.Translate.{entry_of, Ready}
use cpp.Vm.Range.{mapped, mapped_below, IsPage, Outcome, Round, null, taken, put, walk_round}

module _ (fuel pgdir a last pa perm : ℕ) (k : Kmem) where
  abbrev next : Kmem → Option (ℤ × Kmem)
  next k₂ = map_from fuel pgdir ((a + pgsize) % 2 ^ 32) last ((pa + pgsize) % 2 ^ 32) perm k₂

  step_null :
      walkpgdir pgdir a true k ≡ some (0, k)
      → map_from (suc fuel) pgdir a last pa perm k ≡ some (minus_one, k)
  unfolding map_from
  step_null e = ground arith

  step_taken :
      (p : ℕ) (k₁ : Kmem)
      → walkpgdir pgdir a true k ≡ some (p, k₁)
      → p ≢ 0
      → is_present (load k₁.mem p) ≡ true
      → map_from (suc fuel) pgdir a last pa perm k ≡ none
  unfolding map_from
  step_taken p k₁ e ne present = ground arith

  step_put :
      (p : ℕ) (k₁ : Kmem)
      → walkpgdir pgdir a true k ≡ some (p, k₁)
      → p ≢ 0
      → is_present (load k₁.mem p) ≡ false
      → let k₂ : Kmem = record k₁ { mem = store k₁.mem p (with_flags pa perm) } in
        map_from (suc fuel) pgdir a last pa perm k
        ≡ (if a == last then some (pos 0, k₂) else next k₂)
  unfolding map_from
  step_put p k₁ e ne absent = ground arith

-- No page of the range is mapped for want of a table.
Outcome-null :
    (k : Kmem) (pgdir a n pa perm : ℕ) {r : Option (ℤ × Kmem)}
    → Ready k pgdir []
    → is_present (pde_at k.mem pgdir (pdx a)) ≡ false
    → r ≡ some (minus_one, k)
    → Outcome k pgdir a n pa perm r
Outcome-null k pgdir a n pa perm none_left missing e =
    let here : a ≡ a + 0 * pgsize = omega arith in
    inr (
      inl (
        k,
        0,
        e,
        omega arith,
        none_left,
        subst (λ x. is_present (pde_at k.mem pgdir (pdx x)) ≡ false) here missing,
        λ va is. ground arith,
      ))

-- One page, and the rest behind it.
Outcome-first :
    (k k₂ : Kmem) (pgdir a pa perm : ℕ) (ps' : List ℕ)
    → Ready k₂ pgdir ps'
    → ((va : ℕ)
        → IsPage va
        → entry_of k₂ pgdir va ≡ (if va == a then with_flags pa perm else entry_of k pgdir va))
    → Outcome k pgdir a 0 pa perm (some (pos 0, k₂))
Outcome-first k k₂ pgdir a pa perm ps' ready entries =
    inr (inr (k₂, ps', refl, ready, λ va is. entries va is ∙ one va))
  where
    one :
        (va : ℕ)
        → (if va == a then with_flags pa perm else entry_of k pgdir va)
          ≡ mapped (entry_of k pgdir) a 0 pa perm va
    one va = elim (eq_or_ne va a) [
      | inl same ↦
          let frame : pa + (va - a) ≡ pa = omega arith in
          ground (arith, ap (λ x. with_flags x perm) frame)
      | inr other ↦ ground arith
    ]

Outcome-then :
    (k k₂ : Kmem) (pgdir a n pa perm : ℕ) (r : Option (ℤ × Kmem))
    → IsPage a
    → a + suc n * pgsize < 2 ^ 32
    → ((va : ℕ)
        → IsPage va
        → entry_of k₂ pgdir va ≡ (if va == a then with_flags pa perm else entry_of k pgdir va))
    → Outcome k₂ pgdir (a + pgsize) n (pa + pgsize) perm r
    → Outcome k pgdir a (suc n) pa perm r
Outcome-then k k₂ pgdir a n pa perm r (aligned, range) fits entries (inl (e, (j, le, present))) =
    let va : ℕ = a + pgsize + j * pgsize in
    let place : va ≡ a + suc j * pgsize = omega arith in
    let old : entry_of k₂ pgdir va ≡ entry_of k pgdir va =
      entries va (omega arith, omega arith) ∙ ground arith in
    inl (
      e,
      (
        suc j,
        omega arith,
        subst (λ x. is_present (entry_of k pgdir x) ≡ true) place
            (ap is_present (sym old) ∙ present),
      ),
    )
Outcome-then k k₂ pgdir a n pa perm r (aligned, range) fits entries
      (inr (inl (k', j, e, le, ready, missing, all))) =
    let place : a + pgsize + j * pgsize ≡ a + suc j * pgsize = omega arith in
    inr (
      inl (
        k',
        suc j,
        e,
        omega arith,
        ready,
        subst (λ x. is_present (pde_at k'.mem pgdir (pdx x)) ≡ false) place missing,
        λ va is. all va is ∙ both va is (entries va is),
      ))
  where
    both :
        (va : ℕ)
        → IsPage va
        → entry_of k₂ pgdir va ≡ (if va == a then with_flags pa perm else entry_of k pgdir va)
        → mapped_below (entry_of k₂ pgdir) (a + pgsize) j (pa + pgsize) perm va
          ≡ mapped_below (entry_of k pgdir) a (suc j) pa perm va
    both va (hv, lv) first = elim (eq_or_ne va a) [
      | inl same ↦
          let frame : pa + (va - a) ≡ pa = omega arith in
          ground (arith, ap (λ x. with_flags x perm) frame)
      | inr other ↦ elim (Bool-cases (leb (a + pgsize) va)) [
        | inl behind ↦
            let frame : pa + pgsize + (va - (a + pgsize)) ≡ pa + (va - a) = ground arith in
            ground (arith, ap (λ x. with_flags x perm) frame)
        | inr before ↦ ground arith
      ]
    ]
Outcome-then k k₂ pgdir a n pa perm r (aligned, range) fits entries
      (inr (inr (k', ps', e, ready, all))) =
    inr (inr (k', ps', e, ready, λ va is. all va is ∙ both va is (entries va is)))
  where
    both :
        (va : ℕ)
        → IsPage va
        → entry_of k₂ pgdir va ≡ (if va == a then with_flags pa perm else entry_of k pgdir va)
        → mapped (entry_of k₂ pgdir) (a + pgsize) n (pa + pgsize) perm va
          ≡ mapped (entry_of k pgdir) a (suc n) pa perm va
    both va (hv, lv) first = elim (eq_or_ne va a) [
      | inl same ↦
          let frame : pa + (va - a) ≡ pa = omega arith in
          ground (arith, ap (λ x. with_flags x perm) frame)
      | inr other ↦ elim (Bool-cases (leb (a + pgsize) va)) [
        | inl behind ↦
            let frame : pa + pgsize + (va - (a + pgsize)) ≡ pa + (va - a) = ground arith in
            ground (arith, ap (λ x. with_flags x perm) frame)
        | inr before ↦ ground arith
      ]
    ]

Words : (pa n perm : ℕ) → Type 0
Words pa n perm = (j : ℕ) → j ≤ n → with_flags (pa + j * pgsize) perm < 2 ^ 32

last_round :
    (fuel pgdir a last pa perm : ℕ) (k : Kmem) (ps : List ℕ) (r : Option (ℕ × Kmem))
    → Ready k pgdir ps
    → a ≡ last
    → walkpgdir pgdir a true k ≡ r
    → Round k pgdir a pa perm r
    → Outcome k pgdir a 0 pa perm (map_from (suc fuel) pgdir a last pa perm k)
last_round fuel pgdir a last pa perm k ps r ready end e (null none_left missing) =
    Outcome-null k pgdir a 0 pa perm none_left missing (step_null fuel pgdir a last pa perm k e)
last_round fuel pgdir a last pa perm k ps r ready end e (taken p k₁ ne present old) =
    let here : a + 0 * pgsize ≡ a = omega arith in
    inl (
      step_taken fuel pgdir a last pa perm k p k₁ e ne present,
      (0, omega arith, subst (λ x. is_present (entry_of k pgdir x) ≡ true) (sym here) old),
    )
last_round fuel pgdir a last pa perm k ps r ready end e (put p k₁ ps' ne absent ready' entries) =
    let k₂ : Kmem = record k₁ { mem = store k₁.mem p (with_flags pa perm) } in
    subst (Outcome k pgdir a 0 pa perm)
      (sym (step_put fuel pgdir a last pa perm k p k₁ e ne absent ∙ ground arith))
      (Outcome-first k k₂ pgdir a pa perm ps' ready' entries)

more_rounds :
    (fuel pgdir a n last pa perm : ℕ) (k : Kmem) (ps : List ℕ) (r : Option (ℕ × Kmem))
    → Ready k pgdir ps
    → IsPage a
    → a + suc n * pgsize ≡ last
    → last < 2 ^ 32
    → pa + suc n * pgsize < 2 ^ 32
    → ((k₂ : Kmem) (ps' : List ℕ)
        → Ready k₂ pgdir ps'
        → Outcome k₂ pgdir
            (a + pgsize)
            n
            (pa + pgsize)
            perm
            (map_from fuel pgdir (a + pgsize) last (pa + pgsize) perm k₂))
    → walkpgdir pgdir a true k ≡ r
    → Round k pgdir a pa perm r
    → Outcome k pgdir a (suc n) pa perm (map_from (suc fuel) pgdir a last pa perm k)
more_rounds fuel pgdir a n last pa perm k ps r ready is end range frames rest e
      (null none_left missing) =
    Outcome-null k pgdir a (suc n) pa perm none_left missing
      (step_null fuel pgdir a last pa perm k e)
more_rounds fuel pgdir a n last pa perm k ps r ready is end range frames rest e
      (taken p k₁ ne present old) =
    let here : a + 0 * pgsize ≡ a = omega arith in
    inl (
      step_taken fuel pgdir a last pa perm k p k₁ e ne present,
      (0, omega arith, subst (λ x. is_present (entry_of k pgdir x) ≡ true) (sym here) old),
    )
more_rounds fuel pgdir a n last pa perm k ps r ready is end range frames rest e
      (put p k₁ ps' ne absent ready' entries) =
    let k₂ : Kmem = record k₁ { mem = store k₁.mem p (with_flags pa perm) } in
    let next_page : (a + pgsize) % 2 ^ 32 ≡ a + pgsize = omega arith in
    let next_frame : (pa + pgsize) % 2 ^ 32 ≡ pa + pgsize = omega arith in
    let not_last : (a == last) ≡ false = ne→== a last (omega arith) in
    let step : map_from (suc fuel) pgdir a last pa perm k
        ≡ map_from fuel pgdir (a + pgsize) last (pa + pgsize) perm k₂ =
      step_put fuel pgdir a last pa perm k p k₁ e ne absent
      ∙ ap (λ b. if b then some (pos 0, k₂) else next fuel pgdir a last pa perm k k₂) not_last
      ∙ ap₂ (λ x y. map_from fuel pgdir x last y perm k₂) next_page next_frame in
    subst (Outcome k pgdir a (suc n) pa perm) (sym step)
      (Outcome-then k k₂ pgdir a n pa perm _ is (omega arith) entries (rest k₂ ps' ready'))

map_from_lem :
    (n fuel pgdir a last pa perm : ℕ) (k : Kmem) (ps : List ℕ)
    → Ready k pgdir ps
    → n < fuel
    → IsPage a
    → a + n * pgsize ≡ last
    → last < 2 ^ 32
    → pa + n * pgsize < 2 ^ 32
    → Words pa n perm
    → Outcome k pgdir a n pa perm (map_from fuel pgdir a last pa perm k)
unfolding Words
map_from_lem n zero pgdir a last pa perm k ps ready enough is end range frames words =
    absurd (omega arith)
map_from_lem zero (suc fuel) pgdir a last pa perm k ps ready enough is end range frames words =
    let here : pa + 0 * pgsize ≡ pa = omega arith in
    last_round fuel pgdir a last pa perm k ps _ ready (omega arith) refl (
      walk_round k pgdir a pa perm ps ready is
        (subst (λ x. with_flags x perm < 2 ^ 32) here (words 0 (omega arith))))
map_from_lem (suc n) (suc fuel) pgdir a last pa perm k ps ready enough is end range frames words =
    let here : pa + 0 * pgsize ≡ pa = omega arith in
    more_rounds fuel pgdir a n last pa perm k ps _ ready is end range frames
      (λ k₂ ps' ready'.
        map_from_lem n fuel pgdir (a + pgsize) last (pa + pgsize) perm k₂ ps' ready' (omega arith)
          (omega (arith, is), omega arith) (omega arith) range (omega arith)
          (λ j le.
            let frame : pa + suc j * pgsize ≡ pa + pgsize + j * pgsize = omega arith in
            subst (λ x. with_flags x perm < 2 ^ 32) frame (words (suc j) (omega arith))))
      refl
      (walk_round k pgdir a pa perm ps ready is
        (subst (λ x. with_flags x perm < 2 ^ 32) here (words 0 (omega arith))))

-- Let the tables of an address space be pages of their own that are not free. mappages of a range of
-- whole pages, in the memory and the address space, does one of three things. It maps them all: each
-- page of the range has its frame with the flags and the present bit, and no other page changes. Or
-- it returns -1, and then no page of memory is free, and the next page of the range has no table; the
-- pages in front of that one are mapped to their frames, and no other page changes. Or it panics, and a
-- page of the range was mapped before. The tables stay apart from the free pages.
pub mappages_lem :
    (pgdir a n pa perm : ℕ) (k : Kmem) (ps : List ℕ)
    → Ready k pgdir ps
    → IsPage a
    → a + suc n * pgsize ≤ 2 ^ 32
    → pa + n * pgsize < 2 ^ 32
    → ((j : ℕ) → j ≤ n → with_flags (pa + j * pgsize) perm < 2 ^ 32)
    → Outcome k pgdir a n pa perm (mappages pgdir a (suc n * pgsize) pa perm k)
unfolding mappages Words
mappages_lem pgdir a n pa perm k ps ready is fits frames words =
    let first : pgrounddown a ≡ a = omega (arith, is) in
    let end : pgrounddown ((a + suc n * pgsize + (2 ^ 32 - 1)) % 2 ^ 32) ≡ a + n * pgsize =
      omega (arith, is) in
    let rounds : (a + n * pgsize + 2 ^ 32 - a) % 2 ^ 32 / pgsize + 1 ≡ n + 1 = omega arith in
    subst
      (λ x. Outcome k pgdir a n pa perm (
        map_from
          ((pgrounddown ((a + suc n * pgsize + (2 ^ 32 - 1)) % 2 ^ 32) + 2 ^ 32 - x)
              % 2 ^ 32
              / pgsize
            + 1)
          pgdir x (pgrounddown ((a + suc n * pgsize + (2 ^ 32 - 1)) % 2 ^ 32)) pa perm k))
      (sym first)
      (subst
        (λ x.
          Outcome k pgdir a n pa perm
            (map_from ((x + 2 ^ 32 - a) % 2 ^ 32 / pgsize + 1) pgdir a x pa perm k))
        (sym end)
        (map_from_lem n _ pgdir a (a + n * pgsize) pa perm k ps ready (omega arith) is refl
          (omega (arith, is)) frames words))

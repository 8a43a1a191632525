-- ===== src/Vm/Dealloc.antt =====
-- deallocuvm of vm.c ends, though it skips the tables that are not there.
use cpp.Prelude.{
  Bool, true, subst, Option, ℕ, zero, suc, ◌+◌, ◌*◌, ◌/◌, ◌%◌, ◌^◌, ◌≤◌, ◌<◌, ◌≡◌, ◌≢◌, refl, sym,
  ap, ap₂, ◌∙◌, false, ltb, leb, ◌==◌, if◌then◌else◌, some, none, arith, inl, inr, Bool-cases,
}
use cpp.Kalloc.{Kmem, pgsize, kernbase, pgroundup}
use cpp.Vm.{
  V, ◌>>=◌, ◌>>◌, pure, panic, pdx, p2v, pte_addr, is_present, load_word, store_word, free_page,
  walkpgdir, dealloc_from, deallocuvm,
}

-- A round, with what it goes on with.
round : (pgdir a oldsz : ℕ) → (next skip : V Bool) → V Bool
round pgdir a oldsz next skip =
    (if ltb a oldsz
      then (do
        pte ← walkpgdir pgdir a false
        old ← load_word pte
        (if pte == 0
            then skip
            else if is_present old
            then (if pte_addr old == 0
                then panic
                else (do free_page (p2v (pte_addr old)); store_word pte 0; next))
            else next))
      else pure true)

dealloc_from-round :
    (fuel pgdir a oldsz : ℕ)
    → dealloc_from (suc fuel) pgdir a oldsz
      ≡ round pgdir a oldsz
          (dealloc_from fuel pgdir ((a + pgsize) % 2 ^ 32) oldsz)
          (dealloc_from fuel pgdir ((pdx a + 1) * 2 ^ 22 % 2 ^ 32) oldsz)
unfolding dealloc_from round
dealloc_from-round fuel pgdir a oldsz = refl

round-end :
    (pgdir a oldsz : ℕ) (next skip next' skip' : V Bool)
    → oldsz ≤ a
    → round pgdir a oldsz next skip ≡ round pgdir a oldsz next' skip'
unfolding round
round-end pgdir a oldsz next skip next' skip' le =
    let out : ltb a oldsz ≡ false = ground arith in rw out refl

dealloc_from-enough :
    (f g pgdir a oldsz : ℕ)
    → a % pgsize ≡ 0
    → oldsz ≤ kernbase
    → 0 < f
    → 0 < g
    → oldsz + pgsize ≤ a + f * pgsize
    → oldsz + pgsize ≤ a + g * pgsize
    → dealloc_from f pgdir a oldsz ≡ dealloc_from g pgdir a oldsz
dealloc_from-enough zero g pgdir a oldsz aligned low pf pg ef eg = absurd (omega arith)
dealloc_from-enough (suc f) zero pgdir a oldsz aligned low pf pg ef eg = absurd (omega arith)
dealloc_from-enough (suc f) (suc g) pgdir a oldsz aligned low pf pg ef eg =
    elim (Bool-cases (ltb a oldsz)) [
      | inr out ↦
          dealloc_from-round f pgdir a oldsz
          ∙ round-end pgdir a oldsz _ _ _ _ (ground arith)
          ∙ sym (dealloc_from-round g pgdir a oldsz)
      | inl below ↦
          let lt : a < oldsz = ground arith in
          let page : (a + pgsize) % 2 ^ 32 ≡ a + pgsize = omega arith in
          let skip_to : ℕ = (pdx a + 1) * 2 ^ 22 % 2 ^ 32 in
          let far : (a + pgsize ≤ skip_to) × (skip_to % pgsize ≡ 0) = omega arith in
          dealloc_from-round f pgdir a oldsz
          ∙ ap₂ (round pgdir a oldsz)
              (dealloc_from-enough f g pgdir ((a + pgsize) % 2 ^ 32) oldsz (omega arith) low
                (omega arith) (omega arith) (omega arith) (omega arith))
              (dealloc_from-enough f g pgdir skip_to oldsz far.1 low (omega arith) (omega arith)
                (omega (arith, far)) (omega (arith, far)))
          ∙ sym (dealloc_from-round g pgdir a oldsz)
    ]

-- Where `m` returns, the loop has come to its end.
record Ends (m : V Bool) : Type 0 where
  at : (k k' : Kmem) (b : Bool) → m k ≡ some (b, k') → b ≡ true

bind_at :
    {A : Type 0} (r : Option (A × Kmem)) {f : A → V Bool} {b : Bool} {k' : Kmem}
    → ((a : A) → Ends (f a))
    → elim r [ none ↦ none | some (a, k) ↦ f a k ] ≡ some (b, k')
    → b ≡ true
bind_at none h e = ground arith
bind_at (some (a, k)) {b = b} {k' = k'} h e = (h a).at k k' b e

Ends-bind : {A : Type 0} (m : V A) {f : A → V Bool} → ((a : A) → Ends (f a)) → Ends (m >>= f)
Ends-bind m h = record { at = λ k k' b e. bind_at (m k) h e }

Ends-if : (b : Bool) {l r : V Bool} → (b ≡ true → Ends l) → Ends r → Ends (if b then l else r)
Ends-if true hl hr = hl refl
Ends-if false hl hr = hr

Ends-panic : Ends panic
Ends-panic = record { at = λ k k' b e. ground arith }

Ends-done : Ends (pure true)
Ends-done = record { at = λ k k' b e. ground arith }

round-Ends :
    (pgdir a oldsz : ℕ) (next skip : V Bool)
    → (a < oldsz → Ends next)
    → (a < oldsz → Ends skip)
    → Ends (round pgdir a oldsz next skip)
unfolding round
round-Ends pgdir a oldsz next skip hn hs =
    Ends-if (ltb a oldsz)
      (λ below.
        let lt : a < oldsz = ground arith in
        Ends-bind (walkpgdir pgdir a false) (λ pte. Ends-bind (load_word pte) (λ old.
          Ends-if (pte == 0) (λ e. hs lt)
            (Ends-if (is_present old)
              (λ e.
                Ends-if (pte_addr old == 0) (λ e. Ends-panic)
                  (Ends-bind (free_page (p2v (pte_addr old)))
                    (λ x. Ends-bind (store_word pte 0) (λ y. hn lt))))
              (hn lt)))))
      Ends-done

dealloc_from-Ends :
    (f pgdir a oldsz : ℕ)
    → a % pgsize ≡ 0
    → oldsz ≤ kernbase
    → 0 < f
    → oldsz + pgsize ≤ a + f * pgsize
    → Ends (dealloc_from f pgdir a oldsz)
dealloc_from-Ends zero pgdir a oldsz aligned low pf ef = absurd (omega arith)
dealloc_from-Ends (suc f) pgdir a oldsz aligned low pf ef =
    subst Ends (sym (dealloc_from-round f pgdir a oldsz)) (
      round-Ends pgdir a oldsz _ _
        (λ lt.
          dealloc_from-Ends f pgdir ((a + pgsize) % 2 ^ 32) oldsz (omega arith) low (omega arith)
            (omega arith))
        (λ lt.
          let far : (a + pgsize ≤ (pdx a + 1) * 2 ^ 22 % 2 ^ 32)
              × ((pdx a + 1) * 2 ^ 22 % 2 ^ 32 % pgsize ≡ 0) =
            omega arith in
          dealloc_from-Ends f pgdir ((pdx a + 1) * 2 ^ 22 % 2 ^ 32) oldsz far.1 low (omega arith)
            (omega (arith, far))))

-- deallocuvm of a size that is no more than a process can have ends, whatever the tables are: if it does
-- not panic, its loop has come to its end and not run out of its rounds; and with as many rounds or more
-- the call gives the same.
pub deallocuvm_ends :
    (fuel pgdir oldsz newsz : ℕ) (k : Kmem)
    → oldsz ≤ kernbase
    → oldsz / pgsize + 2 ≤ fuel
    → ((k' : Kmem)
        → newsz < oldsz
        → dealloc_from (oldsz / pgsize + 2) pgdir (pgroundup newsz % 2 ^ 32) oldsz k
          ≢ some (false, k'))
      × (deallocuvm pgdir oldsz newsz k ≡ (
          if leb oldsz newsz
          then some (oldsz, k)
          else elim (dealloc_from fuel pgdir (pgroundup newsz % 2 ^ 32) oldsz k) [
            | none ↦ none
            | some (_, k') ↦ some (newsz, k')
          ]))
unfolding deallocuvm
deallocuvm_ends fuel pgdir oldsz newsz k low enough = (
  λ k' lt e. ground (
    arith,
    (dealloc_from-Ends (oldsz / pgsize + 2) pgdir (pgroundup newsz % 2 ^ 32) oldsz (omega arith) low
          (omega arith) (omega arith)).at
        k k' false e,
  ),
  elim (Bool-cases (leb oldsz newsz)) [
    | inl no_pages ↦ rw no_pages refl
    | inr pages ↦
        let lt : newsz < oldsz = ground arith in
        let same : dealloc_from (oldsz / pgsize + 2) pgdir (pgroundup newsz % 2 ^ 32) oldsz
            ≡ dealloc_from fuel pgdir (pgroundup newsz % 2 ^ 32) oldsz =
          dealloc_from-enough (oldsz / pgsize + 2) fuel pgdir (pgroundup newsz % 2 ^ 32) oldsz
            (omega arith) low (omega arith) (omega arith) (omega arith) (omega arith) in
        ground (arith, ap (λ f. f k) same)
  ],
)

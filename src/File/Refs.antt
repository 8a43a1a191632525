-- ===== src/File/Refs.antt =====
-- The reference counts of open files.
use cpp.Prelude.{
  ℕ, zero, suc, ◌+◌, ◌-◌, ◌<◌, ◌≡◌, ◌≢◌, ◌⊎◌, refl, sym, ap, ◌∙◌, subst, inl, inr, ◌==◌, none, some,
  List, [], ◌∷◌, get_elem?, modify_at, get_elem?-modify_at_self, get_elem?-modify_at_ne, arith,
  Bool-cases, Option-cases,
}
use cpp.File.{fd_none, File, Files, Calls, find_free, filealloc, filedup, fileclose, last_close}

find_free-found :
    (xs : List File) (j : ℕ) {i : ℕ}
    → find_free xs j ≡ some i
    → (d : ℕ) × (x : File) × (i ≡ j + d) × (get_elem? xs d ≡ some x) × (x.ref ≡ 0)
unfolding find_free
find_free-found [] j e = cc
find_free-found (x ∷ xs) j {i} e = elim (Bool-cases (x.ref == 0)) [
  | inl free ↦ (0, x, ground arith, refl, ground arith)
  | inr used ↦
      let (d, y, at, got, free) = find_free-found xs (j + 1) {i = i} (ground arith) in
      (suc d, y, omega arith, got, free)
]

find_free-none :
    (xs : List File) (j d : ℕ) {x : File}
    → find_free xs j ≡ none
    → get_elem? xs d ≡ some x
    → 0 < x.ref
unfolding find_free
find_free-none [] j d e at = cc
find_free-none (x ∷ xs) j zero e at = ground arith
find_free-none (x ∷ xs) j (suc d) e at = find_free-none xs (j + 1) d (ground arith) at

-- `filealloc` finds a file that is not in use, gives it one reference and changes nothing else, or
-- there is none and it returns null.
pub filealloc_lem :
    {W : Type 0} (k : Files W)
    → ((i : ℕ) × (x : File) × (get_elem? k.table i ≡ some x)
        × (x.ref ≡ 0)
        × (filealloc k
            ≡ some (some i, record k { table = modify_at (λ x. record x { ref = 1 }) k.table i })))
      ⊎ ((filealloc k ≡ some (none, k))
          × ((i : ℕ) (x : File) → get_elem? k.table i ≡ some x → 0 < x.ref))
unfolding filealloc
filealloc_lem k = elim (Option-cases (find_free k.table 0)) [
  | inl full ↦ inr (ground arith, λ i x at. find_free-none k.table 0 i full at)
  | inr (i, found) ↦
      let (d, x, at, got, free) = find_free-found k.table 0 found in
      let same : d ≡ i = omega arith in
      inl (i, x, subst (λ j. get_elem? k.table j ≡ some x) same got, free, ground arith)
]

-- `fileclose` of a file with several references gives one back and calls nothing; of the last one it
-- frees the slot and does with the file as it was what its type asks for; and without a
-- reference it panics.
pub fileclose_lem :
    {W : Type 0} (c : Calls W) (f : ℕ) (k : Files W) {x : File}
    → get_elem? k.table f ≡ some x
    → (1 < x.ref
        → fileclose c f k
          ≡ some (tt, record k { table = modify_at (λ x. record x { ref = x.ref - 1 }) k.table f }))
      × (x.ref ≡ 1
          → fileclose c f k
            ≡ last_close c x (record k {
              table = modify_at (λ x. record x { ref = 0; type = fd_none }) k.table f;
            }))
      × (x.ref ≡ 0 → fileclose c f k ≡ none)
unfolding fileclose
fileclose_lem c f k at = (λ more. ground arith, λ one. ground arith, λ unused. ground arith)

-- A file that is duplicated and closed again is as it was.
pub fileclose-filedup :
    {W : Type 0} (c : Calls W) (f : ℕ) (k : Files W) {x : File}
    → get_elem? k.table f ≡ some x
    → 0 < x.ref
    → (k' : Files W) × (k'' : Files W) × (filedup f k ≡ some (tt, k'))
      × (fileclose c f k' ≡ some (tt, k''))
      × (get_elem? k''.table f ≡ some x)
      × ((i : ℕ) → i ≢ f → get_elem? k''.table i ≡ get_elem? k.table i)
      × (k''.world ≡ k.world)
unfolding filedup fileclose
fileclose-filedup c f k {x} at used =
    let up : File → File = λ x. record x { ref = x.ref + 1 } in
    let down : File → File = λ x. record x { ref = x.ref - 1 } in
    let at' = get_elem?-modify_at_self up k.table f at in
    let same : x.ref + 1 - 1 ≡ x.ref = omega arith in
    let back : down (up x) ≡ x = ap (λ r. record x { ref = r }) same in
    (
      record k { table = modify_at up k.table f },
      record k { table = modify_at down (modify_at up k.table f) f },
      ground arith,
      ground arith,
      get_elem?-modify_at_self down (modify_at up k.table f) f at' ∙ ap some back,
      λ i ne.
          get_elem?-modify_at_ne down _ f i (λ e. ne (sym e))
          ∙ get_elem?-modify_at_ne up k.table f i (λ e. ne (sym e)),
      refl,
    )

-- File `f` is open.
abbrev pub IsOpen : {W : Type 0} → ℕ → Files W → Type 0
IsOpen f k = (x : File) × (get_elem? k.table f ≡ some x) × (x.ref ≢ 0)

-- `filedup` of an open file succeeds, and open files stay open.
pub filedup-IsOpen :
    {W : Type 0} (f : ℕ) (k : Files W)
    → IsOpen f k
    → (k' : Files W) × (filedup f k ≡ some (tt, k')) × ((g : ℕ) → IsOpen g k → IsOpen g k')
unfolding filedup
filedup-IsOpen f k (x, at, ne) =
    let up : File → File = λ x. record x { ref = x.ref + 1 } in
    (
      record k { table = modify_at up k.table f },
      ground arith,
      λ g (y, at', ne'). elim (Bool-cases (f == g)) [
        | inl same ↦
            let e : f ≡ g = ground arith in
            subst (λ h. IsOpen h (record k { table = modify_at up k.table f })) e
              (up x, get_elem?-modify_at_self up k.table f at, λ z. omega (arith, z))
        | inr other ↦ (y, get_elem?-modify_at_ne up k.table f g (ground arith) ∙ at', ne')
      ],
    )

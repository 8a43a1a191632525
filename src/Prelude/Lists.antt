-- ===== src/Prelude/Lists.antt =====
-- C arrays as lists that native numbers measure and index.
use Prim.Native.Nat.{ℕ, zero, suc, ◌+◌, ◌<◌}
use mathlib.Core.Path.{◌≡◌, refl, ap}
use mathlib.Core.Logic.{◌≢◌, ◌⊎◌, inl, inr}
use mathlib.Core.List.{List, [], ◌∷◌, ◌++◌, map}
use mathlib.Core.Option.{Option, none, some}
use native.Mathlib.Omega.{arith}

module _ {ℓ} {A : Type ℓ} where
  abbrev pub length : List A → ℕ
  length [] = 0
  length (x ∷ xs) = suc (length xs)

  abbrev pub get_elem? : List A → ℕ → Option A
  get_elem? [] i = none
  get_elem? (x ∷ xs) zero = some x
  get_elem? (x ∷ xs) (suc i) = get_elem? xs i

  abbrev pub get_or : List A → ℕ → A → A
  get_or [] i d = d
  get_or (x ∷ xs) zero d = x
  get_or (x ∷ xs) (suc i) d = get_or xs i d

  -- A write out of bounds changes nothing.
  abbrev pub set : List A → ℕ → A → List A
  set [] i v = []
  set (x ∷ xs) zero v = v ∷ xs
  set (x ∷ xs) (suc i) v = x ∷ set xs i v

  abbrev pub replicate : ℕ → A → List A
  replicate zero a = []
  replicate (suc n) a = a ∷ replicate n a

  abbrev pub take : ℕ → List A → List A
  take zero xs = []
  take (suc n) [] = []
  take (suc n) (x ∷ xs) = x ∷ take n xs

  abbrev pub drop : ℕ → List A → List A
  drop zero xs = xs
  drop (suc n) [] = []
  drop (suc n) (x ∷ xs) = drop n xs

  pub length-append : (xs ys : List A) → length (xs ++ ys) ≡ length xs + length ys
  length-append [] ys = omega arith
  length-append (x ∷ xs) ys = omega (arith, length-append xs ys)

  pub length-set : (xs : List A) (i : ℕ) (v : A) → length (set xs i v) ≡ length xs
  length-set [] i v = refl
  length-set (x ∷ xs) zero v = refl
  length-set (x ∷ xs) (suc i) v = ap suc (length-set xs i v)

  pub get_elem?-set_self :
      (xs : List A) (i : ℕ) (v : A) → i < length xs → get_elem? (set xs i v) i ≡ some v
  get_elem?-set_self [] i v h = elim h [ ]
  get_elem?-set_self (x ∷ xs) zero v h = refl
  get_elem?-set_self (x ∷ xs) (suc i) v h = get_elem?-set_self xs i v (omega arith)

  pub get_elem?-set_ne :
      (xs : List A) (i j : ℕ) (v : A) → i ≢ j → get_elem? (set xs i v) j ≡ get_elem? xs j
  get_elem?-set_ne [] i j v h = refl
  get_elem?-set_ne (x ∷ xs) zero zero v h = absurd (h refl)
  get_elem?-set_ne (x ∷ xs) zero (suc j) v h = refl
  get_elem?-set_ne (x ∷ xs) (suc i) zero v h = refl
  get_elem?-set_ne (x ∷ xs) (suc i) (suc j) v h = get_elem?-set_ne xs i j v (λ e. h (ap suc e))

  pub lt_length_of_get_elem? :
      (xs : List A) (i : ℕ) {a : A} → get_elem? xs i ≡ some a → i < length xs
  lt_length_of_get_elem? [] i h = ground arith
  lt_length_of_get_elem? (x ∷ xs) zero h = omega arith
  lt_length_of_get_elem? (x ∷ xs) (suc i) h = omega (arith, lt_length_of_get_elem? xs i h)

  pub get_or-set_self :
      (xs : List A) (i : ℕ) (v d : A) → i < length xs → get_or (set xs i v) i d ≡ v
  get_or-set_self [] i v d h = elim h [ ]
  get_or-set_self (x ∷ xs) zero v d h = refl
  get_or-set_self (x ∷ xs) (suc i) v d h = get_or-set_self xs i v d (omega arith)

  pub get_or-set_ne :
      (xs : List A) (i j : ℕ) (v d : A) → i ≢ j → get_or (set xs i v) j d ≡ get_or xs j d
  get_or-set_ne [] i j v d h = refl
  get_or-set_ne (x ∷ xs) zero zero v d h = absurd (h refl)
  get_or-set_ne (x ∷ xs) zero (suc j) v d h = refl
  get_or-set_ne (x ∷ xs) (suc i) zero v d h = refl
  get_or-set_ne (x ∷ xs) (suc i) (suc j) v d h = get_or-set_ne xs i j v d (λ e. h (ap suc e))

pub length-map {ℓ κ} :
    {A : Type ℓ} {B : Type κ} (f : A → B) (xs : List A) → length (map f xs) ≡ length xs
length-map f [] = refl
length-map f (x ∷ xs) = ap suc (length-map f xs)

-- What stands in a mapped list is the image of what stood there.
pub get_elem?-map_inv {ℓ κ} :
    {A : Type ℓ} {B : Type κ} (f : A → B) (xs : List A) (i : ℕ) {b : B}
    → get_elem? (map f xs) i ≡ some b
    → (a : A) × (get_elem? xs i ≡ some a) × (f a ≡ b)
get_elem?-map_inv f [] i e = cc
get_elem?-map_inv f (x ∷ xs) zero e = (x, refl, cc)
get_elem?-map_inv f (x ∷ xs) (suc i) e = get_elem?-map_inv f xs i e

module _ {ℓ} {A : Type ℓ} where
  -- `xs[i] = f(xs[i])`; out of bounds it changes nothing.
  abbrev pub modify_at : (A → A) → List A → ℕ → List A
  modify_at f [] i = []
  modify_at f (x ∷ xs) zero = f x ∷ xs
  modify_at f (x ∷ xs) (suc i) = x ∷ modify_at f xs i

  pub length-modify_at : (f : A → A) (xs : List A) (i : ℕ) → length (modify_at f xs i) ≡ length xs
  length-modify_at f [] i = refl
  length-modify_at f (x ∷ xs) zero = refl
  length-modify_at f (x ∷ xs) (suc i) = ap suc (length-modify_at f xs i)

  pub get_elem?-modify_at_self :
      (f : A → A) (xs : List A) (i : ℕ) {a : A}
      → get_elem? xs i ≡ some a
      → get_elem? (modify_at f xs i) i ≡ some (f a)
  get_elem?-modify_at_self f [] i e = cc
  get_elem?-modify_at_self f (x ∷ xs) zero e = cc
  get_elem?-modify_at_self f (x ∷ xs) (suc i) e = get_elem?-modify_at_self f xs i e

  pub get_elem?-modify_at_ne :
      (f : A → A) (xs : List A) (i j : ℕ) → i ≢ j → get_elem? (modify_at f xs i) j ≡ get_elem? xs j
  get_elem?-modify_at_ne f [] i j h = refl
  get_elem?-modify_at_ne f (x ∷ xs) zero zero h = absurd (h refl)
  get_elem?-modify_at_ne f (x ∷ xs) zero (suc j) h = refl
  get_elem?-modify_at_ne f (x ∷ xs) (suc i) zero h = refl
  get_elem?-modify_at_ne f (x ∷ xs) (suc i) (suc j) h =
      get_elem?-modify_at_ne f xs i j (λ e. h (ap suc e))

  pub get_elem?-modify_at_inv :
      (f : A → A) (xs : List A) (i j : ℕ) {b : A}
      → get_elem? (modify_at f xs i) j ≡ some b
      → (a : A) × (get_elem? xs j ≡ some a) × (((i ≡ j) × (f a ≡ b)) ⊎ ((i ≢ j) × (a ≡ b)))
  get_elem?-modify_at_inv f [] i j e = cc
  get_elem?-modify_at_inv f (x ∷ xs) zero zero e = (x, refl, inl (refl, cc))
  get_elem?-modify_at_inv f (x ∷ xs) zero (suc j) e = (_, e, inr (omega arith, refl))
  get_elem?-modify_at_inv f (x ∷ xs) (suc i) zero e = (x, refl, inr (omega arith, cc))
  get_elem?-modify_at_inv f (x ∷ xs) (suc i) (suc j) e =
      let (a, at, how) = get_elem?-modify_at_inv f xs i j e in
      (a, at, elim how [ inl h ↦ inl (ap suc h.0, h.1) | inr h ↦ inr (omega (arith, h.0), h.1) ])

pub get_elem?-map {ℓ κ} :
    {A : Type ℓ} {B : Type κ} (f : A → B) (xs : List A) (i : ℕ) {a : A}
    → get_elem? xs i ≡ some a
    → get_elem? (map f xs) i ≡ some (f a)
get_elem?-map f [] i e = cc
get_elem?-map f (x ∷ xs) zero e = cc
get_elem?-map f (x ∷ xs) (suc i) e = get_elem?-map f xs i e

pub modify_at-modify_at {ℓ} :
    {A : Type ℓ} (f g : A → A) (xs : List A) (i : ℕ)
    → modify_at g (modify_at f xs i) i ≡ modify_at (λ x. g (f x)) xs i
modify_at-modify_at f g [] i = refl
modify_at-modify_at f g (x ∷ xs) zero = refl
modify_at-modify_at f g (x ∷ xs) (suc i) = ap (λ ys. x ∷ ys) (modify_at-modify_at f g xs i)

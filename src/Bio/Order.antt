-- ===== src/Bio/Order.antt =====
-- The list of buffers has each buffer once.
use cpp.Prelude.{
  ℕ, zero, suc, ◌+◌, ◌-◌, ◌<◌, ◌≡◌, ◌∙◌, inl, inr, Bool, true, false, ◌&&◌, ltb, leb, ◌==◌,
  if◌then◌else◌, none, some, List, [], ◌∷◌, length, get_elem?, lt_length_of_get_elem?,
  length-modify_at, arith, Bool-cases, Option-cases, ◌%◌, ◌^◌,
}
use cpp.Blocks.{Block}
use cpp.Bio.{Buf, Cache, nbuf, link_from, binit, find, find_last, remove, brelse, last_user}

abbrev pub count : ℕ → List ℕ → ℕ
count i [] = 0
count i (j ∷ js) = (if i == j then 1 else 0) + count i js

-- The numbers below `n`, each once.
abbrev pub IsOrder : List ℕ → ℕ → Type 0
IsOrder order n = (i : ℕ) → count i order ≡ (if ltb i n then 1 else 0)

count-link_from :
    (n i k : ℕ) (order : List ℕ)
    → count k (link_from n i order) ≡ (if leb i k && ltb k (i + n) then 1 else 0) + count k order
unfolding link_from
count-link_from zero i k order = ground arith
count-link_from (suc n) i k order = ground (arith, count-link_from n (i + 1) k (i ∷ order))

count-remove :
    (i k : ℕ) (order : List ℕ)
    → count k (remove i order) ≡ count k order - (if k == i then 1 else 0)
unfolding remove
count-remove i k [] = ground arith
count-remove i k (j ∷ order) = ground (arith, count-remove i k order)

-- `binit` puts each buffer into the list once, and a release leaves it so.
pub binit-IsOrder : (disk : ℕ → ℕ → Block) (n : ℕ) → IsOrder (binit disk n).order nbuf
unfolding binit
binit-IsOrder disk n k = count-link_from nbuf 0 k [] ∙ ground arith

pub brelse-IsOrder :
    (i : ℕ) (c : Cache) {b : Buf}
    → get_elem? c.bufs i ≡ some b
    → IsOrder c.order (length c.bufs)
    → IsOrder (brelse i c).order (length (brelse i c).bufs)
unfolding brelse
brelse-IsOrder i c at o k = elim (Bool-cases (last_user (get_elem? c.bufs i))) [
  | inl last ↦ ground (
    arith,
    o k,
    o i,
    count-remove i k c.order,
    lt_length_of_get_elem? c.bufs i at,
    length-modify_at (λ b. record b { refcnt = (b.refcnt + (2 ^ 32 - 1)) % 2 ^ 32 }) c.bufs i,
  )
  | inr more ↦ ground (
    arith,
    o k,
    length-modify_at (λ b. record b { refcnt = (b.refcnt + (2 ^ 32 - 1)) % 2 ^ 32 }) c.bufs i,
  )
]

-- A buffer in the list is found, and one that passes is missed by no scan.
pub find-passes :
    (p : Buf → Bool) (bufs : List Buf) (order : List ℕ) {i : ℕ}
    → find p bufs order ≡ some i
    → (b : Buf) × (get_elem? bufs i ≡ some b) × (p b ≡ true)
unfolding find
find-passes p bufs [] e = cc
find-passes p bufs (j ∷ order) {i} e = elim (Option-cases (get_elem? bufs j)) [
  | inl out ↦ find-passes p bufs order (ground arith)
  | inr (b, at) ↦ elim (Bool-cases (p b)) [
    | inl passes ↦ (b, ground arith, passes)
    | inr fails ↦ find-passes p bufs order (ground arith)
  ]
]

pub find_last-passes :
    (p : Buf → Bool) (bufs : List Buf) (order : List ℕ) {i : ℕ}
    → find_last p bufs order ≡ some i
    → (b : Buf) × (get_elem? bufs i ≡ some b) × (p b ≡ true)
unfolding find_last
find_last-passes p bufs [] e = cc
find_last-passes p bufs (j ∷ order) {i} e = elim (Option-cases (find_last p bufs order)) [
  | inr (k, later) ↦ find_last-passes p bufs order (ground arith)
  | inl nothing ↦ elim (Option-cases (get_elem? bufs j)) [
    | inl out ↦ absurd (ground arith)
    | inr (b, at) ↦ elim (Bool-cases (p b)) [
      | inl passes ↦ (b, ground arith, passes)
      | inr fails ↦ absurd (ground arith)
    ]
  ]
]

pub find-misses :
    (p : Buf → Bool) (bufs : List Buf) (order : List ℕ) (i : ℕ) {b : Buf}
    → find p bufs order ≡ none
    → 0 < count i order
    → get_elem? bufs i ≡ some b
    → p b ≡ false
unfolding find
find-misses p bufs [] i e there at = absurd (omega arith)
find-misses p bufs (j ∷ order) i {b} e there at = elim (Bool-cases (i == j)) [
  | inl here ↦ let at' : get_elem? bufs j ≡ some b = ground arith in ground arith
  | inr on ↦ find-misses p bufs order i (ground arith) (ground arith) at
]

pub find_last-misses :
    (p : Buf → Bool) (bufs : List Buf) (order : List ℕ) (i : ℕ) {b : Buf}
    → find_last p bufs order ≡ none
    → 0 < count i order
    → get_elem? bufs i ≡ some b
    → p b ≡ false
unfolding find_last
find_last-misses p bufs [] i e there at = absurd (omega arith)
find_last-misses p bufs (j ∷ order) i {b} e there at = elim (Bool-cases (i == j)) [
  | inl here ↦ let at' : get_elem? bufs j ≡ some b = ground arith in ground arith
  | inr on ↦ find_last-misses p bufs order i (ground arith) (ground arith) at
]

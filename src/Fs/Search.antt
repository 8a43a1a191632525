-- ===== src/Fs/Search.antt =====
-- The loops of balloc in fs.c find the first free block.
use cpp.Prelude.{
  ℕ, zero, suc, ◌+◌, ◌-◌, ◌*◌, ◌/◌, ◌%◌, ◌≤◌, ◌<◌, ◌≡◌, ◌⊎◌, trichotomy, refl, ap, ap₂, subst, ◌∙◌,
  true, false, ltb, ◌==◌, none, some, arith, Bool-cases, inl, inr,
}
use cpp.Strings.{Bytes}
use cpp.Fs.{Fs, bpb, bblock, is_clear, find_clear, mark, balloc_from}
use cpp.Fs.Mounted.{is_free, IsFirst}

find_clear_lem :
    (n b bi size : ℕ) (bits : Bytes)
    → ((find_clear n b bi size bits ≡ none)
        × ((i : ℕ) → bi ≤ i → i < bi + n → b + i < size → is_clear bits i ≡ false))
      ⊎ ((r : ℕ) × (find_clear n b bi size bits ≡ some r)
          × (bi ≤ r)
          × (r < bi + n)
          × (b + r < size)
          × (is_clear bits r ≡ true)
          × ((i : ℕ) → bi ≤ i → i < r → is_clear bits i ≡ false))
unfolding find_clear
find_clear_lem zero b bi size bits = inl (refl, λ i lo hi. absurd (omega arith))
find_clear_lem (suc n) b bi size bits = elim (Bool-cases (ltb (b + bi) size)) [
  | inr out ↦ inl (rw out, λ i lo hi below. absurd (ground arith))
  | inl below ↦ elim (Bool-cases (is_clear bits bi)) [
    | inl clear ↦ inr (
      bi,
      rw (below, clear),
      omega arith,
      omega arith,
      ground arith,
      clear,
      λ i lo hi. absurd (omega arith),
    )
    | inr used ↦ elim (find_clear_lem n b (bi + 1) size bits) [
      | inl (e, all) ↦ inl (
        rw (below, used) e,
        λ i lo hi in_size. elim (Bool-cases (i == bi)) [
          | inl same ↦ ground (arith, ap (is_clear bits) (eq_of i bi same))
          | inr other ↦ all i (ground arith) (omega arith) in_size
        ],
      )
      | inr (r, e, lo, hi, in_size, clear, all) ↦ inr (
        r,
        rw (below, used) e,
        omega arith,
        omega arith,
        in_size,
        clear,
        λ i lo' hi'. elim (Bool-cases (i == bi)) [
          | inl same ↦ ground (arith, ap (is_clear bits) (eq_of i bi same))
          | inr other ↦ all i (ground arith) hi'
        ],
      )
    ]
  ]
]
  where
    eq_of : (i j : ℕ) → (i == j) ≡ true → i ≡ j
    eq_of i j h = ground arith

-- Every block below `n` that the file system has is in use.
abbrev pub AllUsed : (dev : ℕ) → Fs → ℕ → Type 0
AllUsed dev s n = (x : ℕ) → x < n → x < s.sb.size → is_free dev s x ≡ false

-- A block of the bitmap speaks of the blocks from `b` on.
bit_of :
    (dev : ℕ) (s : Fs) (b i : ℕ)
    → b % bpb ≡ 0
    → i < bpb
    → is_free dev s (b + i) ≡ is_clear (s.disk dev (bblock b s.sb)) i
bit_of dev s b i aligned lt = ap₂ (λ q r. is_clear (s.disk dev (q + s.sb.bmapstart)) r) block place
  where
    block : (b + i) / bpb ≡ b / bpb
    block = omega arith

    place : (b + i) % bpb ≡ i
    place = omega arith

not_below : (a b : ℕ) → ltb a b ≡ false → b ≤ a
not_below a b h = ground arith

pub balloc_from_lem :
    (fuel dev b : ℕ) (s : Fs)
    → b % bpb ≡ 0
    → s.sb.size < b + fuel * bpb
    → AllUsed dev s b
    → ((balloc_from fuel dev b s ≡ none) × AllUsed dev s s.sb.size)
      ⊎ ((c r : ℕ) × (balloc_from fuel dev b s ≡ mark dev c r s)
          × (c % bpb ≡ 0)
          × (r < bpb)
          × IsFirst dev s (c + r))
unfolding balloc_from
balloc_from_lem zero dev b s aligned enough used = inl (refl, λ x lt. used x (omega arith))
balloc_from_lem (suc fuel) dev b s aligned enough used = elim (Bool-cases (ltb b s.sb.size)) [
  | inr past ↦ inl (rw past, λ x lt is. used x (omega (arith, not_below _ _ past)) is)
  | inl more ↦ elim (find_clear_lem bpb b 0 s.sb.size (s.disk dev (bblock b s.sb))) [
    | inr (r, e, lo, hi, in_size, clear, all) ↦ inr (
      b,
      r,
      rw (more, e),
      aligned,
      omega arith,
      record {
        in_size = in_size;
        clear = bit_of dev s b r aligned (omega arith) ∙ clear;
        lowest = λ x lt. elim (trichotomy x b) [
          | inl before ↦ used x before (omega arith)
          | inr (inl at) ↦
              here x (omega arith) (omega arith) (all (x - b) (omega arith) (omega arith))
          | inr (inr behind) ↦
              here x (omega arith) (omega arith) (all (x - b) (omega arith) (omega arith))
        ];
      },
    )
    | inl (e, all) ↦
        let now : AllUsed dev s (b + bpb) = λ x lt is. elim (trichotomy x b) [
          | inl before ↦ used x before is
          | inr (inl at) ↦
              here x (omega arith) (omega arith)
                (all (x - b) (omega arith) (omega arith) (omega arith))
          | inr (inr behind) ↦
              here x (omega arith) (omega arith)
                (all (x - b) (omega arith) (omega arith) (omega arith))
        ] in
        elim (balloc_from_lem fuel dev (b + bpb) s (omega arith) (omega arith) now) [
          | inl (e', all') ↦ inl (rw (more, e) e', all')
          | inr (c, r, e', p₁, p₂, p₃) ↦ inr (c, r, rw (more, e) e', p₁, p₂, p₃)
        ]
  ]
]
  where
    here :
        (x : ℕ)
        → b ≤ x
        → x < b + bpb
        → is_clear (s.disk dev (bblock b s.sb)) (x - b) ≡ false
        → is_free dev s x ≡ false
    here x lo hi e =
        let at : b + (x - b) ≡ x = omega arith in
        subst (λ y. is_free dev s y ≡ false) at (bit_of dev s b (x - b) aligned (omega arith) ∙ e)

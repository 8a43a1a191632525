-- ===== src/Bio/Get.antt =====
-- `bget`: which buffer it takes, and that no block gets two.
use cpp.Prelude.{
  ℕ, ◌+◌, ◌%◌, ◌^◌, ◌<◌, ◌≡◌, ◌≢◌, ◌⊎◌, refl, sym, ◌∙◌, subst, inl, inr, true, false, none, some,
  length, get_elem?, lt_length_of_get_elem?, length-modify_at, get_elem?-modify_at_inv, arith,
  Option-cases,
}
use cpp.Bio.{Buf, Cache, update, is_block, is_unused, find, find_last, bget}
use cpp.Bio.Order.{count, IsOrder, find-passes, find_last-passes, find-misses, find_last-misses}

-- The list has each buffer once, and no two buffers are for the same block of a disk but disk 0,
-- which all buffers name when the kernel starts.
pub record IsValid (c : Cache) : Type 0 where
  pub order : IsOrder c.order (length c.bufs)
  pub one_each :
      (i j : ℕ) (x y : Buf)
      → get_elem? c.bufs i ≡ some x
      → get_elem? c.bufs j ≡ some y
      → x.dev ≢ 0
      → x.dev ≡ y.dev
      → x.blockno ≡ y.blockno
      → i ≡ j

abbrev pub hit : Buf → Buf
hit b = record b { refcnt = (b.refcnt + 1) % 2 ^ 32 }

abbrev pub recycled : (dev blockno : ℕ) → Buf → Buf
recycled dev blockno b = record b {
  dev = dev;
  blockno = blockno;
  valid = false;
  dirty = false;
  refcnt = 1;
}

listed :
    (c : Cache) (i : ℕ) {b : Buf} → IsValid c → get_elem? c.bufs i ≡ some b → 0 < count i c.order
listed c i v at = ground (arith, v.order i, lt_length_of_get_elem? c.bufs i at)

-- The three ways of `bget`: the block has a buffer, which gets a reference more; or it has none, and
-- a buffer that is not in use becomes its buffer; or it has none and all are in use, a panic.
pub bget_lem :
    (dev blockno : ℕ) (c : Cache)
    → IsValid c
    → ((i : ℕ) × (b : Buf) × (get_elem? c.bufs i ≡ some b)
        × (is_block dev blockno b ≡ true)
        × (bget dev blockno c ≡ some (i, update c i hit)))
      ⊎ (((i : ℕ) (b : Buf) → get_elem? c.bufs i ≡ some b → is_block dev blockno b ≡ false)
          × (((i : ℕ) × (b : Buf) × (get_elem? c.bufs i ≡ some b)
                × (is_unused b ≡ true)
                × (bget dev blockno c ≡ some (i, update c i (recycled dev blockno))))
              ⊎ (((i : ℕ) (b : Buf) → get_elem? c.bufs i ≡ some b → is_unused b ≡ false)
                  × (bget dev blockno c ≡ none))))
unfolding bget
bget_lem dev blockno c v = elim (Option-cases (find (is_block dev blockno) c.bufs c.order)) [
  | inr (i, found) ↦
      let (b, at, passes) = find-passes (is_block dev blockno) c.bufs c.order found in
      inl (i, b, at, passes, ground arith)
  | inl absent ↦ inr (
    λ i b at. find-misses (is_block dev blockno) c.bufs c.order i absent (listed c i v at) at,
    elim (Option-cases (find_last is_unused c.bufs c.order)) [
      | inr (i, found) ↦
          let (b, at, passes) = find_last-passes is_unused c.bufs c.order found in
          inl (i, b, at, passes, ground arith)
      | inl full ↦ inr (
        λ i b at. find_last-misses is_unused c.bufs c.order i full (listed c i v at) at,
        ground arith,
      )
    ],
  )
]

-- A change of one buffer keeps `IsValid` if it keeps the block, or the new block had no buffer.
pub IsValid-update :
    (c : Cache) (i : ℕ) (f : Buf → Buf)
    → ((b : Buf)
        → get_elem? c.bufs i ≡ some b
        → ((f b).dev ≡ b.dev) × ((f b).blockno ≡ b.blockno)
          ⊎ ((j : ℕ) (y : Buf)
              → get_elem? c.bufs j ≡ some y
              → is_block (f b).dev (f b).blockno y ≡ false))
    → IsValid c
    → IsValid (update c i f)
IsValid-update c i f ok v = record {
  order = λ k. ground (arith, v.order k, length-modify_at f c.bufs i);
  one_each = λ j k x y at at' disk d n.
      let (a, was, how) = get_elem?-modify_at_inv f c.bufs i j at in
      let (b, was', how') = get_elem?-modify_at_inv f c.bufs i k at' in
      elim how [
        | inl here ↦ elim how' [
          | inl here' ↦ sym here.0 ∙ here'.0
          | inr there' ↦ absurd (
              clash k a b (subst (λ j. get_elem? c.bufs j ≡ some a) (sym here.0) was) was'
                (λ e. there'.0 e) (ground arith) (ground arith) (ground arith))
        ]
        | inr there ↦ elim how' [
          | inl here' ↦ absurd (
              clash j b a (subst (λ j. get_elem? c.bufs j ≡ some b) (sym here'.0) was') was
                (λ e. there.0 e) (ground arith) (ground arith) (ground arith))
          | inr there' ↦ v.one_each j k a b was was' (ground arith) (ground arith) (ground arith)
        ]
      ];
}
  where
    clash :
        (j : ℕ) (b y : Buf)
        → get_elem? c.bufs i ≡ some b
        → get_elem? c.bufs j ≡ some y
        → i ≢ j
        → (f b).dev ≢ 0
        → (f b).dev ≡ y.dev
        → (f b).blockno ≢ y.blockno
    clash j b y at at' ne disk d n = elim (ok b at) [
      | inl same ↦ ne (v.one_each i j b y at at' (ground arith) (sym same.0 ∙ d) (sym same.1 ∙ n))
      | inr absent ↦ ground (arith, absent j y at')
    ]

-- Where the list has each buffer once, and no block of a disk other than disk 0 has two buffers,
-- the same is so after `bget`.
pub bget-IsValid :
    (dev blockno : ℕ) (c : Cache) {i : ℕ} {c' : Cache}
    → bget dev blockno c ≡ some (i, c')
    → IsValid c
    → IsValid c'
bget-IsValid dev blockno c {i} {c'} e v = elim (bget_lem dev blockno c v) [
  | inl (j, b, at, is, e') ↦
      let same : update c j hit ≡ c' = ground arith in
      subst IsValid same (IsValid-update c j hit (λ b at. inl (refl, refl)) v)
  | inr (absent, inl (j, b, at, un, e')) ↦
      let same : update c j (recycled dev blockno) ≡ c' = ground arith in
      subst IsValid same (IsValid-update c j (recycled dev blockno) (λ b at. inr absent) v)
  | inr (absent, inr (full, e')) ↦ absurd (ground arith)
]

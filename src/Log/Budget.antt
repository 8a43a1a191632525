-- ===== src/Log/Budget.antt =====
-- `log_write` and `end_op` of operations that stay within what they have reserved.
use cpp.Prelude.{
  ℕ, suc, ◌+◌, ◌≤◌, ◌<◌, ◌≡◌, refl, ap, ◌∙◌, inl, inr, Bool, true, false, ltb, ◌==◌, if◌then◌else◌,
  List, [], ◌∷◌, ◌++◌, length, length-append, some, arith, Bool-cases,
}
use cpp.Prelude.Int.{ℤ, pos}
use cpp.Proc.Table.{wakeup}
use cpp.Proc.Kernel.{Kernel}
use cpp.Log.{
  Log, World, logsize, has, decrement, write_log, write_head, install_trans, commit, end_op,
  log_write,
}
use cpp.Log.Space.{sum, within, sum-within, Reserved}

within-spend :
    (cs : List ℕ) (n : ℕ) (bs : List ℕ)
    → within (cs ++ suc n ∷ bs) ≡ true
    → within (cs ++ n ∷ bs) ≡ true
within-spend [] n bs w = ground arith
within-spend (a ∷ cs) n bs w = ground (arith, within-spend cs n bs)

within-drop :
    (cs : List ℕ) (n : ℕ) (bs : List ℕ) → within (cs ++ n ∷ bs) ≡ true → within (cs ++ bs) ≡ true
within-drop [] n bs w = ground arith
within-drop (a ∷ cs) n bs w = ground (arith, within-drop cs n bs)

length-middle :
    (cs : List ℕ) (n : ℕ) (bs : List ℕ) → length (cs ++ n ∷ bs) ≡ suc (length (cs ++ bs))
length-middle [] n bs = refl
length-middle (c ∷ cs) n bs = ap suc (length-middle cs n bs)

sum-middle : (cs : List ℕ) (n : ℕ) (bs : List ℕ) → sum (cs ++ n ∷ bs) ≡ n + sum (cs ++ bs)
sum-middle [] n bs = refl
sum-middle (c ∷ cs) n bs = omega (arith, sum-middle cs n bs)

absorb : ℕ → List ℕ → List ℕ
absorb b ns = if has b ns then ns else ns ++ (b ∷ [])

length-absorb : (b : ℕ) (ns : List ℕ) → length (absorb b ns) ≤ length ns + 1
unfolding absorb
length-absorb b ns = ground (arith, length-append ns (b ∷ []))

-- Let the operations under way be within their reservations, one with part of its share left, and
-- let the log on the disk have room for all that is reserved, beside its header. Then `log_write` does
-- not panic, the block is in the log, the operations are within their reservations with one block less
-- for that one, and the log still has room for them.
pub log_write-Reserved :
    (b n : ℕ) (cs bs : List ℕ) (k : Kernel World)
    → length k.world.log.blocks + sum (cs ++ suc n ∷ bs) < k.world.log.size
    → Reserved (cs ++ suc n ∷ bs) k.world
    → (k' : Kernel World) × (log_write b k ≡ some (tt, k'))
      × Reserved (cs ++ n ∷ bs) k'.world
      × (has b k'.world.log.blocks ≡ true)
      × (length k'.world.log.blocks + sum (cs ++ n ∷ bs) < k'.world.log.size)
unfolding log_write absorb
log_write-Reserved b n cs bs k size r =
    let w : World = k.world in
    let l : Log = record w.log { blocks = absorb b w.log.blocks } in
    let room : length w.log.blocks < logsize = omega (arith, r.fits, sum-middle cs (suc n) bs) in
    (
      record k { world = record w { log = l } },
      ground (arith, r.counted, length-middle cs (suc n) bs, sum-middle cs (suc n) bs),
      record {
        idle = r.idle;
        counted =
            r.counted ∙ ap pos (omega (arith, length-middle cs (suc n) bs, length-middle cs n bs));
        each = within-spend cs n bs r.each;
        fits = omega (
          arith,
          length-absorb b w.log.blocks,
          r.fits,
          sum-middle cs (suc n) bs,
          sum-middle cs n bs,
        );
      },
      ground (arith, has-append b w.log.blocks),
      omega
          (arith, length-absorb b w.log.blocks, size, sum-middle cs (suc n) bs, sum-middle cs n bs),
    )
  where
    has-append : (b : ℕ) (ns : List ℕ) → has b (ns ++ (b ∷ [])) ≡ true
    has-append b [] = ground arith
    has-append b (n ∷ ns) = ground (arith, has-append b ns)

counting : ℤ → Bool → World → World
counting o c w = record w { log = record w.log { outstanding = o; committing = c } }

-- `commit` does not read the counters, keeps them, and leaves an empty log.
commit-counting :
    (o : ℤ) (c : Bool) (w : World)
    → let w' : World = commit (counting o c w) in
      (w'.store ≡ (commit w).store) × (w'.log.blocks ≡ []) × (w'.log.outstanding ≡ o)
unfolding commit counting write_log write_head install_trans
commit-counting o c w = elim (Bool-cases (ltb 0 (length w.log.blocks))) [
  | inl there ↦ ground arith
  | inr nothing ↦ let e = empty w.log.blocks (ground arith) in ground arith
]
  where
    empty : (ns : List ℕ) → length ns ≡ 0 → ns ≡ []
    empty [] e = refl
    empty (n ∷ ns) e = absurd (omega arith)

-- Let the operations under way be within their reservations. Then `end_op` of one of them does not
-- panic, and the others are still within theirs. The last operation's commits, and leaves an empty
-- log; another's leaves the log and the blocks alone.
pub end_op-Reserved :
    (n : ℕ) (cs bs : List ℕ) (k : Kernel World)
    → Reserved (cs ++ n ∷ bs) k.world
    → (k' : Kernel World) × (end_op k ≡ some (tt, k'))
      × Reserved (cs ++ bs) k'.world
      × (length (cs ++ bs) ≡ 0
          → (k'.world.log.blocks ≡ []) × (k'.world.store ≡ (commit k.world).store))
      × (0 < length (cs ++ bs)
          → (k'.world.log.blocks ≡ k.world.log.blocks) × (k'.world.store ≡ k.world.store))
unfolding end_op counting
end_op-Reserved n cs bs k r =
    let w : World = k.world in
    let o : ℤ = decrement w.log.outstanding in
    let left : o ≡ pos (length (cs ++ bs)) =
      ap decrement (r.counted ∙ ap pos (length-middle cs n bs)) in
    let each = within-drop cs n bs r.each in
    elim (Bool-cases (length (cs ++ bs) == 0)) [
      | inl last ↦
          let w' : World = commit (counting o true w) in
          let (store, blocks, kept) = commit-counting o true w in
          (
            record {
              table = wakeup w'.log.base k.table;
              world = counting w'.log.outstanding false w';
            },
            ground (arith, r.idle, left),
            record {
              idle = refl;
              counted = kept ∙ left;
              each = each;
              fits = ground (arith, blocks, sum-within (cs ++ bs) each);
            },
            λ e. (blocks, store),
            λ e. absurd (ground arith),
          )
      | inr more ↦ (
        record k { table = wakeup w.log.base k.table; world = counting o w.log.committing w },
        ground (arith, r.idle, left),
        record {
          idle = r.idle;
          counted = left;
          each = each;
          fits = omega (arith, r.fits, sum-middle cs n bs);
        },
        λ e. absurd (ground arith),
        λ e. (refl, refl),
      )
    ]

-- ===== src/Log/Space.antt =====
-- The reservation of log space, and `begin_op`.
use cpp.Prelude.{
  ℕ, suc, ◌+◌, ◌*◌, ◌≤◌, ◌≡◌, ◌⊎◌, refl, sym, ap, ◌∙◌, subst, inl, inr, Bool, true, false, leb,
  ◌&&◌, List, [], ◌∷◌, ◌++◌, length, none, some, get_elem?, arith, Bool-cases, Option-cases,
}
use cpp.Prelude.Int.{pos}
use cpp.Proc.Kernel.{Kernel}
use cpp.Proc.Table.{update, sleeping, is_running}
use cpp.Proc.Exit.{sleep, sched}
use cpp.Log.{World, logsize, maxopblocks, increment, begin_op, must_wait}

abbrev pub sum : List ℕ → ℕ
sum [] = 0
sum (n ∷ ns) = n + sum ns

sum-append : (ns ms : List ℕ) → sum (ns ++ ms) ≡ sum ns + sum ms
sum-append [] ms = omega arith
sum-append (n ∷ ns) ms = omega (arith, sum-append ns ms)

-- No share is larger than what `begin_op` reserves.
abbrev pub within : List ℕ → Bool
within [] = true
within (n ∷ ns) = leb n maxopblocks && within ns

pub sum-within : (ns : List ℕ) → within ns ≡ true → sum ns ≤ length ns * maxopblocks
sum-within [] w = omega arith
sum-within (n ∷ ns) w = ground (arith, sum-within ns)

-- `shares` has, for each operation under way, the number of blocks that it may still write. The log
-- has room for all of them.
pub record Reserved (shares : List ℕ) (w : World) : Type 0 where
  pub idle : w.log.committing ≡ false
  pub counted : w.log.outstanding ≡ pos (length shares)
  pub each : within shares ≡ true
  pub fits : length w.log.blocks + sum shares ≤ logsize

-- Some operations are under way, within their reservations.
abbrev pub InOrder : Kernel World → Type 0
InOrder k = (shares : List ℕ) × Reserved shares k.world

-- The log is being written to the disk, or the operations are in order.
abbrev pub Orderly : Kernel World → Type 0
Orderly k = (k.world.log.committing ≡ true) ⊎ InOrder k

must_wait-Orderly : (k : Kernel World) → Orderly k → must_wait k.world.log ≡ false → InOrder k
unfolding must_wait
must_wait-Orderly k (inl busy) e = absurd (ground arith)
must_wait-Orderly k (inr r) e = r

Orderly-world : (k k' : Kernel World) → k.world ≡ k'.world → Orderly k → Orderly k'
Orderly-world k k' e (inl busy) = inl (subst (λ w. w.log.committing ≡ true) e busy)
Orderly-world k k' e (inr (shares, r)) = inr (shares, subst (Reserved shares) e r)

enough_room :
    (shares : List ℕ) (w : World)
    → Reserved shares w
    → must_wait w.log ≡ false
    → length w.log.blocks + (length shares + 1) * maxopblocks ≤ logsize
unfolding must_wait
enough_room shares w r e = ground (arith, r.counted, r.idle)

begun :
    (shares : List ℕ) (w : World)
    → Reserved shares w
    → must_wait w.log ≡ false
    → Reserved
        (maxopblocks ∷ shares)
        (record w { log = record w.log { outstanding = increment w.log.outstanding } })
begun shares w r e = record {
  idle = r.idle;
  counted = ap increment r.counted ∙ ap pos (omega arith);
  each = ground (arith, r.each);
  fits = omega (arith, enough_room shares w r e, sum-within shares r.each);
}

begin : Kernel World → Kernel World
begin k = record k {
  world = record k.world {
    log = record k.world.log { outstanding = increment k.world.log.outstanding };
  };
}

asleep : ℕ → ℕ → Kernel World → Kernel World
asleep cur chan k = record k {
  table = update k.table cur (λ p. record p { chan = chan; state = sleeping });
}

begin_op-goes :
    (cur : ℕ) (others : List (Kernel World → Kernel World)) (k : Kernel World)
    → must_wait k.world.log ≡ false
    → begin_op cur others k ≡ some (true, begin k)
unfolding begin_op begin
begin_op-goes cur [] k e = ground arith
begin_op-goes cur (o ∷ others) k e = rw (e, begin_op) refl

begin_op-waits :
    (cur : ℕ) (k : Kernel World)
    → must_wait k.world.log ≡ true
    → begin_op cur [] k ≡ some (false, asleep cur k.world.log.base k)
unfolding begin_op asleep
begin_op-waits cur k e = ground arith

-- A round of `begin_op` that sleeps panics, or goes on in the state that the others left.
begin_op-again :
    (cur : ℕ) (o : Kernel World → Kernel World) (others : List (Kernel World → Kernel World))
    (k : Kernel World)
    → must_wait k.world.log ≡ true
    → (begin_op cur (o ∷ others) k ≡ none)
      ⊎ ((k₁ : Kernel World) × (k₁.world ≡ (o (asleep cur k.world.log.base k)).world)
          × (begin_op cur (o ∷ others) k ≡ begin_op cur others k₁))
unfolding begin_op asleep sleep sched
begin_op-again cur o others k e =
    let k₁ : Kernel World = asleep cur k.world.log.base k in
    elim (Option-cases (get_elem? k₁.table.procs cur)) [
      | inl out ↦ inl (ground arith)
      | inr (p, at) ↦ elim (Bool-cases (is_running p.state)) [
        | inl runs ↦ inl (ground arith)
        | inr stops ↦ inr (
          record (o k₁) { table = update (o k₁).table cur (λ p. record p { chan = 0 }) },
          refl,
          ground arith,
        )
      ]
    ]

started :
    (cur : ℕ) (others : List (Kernel World → Kernel World)) (k k' : Kernel World) (b : Bool)
    (shares : List ℕ)
    → Reserved shares k.world
    → must_wait k.world.log ≡ false
    → begin_op cur others k ≡ some (b, k')
    → (b ≡ false → Orderly k')
      × (b ≡ true → (shares : List ℕ) × Reserved (maxopblocks ∷ shares) k'.world)
unfolding begin
started cur others k k' b shares r go e =
    let e' = sym (begin_op-goes cur others k go) ∙ e in
    let same : begin k ≡ k' = ground arith in
    (
      λ f. absurd (ground arith),
      λ t. (
        shares,
        subst (λ x. Reserved (maxopblocks ∷ shares) x.world) same (begun shares k.world r go),
      ),
    )

-- Let the operations under way be within their reservations whenever the log is not being committed:
-- now, and each time that what runs while `begin_op` sleeps gives way to it. Then they still are when
-- `begin_op` sleeps; and when it has begun an operation, the log is not being committed, and has room
-- for `MAXOPBLOCKS` blocks more.
pub begin_op-Reserved :
    (cur : ℕ) (others : List (Kernel World → Kernel World)) (k k' : Kernel World) (b : Bool)
    → ((i : ℕ) (o : Kernel World → Kernel World)
        → get_elem? others i ≡ some o
        → (k : Kernel World) → Orderly k
        → Orderly (o k))
    → Orderly k
    → begin_op cur others k ≡ some (b, k')
    → (b ≡ false → Orderly k')
      × (b ≡ true → (shares : List ℕ) × Reserved (maxopblocks ∷ shares) k'.world)
unfolding asleep
begin_op-Reserved cur [] k k' b keeps r e = elim (Bool-cases (must_wait k.world.log)) [
  | inl wait ↦
      let e' = sym (begin_op-waits cur k wait) ∙ e in
      let same : asleep cur k.world.log.base k ≡ k' = ground arith in
      (
        λ f. subst Orderly same (Orderly-world k (asleep cur k.world.log.base k) refl r),
        λ t. absurd (ground arith),
      )
  | inr go ↦ let (shares, r') = must_wait-Orderly k r go in started cur [] k k' b shares r' go e
]
begin_op-Reserved cur (o ∷ others) k k' b keeps r e = elim (Bool-cases (must_wait k.world.log)) [
  | inl wait ↦ elim (begin_op-again cur o others k wait) [
    | inl fails ↦ absurd (ground arith)
    | inr (k₁, same, eq) ↦
        let k₀ : Kernel World = asleep cur k.world.log.base k in
        let r' = keeps 0 o refl k₀ (Orderly-world k k₀ refl r) in
        begin_op-Reserved cur others k₁ k' b (λ i f at. keeps (suc i) f at)
          (Orderly-world (o k₀) k₁ (sym same) r') (sym eq ∙ e)
  ]
  | inr go ↦
      let (shares, r') = must_wait-Orderly k r go in started cur (o ∷ others) k k' b shares r' go e
]

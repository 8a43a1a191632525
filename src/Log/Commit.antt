-- ===== src/Log/Commit.antt =====
-- `commit` against a crash at any of its writes.
use cpp.Prelude.{
  ℕ, ◌+◌, ◌-◌, ◌*◌, ◌≤◌, ◌<◌, ◌≡◌, ◌⊎◌, refl, sym, ap, ◌∙◌, subst, inl, inr, false, ltb, List, [],
  ◌∷◌, length, arith, Bool-cases,
}
use cpp.Blocks.{Block, Store}
use cpp.Log.{Log, World, install_from, install_trans, write_log, write_head, commit, has}
use cpp.Log.Install.{
  Logged, IsHome, AllHome, power-write_log_from, write_log_from-frame, power-install_from,
  install_from-off,
}
use cpp.Log.Header.{write_head_lem, write_log_from-Logged}
use cpp.Log.Crash.{Clear, Committed, finish}

-- A transaction that can be committed: the log on the disk is empty, the blocks to be written are
-- outside the log and fit into it, and no other block differs from its copy on the disk.
pub record Ready (size : ℕ) (w : World) : Type 0 where
  pub room : length w.log.blocks < size
  pub home : AllHome w.log.start size w.log.blocks
  pub empty : w.store.disk w.log.start 0 ≡ 0
  pub clean :
      (a : ℕ)
      → IsHome w.log.start size a
      → has a w.log.blocks ≡ false
      → w.store.view a ≡ w.store.disk a

module _ (size : ℕ) (w : World) (r : Ready size w) where
  -- The writes to the log, and then the header.
  logged_store : Store
  logged_store = write_log w.log w.store

  before :
      w.store.power ≤ length w.log.blocks → Clear w.log.start size w.store.disk logged_store.disk
  unfolding logged_store write_log
  before p = record {
    empty = ap (λ b. b 0) (kept w.log.start (inl (omega arith))) ∙ r.empty;
    same = λ a h. kept a (omega (arith, h, r.room));
  }
    where
      kept :
          (a : ℕ)
          → (a < w.log.start + 0 + 1) ⊎ (w.log.start + 0 + length w.log.blocks < a)
          → (write_log w.log w.store).disk a ≡ w.store.disk a
      kept a out = (write_log_from-frame w.log.start 0 w.log.blocks w.store a out).0

  headed : Store
  headed = write_head w.log logged_store

  headed-Committed :
      length w.log.blocks < w.store.power
      → Committed w.log.start size w.log.blocks w.store.view headed.disk
        × Logged headed.view w.log.start 0 w.log.blocks w.store.view
        × (headed.power ≡ w.store.power - length w.log.blocks - 1)
  unfolding headed logged_store write_log
  headed-Committed p =
      let l : Log = w.log in
      let s₁ : Store = write_log l w.store in
      let power₁ = power-write_log_from l.start 0 l.blocks w.store in
      let (d, v) =
        write_log_from-Logged l.start size w.store.view 0 l.blocks w.store (omega (arith, r.room))
          r.home (omega arith) (λ i b e. refl) in
      let (frame, off, on, after) = write_head_lem l s₁ in
      let kept : (a : ℕ) → IsHome l.start size a → s₁.disk a ≡ w.store.disk a =
        λ a h. (write_log_from-frame l.start 0 l.blocks w.store a (omega (arith, h, r.room))).0 in
      (
        record {
          named = (on (omega (arith, power₁))).1;
          room = r.room;
          home = r.home;
          logged = λ i b e. (frame (l.start + 0 + 1 + i) (λ x. omega arith)).0 ∙ d i b e;
          others = λ a h out.
              (frame a (λ x. omega (arith, h, r.room))).0 ∙ kept a h ∙ sym (r.clean a h out);
        },
        λ i b e. (frame (l.start + 0 + 1 + i) (λ x. omega arith)).1 ∙ v i b e,
        omega (arith, after, power₁),
      )

  committed : Store
  committed = write_head (record w.log { blocks = [] }) (install_trans w.log headed)

  stopped : w.store.power ≤ length w.log.blocks → committed.disk ≡ logged_store.disk
  unfolding committed headed logged_store write_log install_trans
  stopped p =
      let l : Log = w.log in
      let s₁ : Store = write_log l w.store in
      let power₁ = power-write_log_from l.start 0 l.blocks w.store in
      let (frame₁, off₁, on₁, after₁) = write_head_lem l s₁ in
      let s₂ : Store = write_head l s₁ in
      let s₃ : Store = install_from l.start 0 l.blocks s₂ in
      let (frame₃, off₃, on₃, after₃) = write_head_lem (record l { blocks = [] }) s₃ in
      off₃ (omega (arith, power-install_from l.start 0 l.blocks s₂, after₁, power₁))
      ∙ install_from-off l.start 0 l.blocks s₂ (omega (arith, after₁, power₁))
      ∙ off₁ (omega (arith, power₁))

  commit_lem : 0 < length w.log.blocks → (commit w).store ≡ committed
  unfolding commit committed headed logged_store
  commit_lem p = ground arith

commit-nothing : (w : World) → length w.log.blocks ≡ 0 → commit w ≡ w
unfolding commit
commit-nothing w e = ground arith

-- Wherever the machine stops in `commit` of a transaction that is ready, the disk holds either
-- none of the transaction, or all of it in the log or in place: with at most as many writes as
-- there are blocks the first, with up to as many again and one the second, and with more the
-- third. A transaction of no block is in place at once.
pub commit-crash :
    (size : ℕ) (w : World)
    → Ready size w
    → let n : ℕ = length w.log.blocks in
      let d : ℕ → Block = (commit w).store.disk in
      (w.store.power ≤ n → Clear w.log.start size w.store.disk d)
      × (0 < n
          → n < w.store.power
          → w.store.power ≤ 2 * n + 1
          → Committed w.log.start size w.log.blocks w.store.view d)
      × ((n ≡ 0) ⊎ (2 * n + 1 < w.store.power) → Clear w.log.start size w.store.view d)
unfolding committed
commit-crash size w r = elim (Bool-cases (ltb 0 (length w.log.blocks))) [
  | inr nothing ↦ rw (commit-nothing w (ground arith)) (
    λ p. record { empty = r.empty; same = λ a h. refl },
    λ p. absurd (ground arith),
    λ p. record {
      empty = r.empty;
      same = λ a h. sym (r.clean a h (has-empty a w.log.blocks (ground arith)));
    },
  )
  | inl there ↦
      let some_there : 0 < length w.log.blocks = ground arith in
      rw (commit_lem size w r some_there) (
        λ p.
            subst (Clear w.log.start size w.store.disk) (sym (stopped size w r p))
              (before size w r p),
        λ q p p'.
            let (c, v, power) = headed-Committed size w r p in
            (finish size w.log w.store.view (headed size w r) c v).0 (omega (arith, power)),
        λ p.
            let (c, v, power) = headed-Committed size w r (omega arith) in
            (finish size w.log w.store.view (headed size w r) c v).1 (omega (arith, power)),
      )
]
  where
    has-empty : (a : ℕ) (bs : List ℕ) → length bs ≡ 0 → has a bs ≡ false
    has-empty a [] e = refl
    has-empty a (b ∷ bs) e = absurd (omega arith)

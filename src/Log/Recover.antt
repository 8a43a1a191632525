-- ===== src/Log/Recover.antt =====
-- Recovery: `recover_from_log` on whatever a crash has left, crashes of its own included.
use cpp.Prelude.{
  ℕ, ◌+◌, ◌*◌, ◌≤◌, ◌<◌, ◌⊎◌, ◌∙◌, inl, inr, leb, ◌==◌, List, [], ◌∷◌, length, arith, Bool-cases,
}
use cpp.Blocks.{Block, boot, bread}
use cpp.Log.{
  Log, World, install_trans, install_from, read_head, get_words, commit, recover_from_log,
}
use cpp.Log.Header.{write_head_lem}
use cpp.Log.Crash.{Clear, Committed, finish}
use cpp.Log.Commit.{Ready, commit-crash}

-- The machine starts again with the log's place and size, and recovers, for `power` writes.
abbrev pub recovered : Log → ℕ → (ℕ → Block) → ℕ → Block
recovered l power d = (recover_from_log (record { log = l; store = boot power d })).store.disk

-- One recovery after the other, each stopped after its number of writes.
pub recover_each : Log → List ℕ → (ℕ → Block) → ℕ → Block
unfolding recover_from_log
recover_each l [] d = d
recover_each l (p ∷ ps) d = recover_each l ps (recovered l p d)

module _ (size : ℕ) (l : Log) where
  -- With nothing in the log, recovery changes no home block.
  recover_from_log-Clear :
      (home : ℕ → Block) (power : ℕ) (d : ℕ → Block)
      → 0 < size
      → Clear l.start size home d
      → Clear l.start size home (recovered l power d)
  unfolding recover_from_log read_head get_words install_trans install_from bread
  recover_from_log-Clear home power d pos c =
      let (frame, off, on, after) = write_head_lem (record l { blocks = [] }) (boot power d) in
      rw (c.empty, recovered)
        (elim (Bool-cases (power == 0)) [
          | inl stop ↦ rw (off (ground arith)) c
          | inr go ↦ record {
            empty = (on (ground arith)).0;
            same = λ a h. (frame a (λ x. omega (arith, h))).0 ∙ c.same a h;
          }
        ])

  -- With a transaction in the log, recovery puts it in place if it gets to its end, and if not the
  -- log is as it was.
  recover_from_log-Committed :
      (bs : List ℕ) (new : ℕ → Block) (power : ℕ) (d : ℕ → Block)
      → Committed l.start size bs new d
      → (power ≤ length bs → Committed l.start size bs new (recovered l power d))
        × (length bs < power → Clear l.start size new (recovered l power d))
  unfolding recover_from_log read_head bread
  recover_from_log-Committed bs new power d c =
      rw (c.named, recovered) (finish size (record l { blocks = bs }) new (boot power d) c c.logged)

  recover_each-Clear :
      (home : ℕ → Block) (ps : List ℕ) (d : ℕ → Block)
      → 0 < size
      → Clear l.start size home d
      → Clear l.start size home (recover_each l ps d)
  unfolding recover_each
  recover_each-Clear home [] d pos c = c
  recover_each-Clear home (p ∷ ps) d pos c =
      recover_each-Clear home ps (recovered l p d) pos (recover_from_log-Clear home p d pos c)

  recover_each-Committed :
      (bs : List ℕ) (new : ℕ → Block) (ps : List ℕ) (d : ℕ → Block)
      → Committed l.start size bs new d
      → Committed l.start size bs new (recover_each l ps d)
        ⊎ Clear l.start size new (recover_each l ps d)
  unfolding recover_each
  recover_each-Committed bs new [] d c = inl c
  recover_each-Committed bs new (p ∷ ps) d c =
      let (stopped, ended) = recover_from_log-Committed bs new p d c in
      elim (Bool-cases (leb p (length bs))) [
        | inl short ↦ recover_each-Committed bs new ps (recovered l p d) (stopped (ground arith))
        | inr long ↦ inr (
            recover_each-Clear new ps (recovered l p d) (omega (arith, c.room))
              (ended (ground arith)))
      ]

-- A commit is atomic. Let a transaction be ready, let the machine stop after any number of block
-- writes in `commit`, and let any number of recoveries be stopped as well; then a recovery that
-- has at least as many writes as the log has blocks leaves an empty log, and every home block as
-- it was before the commit if that stopped before its header was written, and with the
-- transaction's contents if not.
pub recover_from_log-commit :
    (size : ℕ) (w : World) (stops : List ℕ) (power : ℕ)
    → Ready size w
    → size ≤ power
    → let d : ℕ → Block = recovered w.log power (recover_each w.log stops (commit w).store.disk) in
      (w.store.power ≤ length w.log.blocks → Clear w.log.start size w.store.disk d)
      × (length w.log.blocks < w.store.power → Clear w.log.start size w.store.view d)
recover_from_log-commit size w stops power r enough =
    let (early, middle, late) = commit-crash size w r in
    let some_room : 0 < size = omega (arith, r.room) in
    let settled : (home : ℕ → Block)
        → Clear w.log.start size home (commit w).store.disk
        → Clear w.log.start size home
            (recovered w.log power (recover_each w.log stops (commit w).store.disk)) =
      λ home c.
        recover_from_log-Clear size w.log home power _ some_room
          (recover_each-Clear size w.log home stops _ some_room c) in
    (
      λ p. settled w.store.disk (early p),
      λ p. elim (Bool-cases (leb w.store.power (2 * length w.log.blocks + 1))) [
        | inl short ↦ elim (Bool-cases (length w.log.blocks == 0)) [
          | inl nothing ↦ settled w.store.view (late (inl (ground arith)))
          | inr there ↦
              elim (recover_each-Committed size w.log w.log.blocks w.store.view stops _
                (middle (ground arith) p (ground arith))) [
                  | inl c ↦
                      (recover_from_log-Committed size w.log w.log.blocks w.store.view power _ c).1
                        (omega (arith, c.room, enough))
                  | inr c ↦ recover_from_log-Clear size w.log w.store.view power _ some_room c
                ]
        ]
        | inr long ↦ settled w.store.view (late (inr (ground arith)))
      ],
    )

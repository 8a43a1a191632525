-- ===== src/Log/Crash.antt =====
-- What a crash can leave on the disk, and what `commit` and the recovery make of it.
use cpp.Prelude.{
  ℕ, suc, ◌+◌, ◌-◌, ◌≤◌, ◌<◌, ◌≡◌, refl, sym, ap, ◌∙◌, subst, inl, inr, false, List, [], ◌∷◌,
  length, lt_length_of_get_elem?, arith, Bool-cases,
}
use cpp.Blocks.{Block, Store}
use cpp.Log.{Log, install_trans, install_from, write_head, has}
use cpp.Log.Install.{
  Logged, IsHome, AllHome, install_from-all, install_from-frame, power-install_from,
}
use cpp.Log.Header.{entries, write_head_lem}

pub power-install_trans :
    (l : Log) (s : Store) → (install_trans l s).power ≡ s.power - length l.blocks
unfolding install_trans
power-install_trans l s = power-install_from l.start 0 l.blocks s

-- The transaction is not on the disk: the log is empty, and the home blocks are as given.
pub record Clear (start size : ℕ) (home disk : ℕ → Block) : Type 0 where
  pub empty : disk start 0 ≡ 0
  pub same : (a : ℕ) → IsHome start size a → disk a ≡ home a

-- The log on the disk holds the transaction; its home blocks may or may not be written yet.
pub record Committed (start size : ℕ) (blocks : List ℕ) (new disk : ℕ → Block) : Type 0 where
  pub named : entries (disk start) ≡ blocks
  pub room : length blocks < size
  pub home : AllHome start size blocks
  pub logged : Logged disk start 0 blocks new
  pub others : (a : ℕ) → IsHome start size a → has a blocks ≡ false → disk a ≡ new a

-- The log is not among the home blocks.
pub not-has_of_log :
    (start size a : ℕ) (bs : List ℕ)
    → AllHome start size bs
    → start ≤ a
    → a < start + size
    → has a bs ≡ false
not-has_of_log start size a [] home lo hi = refl
not-has_of_log start size a (b ∷ bs) home lo hi =
    ground (arith, home 0 b refl, not-has_of_log start size a bs (λ i c e. home (suc i) c e) lo hi)

module _ (size : ℕ) (l : Log) (new : ℕ → Block) (s : Store) where
  -- The log on the disk outlives `install_trans`.
  installed-Committed :
      Committed l.start size l.blocks new s.disk
      → Committed l.start size l.blocks new (install_trans l s).disk
  unfolding install_trans
  installed-Committed c = record {
    named = ap entries (kept l.start (omega arith) (omega (arith, c.room))) ∙ c.named;
    room = c.room;
    home = c.home;
    logged = λ i b e.
        kept (l.start + 0 + 1 + i) (omega arith)
          (omega (arith, c.room, lt_length_of_get_elem? l.blocks i e))
        ∙ c.logged i b e;
    others = λ a h out. (install_from-frame l.start 0 l.blocks s a out).0 ∙ c.others a h out;
  }
    where
      kept :
          (a : ℕ)
          → l.start ≤ a
          → a < l.start + size
          → (install_from l.start 0 l.blocks s).disk a ≡ s.disk a
      kept a lo hi =
          (install_from-frame l.start 0 l.blocks s a
            (not-has_of_log l.start size a l.blocks c.home lo hi)).0

  -- All of `install_trans` puts the new contents in place.
  installed-new :
      Committed l.start size l.blocks new s.disk
      → Logged s.view l.start 0 l.blocks new
      → length l.blocks ≤ s.power
      → (a : ℕ) → IsHome l.start size a
      → (install_trans l s).disk a ≡ new a
  unfolding install_trans
  installed-new c v p a h = elim (Bool-cases (has a l.blocks)) [
    | inl there ↦
        install_from-all l.start size new 0 l.blocks s a (omega (arith, c.room)) c.home v p there
    | inr out ↦ (install_from-frame l.start 0 l.blocks s a out).0 ∙ c.others a h out
  ]

  -- `install_trans` and the empty header behind it, on a disk whose log is committed: if the
  -- machine stops on the way the log is committed still, and if not the new contents are in place.
  pub finish :
      Committed l.start size l.blocks new s.disk
      → Logged s.view l.start 0 l.blocks new
      → let d : ℕ → Block = (write_head (record l { blocks = [] }) (install_trans l s)).disk in
        (s.power ≤ length l.blocks → Committed l.start size l.blocks new d)
        × (length l.blocks < s.power → Clear l.start size new d)
  finish c v =
      let s' : Store = install_trans l s in
      let (frame, off, on, after) = write_head_lem (record l { blocks = [] }) s' in
      (
        λ p.
            subst (Committed l.start size l.blocks new)
              (sym (off (omega (arith, power-install_trans l s)))) (installed-Committed c),
        λ p. record {
          empty = (on (omega (arith, power-install_trans l s))).0;
          same = λ a h.
              (frame a (λ x. omega (arith, h, c.room))).0 ∙ installed-new c v (omega arith) a h;
        },
      )

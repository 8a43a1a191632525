-- ===== src/Fs/Balloc.antt =====
-- balloc and bfree of fs.c as operations on the set of free blocks.
use cpp.Prelude.{
  Option, ℕ, ◌+◌, ◌/◌, ◌%◌, ◌≤◌, ◌<◌, ◌≡◌, ◌≢◌, ◌⊎◌, refl, sym, ap, ap₂, ◌∙◌, true, false, ◌==◌,
  ◌&&◌, if◌then◌else◌, none, some, arith, Bool-cases, inl, inr,
}
use cpp.Strings.{Bytes, memset}
use cpp.Strings.Memory.{memset_lem}
use cpp.Fs.{
  write_block, ◌>>◌, pure, Fs, bsize, bpb, bblock, is_clear, set_bit, clear_bit, mark, unmark,
  bzero, balloc, bfree,
}
use cpp.Fs.Bitmap.{
  AreBytes, is_clear-set_bit, is_clear-clear_bit, set_bit-AreBytes, clear_bit-AreBytes,
}
use cpp.Fs.Mounted.{is_free, last_meta, IsMounted, IsFirst, IsFirst-data, Moved, Moved_lem}
use cpp.Fs.Search.{balloc_from_lem}

module _ (dev : ℕ) (s : Fs) (c r : ℕ) (m : IsMounted dev s) (aligned : c % bpb ≡ 0) (lt : r < bpb)
    (first : IsFirst dev s (c + r)) where
  -- The two writes of `mark`, one after the other.
  bit_written : Fs
  bit_written = record s {
    disk = λ d n.
        if (d == dev) && (n == bblock c s.sb)
        then set_bit (s.disk dev (bblock c s.sb)) r
        else s.disk d n;
  }

  marked : Fs
  unfolding bit_written
  marked = record bit_written {
    disk = λ d n.
        if (d == dev) && (n == c + r)
        then memset (bit_written.disk dev (c + r)) 0 0 bsize
        else bit_written.disk d n;
  }

  writes :
      (n : ℕ) (b : Bytes) (t : Fs)
      → t.logs ≡ true
      → write_block dev n b t
        ≡ some (tt, record t { disk = λ d k. if (d == dev) && (k == n) then b else t.disk d k })
  writes n b t logs =
      ap
        (λ l.
          if◌then◌else◌ {A = Option (Unit {0} × Fs)} l
            (some (tt, record t { disk = λ d k. if (d == dev) && (k == n) then b else t.disk d k }))
            none)
        logs

  mark_lem : mark dev c r s ≡ some (c + r, marked)
  unfolding mark bzero marked bit_written
  mark_lem =
      ap
        (λ x. elim x as (λ y. Option (ℕ × Fs)) [
          | none ↦ none
          | some (_, t) ↦ (bzero dev (c + r) >> pure (c + r)) t
        ])
        (writes (bblock c s.sb) (set_bit (s.disk dev (bblock c s.sb)) r) s m.logs)
      ∙ ap (λ x. elim x as (λ y. Option (ℕ × Fs)) [ none ↦ none | some (_, t) ↦ some (c + r, t) ])
          (writes (c + r) (memset (bit_written.disk dev (c + r)) 0 0 bsize) bit_written m.logs)

  block : bblock (c + r) s.sb ≡ bblock c s.sb
  block = omega arith

  apart : (last_meta s.sb < c + r) × (bblock (c + r) s.sb ≤ last_meta s.sb)
  apart = (IsFirst-data dev s (c + r) m first.clear, omega (arith, first.in_size))

  marked-frame : (n : ℕ) → n ≢ c + r → n ≢ bblock (c + r) s.sb → marked.disk dev n ≡ s.disk dev n
  unfolding marked bit_written
  marked-frame n ne ne' = ground (arith, block)

  marked-bitmap : marked.disk dev (bblock c s.sb) ≡ set_bit (s.disk dev (bblock c s.sb)) r
  unfolding marked bit_written
  marked-bitmap = ground (arith, block, apart)

  marked-zero : (o : ℕ) → o < bsize → marked.disk dev (c + r) o ≡ 0
  unfolding marked bit_written
  marked-zero o lt = ground (arith, memset_lem (bit_written.disk dev (c + r)) 0 0 bsize o)

  marked-bytes : (n : ℕ) → AreBytes (marked.disk dev n)
  unfolding marked bit_written
  marked-bytes n o = ground (
    arith,
    m.bytes n o,
    set_bit-AreBytes (s.disk dev (bblock c s.sb)) (m.bytes (bblock c s.sb)) r o,
    memset_lem (bit_written.disk dev (c + r)) 0 0 bsize o,
    m.bytes (c + r) o,
  )

  marked_sb : (marked.sb ≡ s.sb) × (marked.icache ≡ s.icache) × (marked.mem ≡ s.mem)
  unfolding marked bit_written
  marked_sb = (refl, refl, refl)

  marked-logs : marked.logs ≡ true
  unfolding marked bit_written
  marked-logs = m.logs

  marked-bits :
      (j : ℕ)
      → is_clear (marked.disk dev (bblock (c + r) s.sb)) j
        ≡ (if j == (c + r) % bpb then false else is_clear (s.disk dev (bblock (c + r) s.sb)) j)
  marked-bits j =
      let place : (c + r) % bpb ≡ r = omega arith in
      ap (λ n. is_clear (marked.disk dev n) j) block
      ∙ ap (λ b. is_clear b j) marked-bitmap
      ∙ is_clear-set_bit (s.disk dev (bblock c s.sb)) (m.bytes (bblock c s.sb)) r j
      ∙ ap₂ (λ p n. if j == p then false else is_clear (s.disk dev n) j) (sym place) (sym block)

  marked-Moved : Moved dev s (c + r) false marked
  marked-Moved =
      Moved_lem dev s (c + r) false marked m apart.0 first.in_size marked_sb.0 marked_sb.1
        marked_sb.2 marked-logs marked-bytes marked-bits marked-frame

  mark-Moved :
      (s' : Fs) × (mark dev c r s ≡ some (c + r, s'))
      × Moved dev s (c + r) false s'
      × ((o : ℕ) → o < bsize → s'.disk dev (c + r) o ≡ 0)
  mark-Moved = (marked, mark_lem, marked-Moved, marked-zero)

-- On a file system as mkfs lays it out, balloc takes the first free block of the disk: it is in use
-- from then on and zero, no other block becomes free or taken, no other block changes but that of
-- the bitmap, and the layout is kept. Where no block is free, it panics.
pub balloc_lem :
    (dev : ℕ) (s : Fs)
    → IsMounted dev s
    → ((balloc dev s ≡ none) × ((x : ℕ) → x < s.sb.size → is_free dev s x ≡ false))
      ⊎ ((r : ℕ) × (s' : Fs) × (balloc dev s ≡ some (r, s'))
          × IsFirst dev s r
          × Moved dev s r false s'
          × ((o : ℕ) → o < bsize → s'.disk dev r o ≡ 0))
unfolding balloc
balloc_lem dev s m =
    elim (balloc_from_lem (s.sb.size / bpb + 1) dev 0 s refl (omega arith)
      (λ x lt. absurd (omega arith))) [
        | inl (e, all) ↦ inl (e, λ x lt. all x lt lt)
        | inr (c, r, e, aligned, lt, first) ↦
            let (s', e', moved, cleared) = mark-Moved dev s c r m aligned lt first in
            inr (c + r, s', e ∙ e', first, moved, cleared)
      ]

module _ (dev : ℕ) (s : Fs) (b : ℕ) (m : IsMounted dev s) (above : last_meta s.sb < b)
    (in_size : b < s.sb.size) where
  unmarked : Fs
  unmarked = record s {
    disk = λ d n.
        if (d == dev) && (n == bblock b s.sb)
        then clear_bit (s.disk dev (bblock b s.sb)) (b % bpb)
        else s.disk d n;
  }

  unmarked-Moved : Moved dev s b true unmarked
  unfolding unmarked
  unmarked-Moved =
      Moved_lem dev s b true unmarked m above in_size refl refl refl m.logs
        (λ n o. ground (
          arith,
          m.bytes n o,
          clear_bit-AreBytes (s.disk dev (bblock b s.sb)) (m.bytes (bblock b s.sb)) (b % bpb) o,
        ))
        (λ j. ground (
          arith,
          is_clear-clear_bit (s.disk dev (bblock b s.sb)) (m.bytes (bblock b s.sb)) (b % bpb) j,
        ))
        (λ n ne ne'. ground arith)

  -- The superblock that bfree reads again is the one that it has.
  bfree-unmark : bfree dev b s ≡ unmark dev b s.sb (s.disk dev (bblock b s.sb)) s
  unfolding bfree
  bfree-unmark = ap (λ t. unmark dev b t (s.disk dev (bblock b t)) (record s { sb = t })) m.super

  -- bfree of a block that holds data makes it free, changes no other block but that of the bitmap,
  -- and keeps the layout; if the block is free already, it panics.
  pub bfree_lem :
      ((is_free dev s b ≡ true) × (bfree dev b s ≡ none))
      ⊎ ((s' : Fs) × (is_free dev s b ≡ false)
          × (bfree dev b s ≡ some (tt, s'))
          × Moved dev s b true s'
          × ((o : ℕ) → s'.disk dev b o ≡ s.disk dev b o))
  unfolding unmarked unmark
  bfree_lem = elim (Bool-cases (is_free dev s b)) [
    | inl free ↦ inl (free, bfree-unmark ∙ ground arith)
    | inr used ↦
        inr
          (unmarked, used, bfree-unmark ∙ ground (arith, m.logs), unmarked-Moved, λ o. ground arith)
  ]

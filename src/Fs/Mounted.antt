-- ===== src/Fs/Mounted.antt =====
-- The layout of the disk in fs.c, and a block that is taken or put back.
use cpp.Prelude.{
  ℕ, ◌+◌, ◌/◌, ◌%◌, ◌^◌, ◌≤◌, ◌<◌, ◌≡◌, ◌≢◌, trichotomy, sym, ap, subst, ◌∙◌, Bool, true, false,
  ◌==◌, if◌then◌else◌, arith, inl, inr,
}
use cpp.Fs.{Fs, Superblock, bpb, bblock, decode_sb, is_clear}
use cpp.Fs.Bitmap.{AreBytes}

-- The bitmap says that block `x` is free.
abbrev pub is_free : (dev : ℕ) → Fs → ℕ → Bool
is_free dev s x = is_clear (s.disk dev (bblock x s.sb)) (x % bpb)

-- The last block that holds no data.
abbrev pub last_meta : Superblock → ℕ
last_meta sb = sb.bmapstart + sb.size / bpb

-- A file system as mkfs lays it out, where log_write takes the blocks: the superblock is that of the disk, the bitmap is behind it
-- and on the disk, and the blocks up to the end of the bitmap are in use.
pub record IsMounted (dev : ℕ) (s : Fs) : Type 0 where
  pub logs : s.logs ≡ true
  pub bytes : (n : ℕ) → AreBytes (s.disk dev n)
  pub super : decode_sb (s.disk dev 1) ≡ s.sb
  pub behind : 2 ≤ s.sb.bmapstart
  pub fits : last_meta s.sb < s.sb.size
  pub small : s.sb.size < 2 ^ 32
  pub reserved : (x : ℕ) → x ≤ last_meta s.sb → is_free dev s x ≡ false

-- The block is the first free one.
pub record IsFirst (dev : ℕ) (s : Fs) (r : ℕ) : Type 0 where
  pub in_size : r < s.sb.size
  pub clear : is_free dev s r ≡ true
  pub lowest : (x : ℕ) → x < r → is_free dev s x ≡ false

-- From `s` to `s'` block `r` is taken out of the free blocks, or put back, as `free` says; no other
-- block changes but that of the bitmap, and block `r` itself where it is taken.
pub record Moved (dev : ℕ) (s : Fs) (r : ℕ) (free : Bool) (s' : Fs) : Type 0 where
  pub mounted : IsMounted dev s'
  pub same_sb : s'.sb ≡ s.sb
  pub cache : s'.icache ≡ s.icache
  pub memory : s'.mem ≡ s.mem
  pub bits : (x : ℕ) → x < s.sb.size → is_free dev s' x ≡ (if x == r then free else is_free dev s x)
  pub frame : (n : ℕ) → n ≢ r → n ≢ bblock r s.sb → s'.disk dev n ≡ s.disk dev n

pub IsFirst-data :
    (dev : ℕ) (s : Fs) (r : ℕ) → IsMounted dev s → is_free dev s r ≡ true → last_meta s.sb < r
IsFirst-data dev s r m clear = elim (trichotomy (last_meta s.sb) r) [
  | inl lt ↦ lt
  | inr (inl at) ↦ absurd (contra (is_free dev s r) clear (m.reserved r (omega arith)))
  | inr (inr gt) ↦ absurd (contra (is_free dev s r) clear (m.reserved r (omega arith)))
]
  where
    contra : (b : Bool) → b ≡ true → b ≡ false → ⊥
    contra b p q = cc

-- What the two operations have in common: block `r` holds data, its bit becomes `free`, and nothing
-- else changes but the block itself.
module _ (dev : ℕ) (s : Fs) (r : ℕ) (free : Bool) (s' : Fs) (m : IsMounted dev s)
    (above : last_meta s.sb < r) (in_size : r < s.sb.size) (same_sb : s'.sb ≡ s.sb)
    (cache : s'.icache ≡ s.icache) (memory : s'.mem ≡ s.mem) (logs : s'.logs ≡ true)
    (bytes : (n : ℕ) → AreBytes (s'.disk dev n))
    (bitmap : (j : ℕ)
      → is_clear (s'.disk dev (bblock r s.sb)) j
        ≡ (if j == r % bpb then free else is_clear (s.disk dev (bblock r s.sb)) j))
    (frame : (n : ℕ) → n ≢ r → n ≢ bblock r s.sb → s'.disk dev n ≡ s.disk dev n) where
  bits_lem : (x : ℕ) → x < s.sb.size → is_free dev s' x ≡ (if x == r then free else is_free dev s x)
  bits_lem x lt = elim (trichotomy (bblock x s.sb) (bblock r s.sb)) [
    | inl before ↦ other (omega arith)
    | inr (inl here) ↦
        let there : bblock x s'.sb ≡ bblock r s.sb = ap (λ t. bblock x t) same_sb ∙ here in
        ap (λ n. is_clear (s'.disk dev n) (x % bpb)) there
        ∙ bitmap (x % bpb)
        ∙ ground (arith, ap (λ n. is_clear (s.disk dev n) (x % bpb)) here)
    | inr (inr behind) ↦ other (omega arith)
  ]
    where
      other :
          bblock x s.sb ≢ bblock r s.sb
          → is_free dev s' x ≡ (if x == r then free else is_free dev s x)
      other ne =
          let now : is_free dev s' x ≡ is_free dev s x =
            ap (λ t. is_clear (s'.disk dev (bblock x t)) (x % bpb)) same_sb
            ∙ ap (λ b. is_clear b (x % bpb)) (frame (bblock x s.sb) (omega arith) ne) in
          ground (arith, now)

  reserved_lem : (x : ℕ) → x ≤ last_meta s.sb → is_free dev s' x ≡ false
  reserved_lem x le = ground (arith, bits_lem x (omega (arith, m.fits)), m.reserved x le)

  pub Moved_lem : Moved dev s r free s'
  Moved_lem = record {
    mounted = record {
      logs = logs;
      bytes = bytes;
      super =
          ap decode_sb (frame 1 (omega (arith, m.behind)) (omega (arith, m.behind)))
          ∙ m.super
          ∙ sym same_sb;
      behind = subst (λ t. 2 ≤ t.bmapstart) (sym same_sb) m.behind;
      fits = subst (λ t. last_meta t < t.size) (sym same_sb) m.fits;
      small = subst (λ t. t.size < 2 ^ 32) (sym same_sb) m.small;
      reserved = λ x le. reserved_lem x (subst (λ t. x ≤ last_meta t) same_sb le);
    };
    same_sb = same_sb;
    cache = cache;
    memory = memory;
    bits = bits_lem;
    frame = frame;
  }

-- ===== src/Fs/Content/Slots.antt =====
-- The blocks of a file in fs.c. Slot 0 to 11 are the direct entries, 12 is the indirect block, and
-- from 13 on come the entries of the indirect block.
use cpp.Prelude.{
  ℕ, ◌+◌, ◌-◌, ◌*◌, ◌/◌, ◌%◌, ◌<◌, ◌≡◌, ◌≢◌, ◌⊎◌, ap, ◌∙◌, true, none, false, ltb, leb, ◌==◌, ◌&&◌,
  if◌then◌else◌, List, length, get_or, arith, some, get_elem?, Option,
}
use cpp.Strings.{Bytes}
use cpp.Kalloc.{load}
use cpp.Fs.{write_block, Inode, Fs, bsize, bpb, bblock, decode_sb, is_clear}
use cpp.Fs.Bitmap.{AreBytes}
use cpp.Fs.Mounted.{is_free, last_meta, IsMounted}

-- A block gets new contents.
abbrev pub put : (dev n : ℕ) → Bytes → Fs → Fs
put dev n b s = record s { disk = λ d m. if (d == dev) && (m == n) then b else s.disk d m }

pub write_block-put :
    (dev n : ℕ) (b : Bytes) (s : Fs)
    → s.logs ≡ true
    → write_block dev n b s ≡ some (tt, put dev n b s)
write_block-put dev n b s logs =
    ap (λ l. if◌then◌else◌ {A = Option (Unit {0} × Fs)} l (some (tt, put dev n b s)) none) logs

module _ (dev n : ℕ) (b : Bytes) (s : Fs) (m : IsMounted dev s) (other : n ≢ 1)
    (apart : (n < s.sb.bmapstart) ⊎ (last_meta s.sb < n)) where
  pub is_free-put : (x : ℕ) → x < s.sb.size → is_free dev (put dev n b s) x ≡ is_free dev s x
  is_free-put x lt =
      let ne : bblock x s.sb ≢ n = λ e. ground arith in
      let same : (put dev n b s).disk dev (bblock x s.sb) ≡ s.disk dev (bblock x s.sb) =
        ground arith in
      ap (λ t. is_clear t (x % bpb)) same

  -- The layout does not depend on a block that is neither the superblock nor one of the bitmap.
  pub IsMounted-put : AreBytes b → IsMounted dev (put dev n b s)
  IsMounted-put bytes =
      let first : (put dev n b s).disk dev 1 ≡ s.disk dev 1 = ground arith in
      record {
        logs = m.logs;
        bytes = λ k o. ground (arith, bytes o, m.bytes k o);
        super = ap decode_sb first ∙ m.super;
        behind = m.behind;
        fits = m.fits;
        small = m.small;
        reserved = λ x le. is_free-put x (omega (arith, m.fits)) ∙ m.reserved x le;
      }

-- Nor does it depend on the cache and the memory.
pub IsMounted-core :
    (dev : ℕ) (s : Fs) (c : List Inode) (mem : Bytes)
    → IsMounted dev s
    → IsMounted dev (record s { icache = c; mem = mem })
IsMounted-core dev s c mem m = record {
  logs = m.logs;
  bytes = m.bytes;
  super = m.super;
  behind = m.behind;
  fits = m.fits;
  small = m.small;
  reserved = m.reserved;
}

-- The block of a slot, or 0.
unfoldable pub addr_of : Inode → Fs → ℕ → ℕ
addr_of ip s k =
    if leb k 12
    then get_or ip.addrs k 0
    else if get_or ip.addrs 12 0 == 0
    then 0
    else load (s.disk ip.dev (get_or ip.addrs 12 0)) (4 * (k - 13))

-- The slot of block `bn` of the file.
abbrev pub slot : ℕ → ℕ
slot bn = if ltb bn 12 then bn else bn + 1

-- The byte at the offset `o`; a block that is not there reads as zeros.
unfoldable pub content : Inode → Fs → ℕ → ℕ
content ip s o =
    if addr_of ip s (slot (o / bsize)) == 0
    then 0
    else s.disk ip.dev (addr_of ip s (slot (o / bsize))) (o % bsize)

-- `ip` is in the cache at `i`, and its blocks are blocks of data in use, one for each slot.
pub record IsFile (i : ℕ) (s : Fs) (ip : Inode) : Type 0 where
  pub at : get_elem? s.icache i ≡ some ip
  pub mounted : IsMounted ip.dev s
  pub all : length ip.addrs ≡ 13
  pub held :
      (k : ℕ)
      → k < 141
      → addr_of ip s k ≢ 0
      → (last_meta s.sb < addr_of ip s k)
        × (addr_of ip s k < s.sb.size)
        × (is_free ip.dev s (addr_of ip s k) ≡ false)
  pub distinct :
      (k m : ℕ) → k < 141 → m < 141 → k ≢ m → addr_of ip s k ≢ 0 → addr_of ip s k ≢ addr_of ip s m

-- Slot `k` of a file gets the block `a`, which is zero; the other slots and their blocks, but for
-- the entries of the indirect block, stay.
pub record Added (i : ℕ) (s : Fs) (ip : Inode) (k a : ℕ) (s' : Fs) (ip' : Inode) : Type 0 where
  pub file : IsFile i s' ip'
  pub here : addr_of ip' s' k ≡ a
  pub there : a ≢ 0
  pub others : (m : ℕ) → m < 141 → m ≢ k → addr_of ip' s' m ≡ addr_of ip s m
  pub zeroed : (o : ℕ) → o < bsize → s'.disk ip.dev a o ≡ 0
  pub kept :
      (m o : ℕ)
      → m < 141
      → m ≢ 12
      → addr_of ip s m ≢ 0
      → s'.disk ip.dev (addr_of ip s m) o ≡ s.disk ip.dev (addr_of ip s m) o
  pub shape : ip' ≡ record ip { addrs = ip'.addrs }
  pub same_sb : s'.sb ≡ s.sb
  pub memory : s'.mem ≡ s.mem

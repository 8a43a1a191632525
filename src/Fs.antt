-- ===== src/Fs.antt =====
-- OperatingSystem/HW5/fs.c over the blocks of the disks. `read_block` stands for bread: it gives the
-- contents of a block. `write_block` stands for log_write and brelse behind it: the next bread gives
-- the new contents, or log_write panics; bio.c and log.c are modelled in Bio and Log. This file has
-- the superblock, the bitmap of the free blocks and their allocation.
pub mod Bitmap
pub mod Mounted
pub mod Search
pub mod Balloc
pub mod Allocator
pub mod Icache
pub mod Content
pub mod Dir
pub mod Path
pub mod Sample
mod Tests
use Prim.Native.Nat.{bit_and, bit_or}
use cpp.Prelude.{
  ℕ, zero, suc, ◌+◌, ◌-◌, ◌/◌, ◌%◌, ◌^◌, Bool, ltb, ◌==◌, ◌&&◌, if◌then◌else◌, Option, none, some,
  List,
}
use cpp.Strings.{Bytes, poke, memset}
use cpp.Kalloc.{load}

abbrev pub bsize : ℕ
bsize = 512

-- The bits of a block of the bitmap.
abbrev pub bpb : ℕ
bpb = 4096

pub record Superblock : Type 0 where
  pub size : ℕ
  pub nblocks : ℕ
  pub ninodes : ℕ
  pub nlog : ℕ
  pub logstart : ℕ
  pub inodestart : ℕ
  pub bmapstart : ℕ

-- `struct inode`; `locked` says that the running process has its sleep lock, and a `short` is the
-- number of its 16 bits.
pub record Inode : Type 0 where
  pub dev : ℕ
  pub inum : ℕ
  pub ref : ℕ
  pub locked : Bool
  pub valid : Bool
  pub type : ℕ
  pub major : ℕ
  pub minor : ℕ
  pub nlink : ℕ
  pub size : ℕ
  pub addrs : List ℕ

-- `sb`, the inode cache, the memory of the kernel and the process, and the blocks of each device.
-- `logs` says whether log_write takes the blocks that are written: the process is in an operation, and
-- they are within what it has reserved (Log.Budget).
pub record Fs : Type 0 where
  pub sb : Superblock
  pub icache : List Inode
  pub mem : Bytes
  pub disk : ℕ → ℕ → Bytes
  pub logs : Bool

-- `none` is a panic, or a wait for a lock that the process has itself.
abbrev pub M : Type 0 → Type 0
M A = Fs → Option (A × Fs)

infixl 5 ◌>>=◌ ◌>>◌
abbrev pub ◌>>=◌ : {A B : Type 0} → M A → (A → M B) → M B
◌>>=◌ m f s = elim (m s) [ none ↦ none | some (a, s') ↦ f a s' ]

abbrev pub ◌>>◌ : {A B : Type 0} → M A → M B → M B
m >> n = m >>= λ _. n

abbrev pub pure : {A : Type 0} → A → M A
pure a s = some (a, s)

abbrev pub panic : {A : Type 0} → M A
panic s = none

abbrev pub read_block : (dev bno : ℕ) → M Bytes
read_block dev bno s = some (s.disk dev bno, s)

-- The new contents of a block, logged and released. log_write panics outside of an operation, and for
-- more blocks than the log has room for.
abbrev pub write_block : (dev bno : ℕ) → Bytes → M (Unit {0})
write_block dev bno b s =
    if s.logs
    then some (tt, record s { disk = λ d n. if (d == dev) && (n == bno) then b else s.disk d n })
    else none

-- The words of block 1, as `struct superblock` has them.
pub decode_sb : Bytes → Superblock
decode_sb b = record {
  size = load b 0;
  nblocks = load b 4;
  ninodes = load b 8;
  nlog = load b 12;
  logstart = load b 16;
  inodestart = load b 20;
  bmapstart = load b 24;
}

unfoldable pub readsb : ℕ → M Superblock
unfolding decode_sb
readsb dev = do b ← read_block dev 1; pure (decode_sb b)

pub bzero : (dev bno : ℕ) → M (Unit {0})
bzero dev bno = do b ← read_block dev bno; write_block dev bno (memset b 0 0 bsize)

-- `(data[bi/8] & m) == 0`, with m = 1 << (bi % 8)
pub is_clear : Bytes → ℕ → Bool
is_clear b bi = bit_and (b (bi / 8)) (2 ^ (bi % 8)) == 0

pub set_bit : Bytes → ℕ → Bytes
set_bit b bi = poke b (bi / 8) (bit_or (b (bi / 8)) (2 ^ (bi % 8)))

-- The complement of the mask has 32 bits.
pub clear_bit : Bytes → ℕ → Bytes
clear_bit b bi = poke b (bi / 8) (bit_and (b (bi / 8)) (2 ^ 32 - 1 - 2 ^ (bi % 8)))

abbrev pub bblock : ℕ → Superblock → ℕ
bblock b sb = b / bpb + sb.bmapstart

-- The inner loop of `balloc`: the first clear bit from `bi` on, of the `n` that are left.
pub find_clear : (n b bi size : ℕ) → Bytes → Option ℕ
unfolding is_clear
find_clear zero b bi size bits = none
find_clear (suc n) b bi size bits =
    let rest = find_clear n b (bi + 1) size bits in
    if ltb (b + bi) size then if is_clear bits bi then some bi else rest else none

pub mark : (dev b bi : ℕ) → M ℕ
unfolding set_bit bzero
mark dev b bi = do
  sb ← λ s. some (s.sb, s)
  bits ← read_block dev (bblock b sb)
  write_block dev (bblock b sb) (set_bit bits bi)
  bzero dev (b + bi)
  pure (b + bi)

-- The outer loop, on fuel: one round for each block of the bitmap.
pub balloc_from : (fuel dev b : ℕ) → M ℕ
balloc_from zero dev b s = none
balloc_from (suc fuel) dev b s =
    let rest = balloc_from fuel dev (b + bpb) s in
    if ltb b s.sb.size
    then elim (find_clear bpb b 0 s.sb.size (s.disk dev (bblock b s.sb))) [
      | some bi ↦ mark dev b bi s
      | none ↦ rest
    ]
    else none

-- The panic of the last line is the end of the loop.
pub balloc : ℕ → M ℕ
unfolding balloc_from
balloc dev s = balloc_from (s.sb.size / bpb + 1) dev 0 s

-- A free block must not be freed.
pub unmark : (dev b : ℕ) → Superblock → Bytes → M (Unit {0})
unfolding clear_bit is_clear
unmark dev b sb bits =
    if is_clear bits (b % bpb)
    then panic
    else write_block dev (bblock b sb) (clear_bit bits (b % bpb))

pub bfree : (dev b : ℕ) → M (Unit {0})
unfolding readsb unmark
bfree dev b = do
  sb ← readsb dev
  λ s. some (tt, record s { sb = sb })
  bits ← read_block dev (bblock b sb)
  unmark dev b sb bits

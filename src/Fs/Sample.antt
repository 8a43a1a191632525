-- ===== src/Fs/Sample.antt =====
-- A small disk: 16 blocks, the inodes in block 2, the bitmap in block 3, and a file of one block.
use cpp.Prelude.{
  ℕ, zero, suc, ◌-◌, ◌^◌, ◌≤◌, ◌<◌, ◌≡◌, ◌≢◌, refl, true, false, ◌==◌, ◌&&◌, if◌then◌else◌, arith,
  Bool-cases, inl, inr, some, none, List, [], ◌∷◌, get_or, get_elem?, replicate,
}
use cpp.Strings.{Bytes}
use cpp.Kalloc.{load}
use cpp.Fs.{Inode, Fs, is_clear, decode_sb}
use cpp.Fs.Mounted.{is_free, IsMounted}
use cpp.Fs.Icache.{is_inode, is_positive, recycle}
use cpp.Fs.Icache.Dinode.{FitsDisk}
use cpp.Fs.Icache.Unique.{IsCache}
use cpp.Fs.Bitmap.{AreBytes}
use cpp.Fs.Content.{Devsw}
use cpp.Fs.Content.Slots.{addr_of, IsFile}
use cpp.Fs.Content.Grow.{HasPlace}

abbrev pub superblock : List ℕ
superblock =
    16 ∷ 0 ∷ 0 ∷ 0 ∷ 12 ∷ 0 ∷ 0 ∷ 0 ∷ 8 ∷ 0 ∷ 0 ∷ 0 ∷ 0 ∷ 0 ∷ 0 ∷ 0 ∷ 2 ∷ 0 ∷ 0 ∷ 0 ∷ 2 ∷ 0 ∷ 0 ∷ 0
    ∷ 3 ∷ []

abbrev AllBytes : List ℕ → Type 0
AllBytes [] = Unit
AllBytes (x ∷ xs) = (x < 256) × AllBytes xs

get_or-byte : (xs : List ℕ) (o : ℕ) → AllBytes xs → get_or xs o 0 < 256
get_or-byte [] o h = omega arith
get_or-byte (x ∷ xs) zero h = h.0
get_or-byte (x ∷ xs) (suc o) h = get_or-byte xs o h.1

superblock-bytes : (o : ℕ) → get_or superblock o 0 < 256
superblock-bytes o = get_or-byte superblock o (omega arith)

abbrev pub disk : ℕ → ℕ → Bytes
disk dev n o =
    if n == 1
    then get_or superblock o 0
    else if (n == 3) && (o == 0)
    then 31
    else if (n == 4) && (o == 7)
    then 9
    else 0

abbrev pub file : Inode
file = record {
  dev = 1;
  inum = 5;
  ref = 1;
  locked = true;
  valid = true;
  type = 2;
  major = 0;
  minor = 0;
  nlink = 1;
  size = 100;
  addrs = 4 ∷ replicate 12 0;
}

abbrev pub free_inode : Inode
free_inode = record file { ref = 0; locked = false; valid = false }

abbrev pub mounted : Fs
mounted = record {
  sb = record {
    size = 16;
    nblocks = 12;
    ninodes = 8;
    nlog = 0;
    logstart = 2;
    inodestart = 2;
    bmapstart = 3;
  };
  icache = file ∷ free_inode ∷ [];
  mem = λ a. if a == 0 then 47 else if a == 1 then 98 else if a == 2 then 105 else 0;
  disk = disk;
  logs = true;
}

disk-bytes : (n o : ℕ) → disk 1 n o < 256
disk-bytes n o = elim (Bool-cases (n == 1)) [
  | inl first ↦ rw first (superblock-bytes o)
  | inr other ↦ ground arith
]

pub mounted-reserved : (x : ℕ) → x ≤ 3 → is_free 1 mounted x ≡ false
unfolding is_clear
mounted-reserved zero le = refl
mounted-reserved (suc zero) le = refl
mounted-reserved (suc (suc zero)) le = refl
mounted-reserved (suc (suc (suc zero))) le = refl
mounted-reserved (suc (suc (suc (suc x)))) le = absurd (omega arith)

pub mounted-IsMounted : IsMounted 1 mounted
unfolding decode_sb load
mounted-IsMounted = record {
  logs = refl;
  bytes = disk-bytes;
  super = refl;
  behind = omega arith;
  fits = omega arith;
  small = omega arith;
  reserved = mounted-reserved;
}

pub file-FitsDisk : FitsDisk file
file-FitsDisk = record {
  type = omega arith;
  major = omega arith;
  minor = omega arith;
  nlink = omega arith;
  size = omega arith;
  words = omega arith;
  all = refl;
}

get_or-replicate : (n k : ℕ) → ◌≡◌ {A = ℕ} (get_or (replicate n 0) k 0) 0
get_or-replicate zero k = refl
get_or-replicate (suc n) zero = refl
get_or-replicate (suc n) (suc k) = get_or-replicate n k

file_slots : (k : ℕ) → addr_of file mounted k ≡ (if k == 0 then 4 else 0)
unfolding addr_of
file_slots zero = refl
file_slots (suc k) = ground (arith, get_or-replicate 12 k)

pub file-IsFile : IsFile 0 mounted file
unfolding addr_of is_clear
file-IsFile = record {
  at = refl;
  mounted = mounted-IsMounted;
  all = refl;
  held = held;
  distinct = λ k m lk lm ne nz e. ground (arith, file_slots k, file_slots m);
}
  where
    held :
        (k : ℕ)
        → k < 141
        → addr_of file mounted k ≢ 0
        → (3 < addr_of file mounted k)
          × (addr_of file mounted k < 16)
          × (is_free 1 mounted (addr_of file mounted k) ≡ false)
    held zero lt ne = (omega arith, omega arith, refl)
    held (suc k) lt ne = absurd (ground (arith, file_slots (suc k)))

pub mounted-room : (i : ℕ) (ip : Inode) → get_elem? mounted.icache i ≡ some ip → ip.ref < 2 ^ 31 - 1
mounted-room zero ip at = ground (arith, at)
mounted-room (suc zero) ip at = ground (arith, at)
mounted-room (suc (suc i)) ip at = ground (arith, at)

pub mounted-IsCache : IsCache mounted.icache
mounted-IsCache = record { unique = unique }
  where
    unique :
        (i j : ℕ) (ip jp : Inode)
        → get_elem? mounted.icache i ≡ some ip
        → get_elem? mounted.icache j ≡ some jp
        → is_positive ip.ref ≡ true
        → is_inode ip.dev ip.inum jp ≡ true
        → i ≡ j
    unique zero zero ip jp hi hj p is = refl
    unique zero (suc zero) ip jp hi hj p is = absurd (ground (arith, hj, is))
    unique zero (suc (suc j)) ip jp hi hj p is = cc
    unique (suc zero) j ip jp hi hj p is = absurd (ground (arith, hi, p))
    unique (suc (suc i)) j ip jp hi hj p is = cc

abbrev pub got : Fs
got = record mounted { icache = file ∷ recycle 1 7 free_inode ∷ [] }

abbrev pub no_devices : Devsw
no_devices = record { read = λ n. none; write = λ n. none }

pub file-HasPlace : HasPlace mounted file
file-HasPlace = (omega arith, omega arith)

pub mounted-mem : AreBytes mounted.mem
mounted-mem a = ground arith

-- ===== src/Fs/Icache.antt =====
-- The inode cache of OperatingSystem/HW5/fs.c, and the inodes on the disk. An inode in memory is its
-- place in the cache; an index past the cache is a wild pointer, and fails.
pub mod Get
pub mod Dinode
pub mod Unique
pub mod Lock
pub mod Update
use cpp.Prelude.{
  ℕ, zero, suc, ◌+◌, ◌*◌, ◌/◌, ◌%◌, ◌^◌, Bool, true, false, ltb, ◌==◌, ◌&&◌, if◌then◌else◌, Option,
  none, some, List, [], ◌∷◌, get_elem?, modify_at,
}
use cpp.Strings.{Bytes, poke, memset}
use cpp.Kalloc.{load, store}
use cpp.Fs.{Inode, Superblock, M, ◌>>=◌, ◌>>◌, pure, panic, read_block, write_block, readsb}

abbrev pub ninode : ℕ
ninode = 50

-- Inodes in a block, and the bytes of each.
abbrev pub ipb : ℕ
ipb = 8

abbrev pub iblock : ℕ → Superblock → ℕ
iblock inum sb = inum / ipb + sb.inodestart

abbrev pub dinode_at : ℕ → ℕ
dinode_at inum = inum % ipb * 64

-- A `short`, the lower byte first.
abbrev pub load_half : Bytes → ℕ → ℕ
load_half b o = b o + 256 * b (o + 1)

abbrev pub store_half : Bytes → ℕ → ℕ → Bytes
store_half b o v = poke (poke b o (v % 256)) (o + 1) (v / 256 % 256)

unfoldable pub load_words : (n : ℕ) → Bytes → ℕ → List ℕ
load_words zero b o = []
load_words (suc n) b o = load b o ∷ load_words n b (o + 4)

unfoldable pub store_words : List ℕ → Bytes → ℕ → Bytes
store_words [] b o = b
store_words (w ∷ ws) b o = store_words ws (store b o w) (o + 4)

abbrev pub get_sb : M Superblock
get_sb s = some (s.sb, s)

abbrev pub inode_at : ℕ → M Inode
inode_at i s = elim (get_elem? s.icache i) [ none ↦ none | some ip ↦ some (ip, s) ]

abbrev pub modify_inode : ℕ → (Inode → Inode) → M (Unit {0})
modify_inode i f s = some (tt, record s { icache = modify_at f s.icache i })

-- An int that counts is positive.
abbrev pub is_positive : ℕ → Bool
is_positive ref = ltb 0 ref && ltb ref (2 ^ 31)

-- The cache is zero when the kernel starts; its locks are free.
pub iinit : ℕ → M (Unit {0})
unfolding readsb
iinit dev = do sb ← readsb dev; λ s. some (tt, record s { sb = sb })

-- What the loop of `iget` finds.
pub data Slot : Type 0 where
  cached : ℕ → Slot
  empty : ℕ → Slot
  full : Slot

abbrev pub is_inode : (dev inum : ℕ) → Inode → Bool
is_inode dev inum ip = is_positive ip.ref && (ip.dev == dev) && (ip.inum == inum)

-- The entries from number `i` on, and the first empty one before them.
unfoldable pub find_slot : (dev inum : ℕ) → List Inode → (i : ℕ) → Option ℕ → Slot
find_slot dev inum [] i none = full
find_slot dev inum [] i (some j) = empty j
find_slot dev inum (ip ∷ ips) i (some j) =
    let rest = find_slot dev inum ips (i + 1) (some j) in
    if is_inode dev inum ip then cached i else rest
find_slot dev inum (ip ∷ ips) i none =
    let rest = find_slot dev inum ips (i + 1) (if ip.ref == 0 then some i else none) in
    if is_inode dev inum ip then cached i else rest

abbrev pub add_ref : Inode → Inode
add_ref ip = record ip { ref = (ip.ref + 1) % 2 ^ 32 }

abbrev pub recycle : (dev inum : ℕ) → Inode → Inode
recycle dev inum ip = record ip { dev = dev; inum = inum; ref = 1; valid = false }

unfoldable pub iget : (dev inum : ℕ) → M ℕ
unfolding find_slot
iget dev inum s = elim (find_slot dev inum s.icache 0 none) [
  | cached i ↦ some (i, record s { icache = modify_at add_ref s.icache i })
  | empty i ↦ some (i, record s { icache = modify_at (recycle dev inum) s.icache i })
  | full ↦ none
]

unfoldable pub idup : ℕ → M ℕ
idup i = do modify_inode i add_ref; pure i

-- The loop of `ialloc`, for `n` rounds.
pub ialloc_from : (n dev type inum : ℕ) → M ℕ
unfolding iget
ialloc_from zero dev type inum s = none
ialloc_from (suc n) dev type inum s =
    let rest = ialloc_from n dev type (inum + 1) s in
    let o = dinode_at inum in
    let b = s.disk dev (iblock inum s.sb) in
    if ltb inum s.sb.ninodes
    then if load_half b o == 0
      then (do
        write_block dev (iblock inum s.sb) (store_half (memset b o 0 64) o (type % 2 ^ 16))
        iget dev inum)
          s
      else rest
    else none

pub ialloc : (dev type : ℕ) → M ℕ
unfolding ialloc_from
ialloc dev type s = ialloc_from s.sb.ninodes dev type 1 s

-- The fields that are on the disk.
unfoldable pub encode : Inode → Bytes → ℕ → Bytes
unfolding store_words store
encode ip b o =
    store_words ip.addrs
      (store
        (store_half
          (store_half (store_half (store_half b o ip.type) (o + 2) ip.major) (o + 4) ip.minor)
          (o + 6) ip.nlink)
        (o + 8) ip.size)
      (o + 12)

pub decode : Bytes → ℕ → Inode → Inode
unfolding load_words load
decode b o ip = record ip {
  type = load_half b o;
  major = load_half b (o + 2);
  minor = load_half b (o + 4);
  nlink = load_half b (o + 6);
  size = load b (o + 8);
  addrs = load_words 13 b (o + 12);
  valid = true;
}

unfoldable pub iupdate : ℕ → M (Unit {0})
unfolding encode
iupdate i = do
  ip ← inode_at i
  sb ← get_sb
  b ← read_block ip.dev (iblock ip.inum sb)
  write_block ip.dev (iblock ip.inum sb) (encode ip b (dinode_at ip.inum))

-- A lock that the process has itself is never free.
unfoldable pub take_lock : ℕ → M (Unit {0})
take_lock i = do
  ip ← inode_at i
  (if ip.locked then panic else modify_inode i (λ ip. record ip { locked = true }))

abbrev pub drop_lock : ℕ → M (Unit {0})
drop_lock i = modify_inode i (λ ip. record ip { locked = false })

-- `if(ip->valid == 0)`: the fields of the inode are read from the disk.
pub fill : ℕ → M (Unit {0})
unfolding decode
fill i = do
  ip ← inode_at i
  sb ← get_sb
  (if ip.valid then pure tt else do
    b ← read_block ip.dev (iblock ip.inum sb)
    (if load_half b (dinode_at ip.inum) == 0
        then panic
        else modify_inode i (decode b (dinode_at ip.inum))))

pub ilock : ℕ → M (Unit {0})
unfolding take_lock fill
ilock i = do ip ← inode_at i; (if is_positive ip.ref then (do take_lock i; fill i) else panic)

pub iunlock : ℕ → M (Unit {0})
iunlock i = do ip ← inode_at i; (if ip.locked && is_positive ip.ref then drop_lock i else panic)

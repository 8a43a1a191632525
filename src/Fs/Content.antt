-- ===== src/Fs/Content.antt =====
-- The content of inodes in OperatingSystem/HW5/fs.c: bmap, itrunc, iput, stati, readi and writei.
pub mod Slots
pub mod Read
pub mod Write
pub mod Store
pub mod Grow
pub mod RoundTrip
pub mod Own
pub mod Entry
pub mod Fresh
pub mod Bmap
use cpp.Prelude.{
  ℕ, zero, suc, ◌+◌, ◌-◌, ◌*◌, ◌/◌, ◌%◌, ◌^◌, Bool, false, ltb, ◌==◌, ◌&&◌, ◌||◌, not,
  if◌then◌else◌, Option, none, some, get_or, set,
}
use cpp.Prelude.Int.{ℤ, pos, minus_one}
use cpp.Strings.{Bytes, poke}
use cpp.Kalloc.{load, store}
use cpp.Fs.{Inode, Fs, M, ◌>>=◌, ◌>>◌, pure, panic, read_block, write_block, bsize, balloc, bfree}
use cpp.Fs.Icache.{inode_at, modify_inode, iupdate, take_lock, drop_lock, iunlock}

abbrev pub ndirect : ℕ
ndirect = 12

abbrev pub nindirect : ℕ
nindirect = 128

-- MAXFILE * BSIZE
abbrev pub max_size : ℕ
max_size = (ndirect + nindirect) * bsize

abbrev pub set_addr : ℕ → ℕ → Inode → Inode
set_addr k a ip = record ip { addrs = set ip.addrs k a }

-- `if((addr = ip->addrs[k]) == 0) ip->addrs[k] = addr = balloc(ip->dev)`
pub own_addr : (i k : ℕ) → M ℕ
own_addr i k = do
  ip ← inode_at i
  (if get_or ip.addrs k 0 == 0
      then (do a ← balloc ip.dev; modify_inode i (set_addr k a); pure a)
      else pure (get_or ip.addrs k 0))

-- Word `j` of the indirect block `addr`; the buffer that is held has what balloc leaves in it.
pub indirect_addr : (dev addr j : ℕ) → M ℕ
unfolding load store
indirect_addr dev addr j = do
  b ← read_block dev addr
  (if load b (4 * j) == 0
      then (do
        a ← balloc dev
        b' ← read_block dev addr
        write_block dev addr (store b' (4 * j) a)
        pure a)
      else pure (load b (4 * j)))

pub bmap : (i bn : ℕ) → M ℕ
unfolding own_addr indirect_addr
bmap i bn =
    if ltb bn ndirect
    then own_addr i bn
    else if ltb (bn - ndirect) nindirect
    then (do addr ← own_addr i ndirect; ip ← inode_at i; indirect_addr ip.dev addr (bn - ndirect))
    else panic

-- The loops of `itrunc`, for the entries from `k` and `j` on.
pub trunc_direct : (n k i : ℕ) → M (Unit {0})
trunc_direct zero k i = pure tt
trunc_direct (suc n) k i = do
  ip ← inode_at i
  (if get_or ip.addrs k 0 == 0
      then pure tt
      else do bfree ip.dev (get_or ip.addrs k 0); modify_inode i (set_addr k 0))
  trunc_direct n (k + 1) i

pub trunc_indirect : (n j dev : ℕ) → Bytes → M (Unit {0})
unfolding load
trunc_indirect zero j dev b = pure tt
trunc_indirect (suc n) j dev b = do
  (if load b (4 * j) == 0 then pure tt else bfree dev (load b (4 * j)))
  trunc_indirect n (j + 1) dev b

pub itrunc : ℕ → M (Unit {0})
unfolding trunc_direct trunc_indirect
itrunc i = do
  trunc_direct ndirect 0 i
  ip ← inode_at i
  (if get_or ip.addrs ndirect 0 == 0 then pure tt else do
    b ← read_block ip.dev (get_or ip.addrs ndirect 0)
    trunc_indirect nindirect 0 ip.dev b
    bfree ip.dev (get_or ip.addrs ndirect 0)
    modify_inode i (set_addr ndirect 0))
  modify_inode i (λ ip. record ip { size = 0 })
  iupdate i

abbrev pub drop_ref : Inode → Inode
drop_ref ip = record ip { ref = (ip.ref + (2 ^ 32 - 1)) % 2 ^ 32 }

-- The last reference to an inode that has no links frees it on the disk.
unfoldable pub iput : ℕ → M (Unit {0})
unfolding itrunc
iput i = do
  take_lock i
  ip ← inode_at i
  (if ip.valid && (ip.nlink == 0) && (ip.ref == 1)
      then (do
        itrunc i
        modify_inode i (λ ip. record ip { type = 0 })
        iupdate i
        modify_inode i (λ ip. record ip { valid = false }))
      else pure tt)
  drop_lock i
  modify_inode i drop_ref

pub iunlockput : ℕ → M (Unit {0})
unfolding iput
iunlockput i = do iunlock i; iput i

pub record Stat : Type 0 where
  pub dev : ℕ
  pub ino : ℕ
  pub type : ℕ
  pub nlink : ℕ
  pub size : ℕ

pub stati : ℕ → M Stat
stati i = do
  ip ← inode_at i
  pure (record { dev = ip.dev; ino = ip.inum; type = ip.type; nlink = ip.nlink; size = ip.size })

-- `devsw`: the functions of a device, where it has them.
pub record Devsw : Type 0 where
  pub read : ℕ → Option (ℕ → ℕ → ℕ → M ℤ)
  pub write : ℕ → Option (ℕ → ℕ → ℕ → M ℤ)

abbrev pub t_dir : ℕ
t_dir = 1

abbrev pub t_dev : ℕ
t_dev = 3

-- A `major` that is negative as a short, or NDEV at least, has no functions.
abbrev pub device : (ℕ → Option (ℕ → ℕ → ℕ → M ℤ)) → (i major addr n : ℕ) → M ℤ
device table i major addr n =
    if ltb major 10
    then elim (table major) [ none ↦ pure minus_one | some f ↦ f i addr n ]
    else pure minus_one

-- memmove between two arrays that do not overlap.
unfoldable pub copy : Bytes → (d : ℕ) → Bytes → (s n : ℕ) → Bytes
copy m d from s zero = m
copy m d from s (suc n) = copy (poke m d (from s)) (d + 1) from (s + 1) n

-- `min(n - tot, BSIZE - off%BSIZE)`
abbrev pub piece : (off rest : ℕ) → ℕ
piece off rest = if ltb rest (bsize - off % bsize) then rest else bsize - off % bsize

abbrev pub to_mem : (dst : ℕ) → Bytes → (o n : ℕ) → M (Unit {0})
to_mem dst b o n s = some (tt, record s { mem = copy s.mem dst b o n })

-- The loops, with the number of bytes that are left, on fuel: a round moves a byte at least.
pub read_loop : (fuel i dst off rest : ℕ) → M (Unit {0})
unfolding copy
read_loop zero i dst off rest s = some (tt, s)
read_loop (suc fuel) i dst off rest s =
    let round : Option (Unit {0} × Fs) =
      (do
        a ← bmap i (off / bsize)
        ip ← inode_at i
        b ← read_block ip.dev a
        to_mem dst b (off % bsize) (piece off rest)
        read_loop fuel i (dst + piece off rest) (off + piece off rest) (rest - piece off rest))
        s in
    if rest == 0 then some (tt, s) else round

pub write_loop : (fuel i src off rest : ℕ) → M (Unit {0})
unfolding copy
write_loop zero i src off rest s = some (tt, s)
write_loop (suc fuel) i src off rest s =
    let round : Option (Unit {0} × Fs) =
      (do
        a ← bmap i (off / bsize)
        ip ← inode_at i
        b ← read_block ip.dev a
        λ s. write_block ip.dev a (copy b (off % bsize) s.mem src (piece off rest)) s
        write_loop fuel i (src + piece off rest) (off + piece off rest) (rest - piece off rest))
        s in
    if rest == 0 then some (tt, s) else round

-- `off > ip->size || off + n < off`
abbrev pub is_outside : (size off n : ℕ) → Bool
is_outside size off n = ltb size off || ltb ((off + n) % 2 ^ 32) off

-- The bytes that are there from `off` on.
abbrev pub clip : (size off n : ℕ) → ℕ
clip size off n = if ltb size (off + n) then size - off else n

pub readi : Devsw → (i dst off n : ℕ) → M ℤ
unfolding read_loop
readi d i dst off n = do
  ip ← inode_at i
  (if ip.type == t_dev
      then device d.read i ip.major dst n
      else if is_outside ip.size off n
      then pure minus_one
      else do
        read_loop (clip ip.size off n) i dst off (clip ip.size off n)
        pure (pos (clip ip.size off n)))

-- The size grows with the last byte that is written.
pub grow : (i end n : ℕ) → M (Unit {0})
grow i end n = do
  ip ← inode_at i
  (if not (n == 0) && ltb ip.size end
      then (do modify_inode i (λ ip. record ip { size = end }); iupdate i)
      else pure tt)

pub writei : Devsw → (i src off n : ℕ) → M ℤ
unfolding write_loop grow
writei d i src off n = do
  ip ← inode_at i
  (if ip.type == t_dev
      then device d.write i ip.major src n
      else if is_outside ip.size off n
      then pure minus_one
      else if ltb max_size (off + n)
      then pure minus_one
      else do write_loop n i src off n; grow i (off + n) n; pure (pos n))

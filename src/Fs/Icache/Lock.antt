-- ===== src/Fs/Icache/Lock.antt =====
-- The lock of an inode in fs.c: ilock and iunlock of an inode that has been read.
use cpp.Prelude.{
  ℕ, ◌≡◌, Bool, true, false, some, get_elem?, modify_at, get_elem?-modify_at_self, arith,
}
use cpp.Fs.{Inode, Fs}
use cpp.Fs.Icache.{is_positive, ilock, iunlock, take_lock, fill}

abbrev pub set_locked : Bool → Inode → Inode
set_locked b ip = record ip { locked = b }

abbrev pub relocked : (i : ℕ) → Bool → Fs → Fs
relocked i b s = record s { icache = modify_at (set_locked b) s.icache i }

pub ilock_lem :
    (i : ℕ) (s : Fs) (ip : Inode)
    → get_elem? s.icache i ≡ some ip
    → is_positive ip.ref ≡ true
    → ip.locked ≡ false
    → ip.valid ≡ true
    → ilock i s ≡ some (tt, relocked i true s)
unfolding ilock take_lock fill
ilock_lem i s ip at ref free valid =
    ground (arith, at, get_elem?-modify_at_self (set_locked true) s.icache i at)

pub iunlock_lem :
    (i : ℕ) (s : Fs) (ip : Inode)
    → get_elem? s.icache i ≡ some ip
    → is_positive ip.ref ≡ true
    → ip.locked ≡ true
    → iunlock i s ≡ some (tt, relocked i false s)
unfolding iunlock
iunlock_lem i s ip at ref held = ground (arith, at)

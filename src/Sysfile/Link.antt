-- ===== src/Sysfile/Link.antt =====
-- The names of files in OperatingSystem/HW5/sysfile.c: link, unlink and the creation of a file. A
-- path is the address of its string, `none` where argstr fails.
pub mod Ops
use cpp.Prelude.{
  ℕ, zero, suc, ◌+◌, ◌-◌, ◌*◌, ◌/◌, ◌%◌, ◌^◌, Bool, true, false, ltb, ◌==◌, ◌&&◌, ◌||◌, not,
  if◌then◌else◌, Option, none, some,
}
use cpp.Prelude.Int.{ℤ, pos, minus_one}
use cpp.Strings.{memset}
use cpp.File.{F, ◌>>=◌, ◌>>◌, pure, panic}
use cpp.Fs.{Inode}
use cpp.Fs.Icache.{ilock, iunlock, ialloc, iupdate}
use cpp.Fs.Content.{iput, iunlockput, writei, t_dir}
use cpp.Fs.Dir.{namecmp, read_entry, dirlookup, dirlink, is_zero_ℤ, is_entry_size, dirent_size}
use cpp.Fs.Path.{namei, nameiparent}
use cpp.Sysfile.{Sys, Env, lift, start_op, finish_op, get_cwd, inode, change}

abbrev pub t_file : ℕ
t_file = 2

-- A change of `nlink`, a short, by `n` modulo 2 ^ 16.
abbrev pub add_links : ℕ → Inode → Inode
add_links n ip = record ip { nlink = (ip.nlink + n) % 2 ^ 16 }

-- `ip->nlink++` and `ip->nlink--`, each with its `iupdate(ip)`.
pub link_more : ℕ → F Sys (Unit {0})
link_more i = do change i (add_links 1); lift (iupdate i)

pub link_less : ℕ → F Sys (Unit {0})
link_less i = do change i (add_links (2 ^ 16 - 1)); lift (iupdate i)

-- `iunlockput` of the last inode, `end_op`, and the result.
pub leave : ℕ → ℤ → F Sys ℤ
leave i r = do lift (iunlockput i); finish_op; pure r

pub lookup_parent : Env → (path : ℕ) → F Sys (Option ℕ)
lookup_parent v path = do cwd ← get_cwd; lift (nameiparent v.fuel v.devsw cwd path v.name v.de)

pub lookup_path : Env → (path : ℕ) → F Sys (Option ℕ)
lookup_path v path = do cwd ← get_cwd; lift (namei v.fuel v.devsw cwd path v.name v.de)

-- `bad:` of sys_link
pub unlink_bad : ℕ → F Sys ℤ
unlink_bad i = do lift (ilock i); link_less i; leave i minus_one

-- `if(dp->dev != ip->dev || dirlink(dp, name, ip->inum) < 0)`: whether the entry is there.
pub add_entry : Env → (dp i : ℕ) → F Sys Bool
add_entry v dp i = do
  d ← inode dp
  ip ← inode i
  (if d.dev == ip.dev
      then (do r ← lift (dirlink v.devsw dp v.name v.de v.own ip.inum); pure (is_zero_ℤ r))
      else pure false)

-- The second half of sys_link, where the inode `i` has its new link.
pub link_at : Env → (i new : ℕ) → F Sys ℤ
link_at v i new = do
  parent ← lookup_parent v new
  elim parent [
    | none ↦ unlink_bad i
    | some dp ↦ do
      lift (ilock dp)
      entered ← add_entry v dp i
      lift (iunlockput dp)
      (if entered then (do lift (iput i); finish_op; pure (pos 0)) else unlink_bad i)
  ]

pub sys_link : Env → (old new : Option ℕ) → F Sys ℤ
sys_link v none new = pure minus_one
sys_link v (some old) none = pure minus_one
sys_link v (some old) (some new) = do
  start_op
  found ← lookup_path v old
  elim found [
    | none ↦ do finish_op; pure minus_one
    | some i ↦ do
      lift (ilock i)
      ip ← inode i
      (if ip.type == t_dir
          then leave i minus_one
          else (do link_more i; lift (iunlock i); link_at v i new))
  ]

-- The loop of `isdirempty`, from `off` on, for `n` rounds.
pub is_empty_from : (n : ℕ) → Env → (dp off : ℕ) → F Sys Bool
is_empty_from zero v dp off = pure true
is_empty_from (suc n) v dp off =
    let rest : F Sys Bool = is_empty_from n v dp (off + dirent_size) in
    do
      ip ← inode dp
      (if ltb off ip.size
          then (do
            inum ← lift (read_entry v.devsw dp v.de off)
            (if inum == 0 then rest else pure false))
          else pure true)

-- One round for each entry is enough.
pub isdirempty : Env → (dp : ℕ) → F Sys Bool
isdirempty v dp = do ip ← inode dp; is_empty_from (ip.size / dirent_size + 1) v dp (2 * dirent_size)

-- The entry at `off` of the directory becomes zero.
pub clear_entry : Env → (dp off : ℕ) → F Sys (Unit {0})
clear_entry v dp off = do
  lift (λ s. some (tt, record s { mem = memset s.mem v.de 0 dirent_size }))
  n ← lift (writei v.devsw dp v.de off dirent_size)
  (if is_entry_size n then pure tt else panic)

-- What sys_unlink does from the check of the directory on, with both inodes locked.
pub remove_entry : Env → (dp i off : ℕ) → F Sys ℤ
remove_entry v dp i off = do
  clear_entry v dp off
  ip ← inode i
  (if ip.type == t_dir then link_less dp else pure tt)
  lift (iunlockput dp)
  link_less i
  leave i (pos 0)

-- `ip->type == T_DIR && !isdirempty(ip)`; the number of links is a signed short.
pub is_in_use : Env → (i : ℕ) → F Sys Bool
is_in_use v i = do
  ip ← inode i
  (if (ip.nlink == 0) || not (ltb ip.nlink (2 ^ 15))
      then panic
      else if ip.type == t_dir
      then (do e ← isdirempty v i; pure (not e))
      else pure false)

pub unlink_name : Env → (dp : ℕ) → F Sys ℤ
unlink_name v dp = do
  found ← lift (dirlookup v.devsw dp v.name v.de)
  elim found [
    | none ↦ leave dp minus_one
    | some (i, off) ↦ do
      lift (ilock i)
      used ← is_in_use v i
      (if used then (do lift (iunlockput i); leave dp minus_one) else remove_entry v dp i off)
  ]

-- `namecmp(name, ".") == 0 || namecmp(name, "..") == 0`
pub is_dots : Env → F Sys Bool
is_dots v = lift (λ s.
    some (is_zero_ℤ (namecmp s.mem v.name v.dot) || is_zero_ℤ (namecmp s.mem v.name v.dotdot), s))

pub sys_unlink : Env → Option ℕ → F Sys ℤ
sys_unlink v none = pure minus_one
sys_unlink v (some path) = do
  start_op
  parent ← lookup_parent v path
  elim parent [
    | none ↦ do finish_op; pure minus_one
    | some dp ↦ do
      lift (ilock dp)
      dots ← is_dots v
      (if dots then leave dp minus_one else unlink_name v dp)
  ]

-- `create` where the name is there: the inode, locked, where both are files.
pub create_found : (type i : ℕ) → F Sys (Option ℕ)
create_found type i = do
  lift (ilock i)
  ip ← inode i
  (if (type == t_file) && (ip.type == t_file)
      then pure (some i)
      else (do lift (iunlockput i); pure none))

-- `if(dirlink(dp, name, inum) < 0) panic`
pub must_link : Env → (dp name inum : ℕ) → F Sys (Unit {0})
must_link v dp name inum = do
  r ← lift (dirlink v.devsw dp name v.de v.own inum)
  (if is_zero_ℤ r then pure tt else panic)

-- The entries "." and "..", and the link that the second is.
pub make_dots : Env → (dp i : ℕ) → F Sys (Unit {0})
make_dots v dp i = do
  link_more dp
  ip ← inode i
  must_link v i v.dot ip.inum
  d ← inode dp
  must_link v i v.dotdot d.inum

-- `create` where the name is not there.
pub create_new : Env → (dp type major minor : ℕ) → F Sys (Option ℕ)
create_new v dp type major minor = do
  d ← inode dp
  i ← lift (ialloc d.dev type)
  lift (ilock i)
  change i (λ ip. record ip { major = major % 2 ^ 16; minor = minor % 2 ^ 16; nlink = 1 })
  lift (iupdate i)
  (if type == t_dir then make_dots v dp i else pure tt)
  ip ← inode i
  must_link v dp v.name ip.inum
  lift (iunlockput dp)
  pure (some i)

pub create : Env → (path type major minor : ℕ) → F Sys (Option ℕ)
create v path type major minor = do
  parent ← lookup_parent v path
  elim parent [
    | none ↦ pure none
    | some dp ↦ do
      lift (ilock dp)
      found ← lift (dirlookup v.devsw dp v.name v.de)
      elim found [
        | some (i, _) ↦ do lift (iunlockput dp); create_found type i
        | none ↦ create_new v dp type major minor
      ]
  ]

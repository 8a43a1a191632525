-- ===== src/Fs/Dir.antt =====
-- Directories in OperatingSystem/HW5/fs.c: files of entries of 16 bytes, a number of two bytes and a
-- name of 14. `de` is the address of the local entry on the stack.
use cpp.Prelude.{
  ℕ, zero, suc, ◌+◌, ◌/◌, ◌%◌, ◌^◌, Bool, false, ltb, ◌==◌, if◌then◌else◌, Option, none, some,
}
use cpp.Prelude.Int.{ℤ, pos, negsuc, minus_one}
use cpp.Strings.{Bytes, strncmp, strncpy}
use cpp.Fs.{M, ◌>>=◌, ◌>>◌, pure, panic}
use cpp.Fs.Icache.{inode_at, load_half, store_half, iget}
use cpp.Fs.Content.{Devsw, t_dir, readi, writei, iput}

abbrev pub dirsiz : ℕ
dirsiz = 14

abbrev pub dirent_size : ℕ
dirent_size = 16

pub namecmp : Bytes → (s t : ℕ) → ℤ
namecmp m s t = strncmp m s t dirsiz

abbrev pub is_zero_ℤ : ℤ → Bool
is_zero_ℤ (pos n) = n == 0
is_zero_ℤ (negsuc n) = false

abbrev pub is_entry_size : ℤ → Bool
is_entry_size (pos n) = n == dirent_size
is_entry_size (negsuc n) = false

abbrev pub get_mem : M Bytes
get_mem s = some (s.mem, s)

-- `if(readi(dp, (char*)&de, off, sizeof(de)) != sizeof(de)) panic`, and then `de.inum`.
pub read_entry : Devsw → (dp de off : ℕ) → M ℕ
read_entry d dp de off = do
  n ← readi d dp de off dirent_size
  m ← get_mem
  (if is_entry_size n then pure (load_half m de) else panic)

-- The loop of `dirlookup`, from `off` on, on fuel: the inode and the offset of its entry.
pub lookup_from : (fuel : ℕ) → Devsw → (dp name de off : ℕ) → M (Option (ℕ × ℕ))
unfolding read_entry namecmp
lookup_from zero d dp name de off = pure none
lookup_from (suc fuel) d dp name de off =
    let next : M (Option (ℕ × ℕ)) = lookup_from fuel d dp name de (off + dirent_size) in
    do
      ip ← inode_at dp
      (if ltb off ip.size
          then (do
            inum ← read_entry d dp de off
            m ← get_mem
            (if inum == 0
                then next
                else if is_zero_ℤ (namecmp m name (de + 2))
                then (do i ← iget ip.dev inum; pure (some (i, off)))
                else next))
          else pure none)

-- One round for each entry, and none is left.
pub dirlookup : Devsw → (dp name de : ℕ) → M (Option (ℕ × ℕ))
unfolding lookup_from
dirlookup d dp name de = do
  ip ← inode_at dp
  (if ip.type == t_dir then lookup_from (ip.size / dirent_size + 1) d dp name de 0 else panic)

-- The second loop of `dirlink`: the offset of an entry that is free, or the end of the directory.
pub empty_from : (fuel : ℕ) → Devsw → (dp de off : ℕ) → M ℕ
unfolding read_entry
empty_from zero d dp de off = pure off
empty_from (suc fuel) d dp de off =
    let next : M ℕ = empty_from fuel d dp de (off + dirent_size) in
    do
      ip ← inode_at dp
      (if ltb off ip.size
          then (do inum ← read_entry d dp de off; (if inum == 0 then pure off else next))
          else pure off)

-- The entry that is written: the name, padded with zeros, and the number.
pub make_entry : (de name inum : ℕ) → M (Unit {0})
make_entry de name inum s = some (
  tt,
  record s { mem = store_half (strncpy s.mem (de + 2) name (pos dirsiz)) de (inum % 2 ^ 16) },
)

pub link_entry : Devsw → (dp name de inum : ℕ) → M ℤ
unfolding empty_from make_entry
link_entry d dp name de inum = do
  ip ← inode_at dp
  off ← empty_from (ip.size / dirent_size + 1) d dp de 0
  make_entry de name inum
  n ← writei d dp de off dirent_size
  (if is_entry_size n then pure (pos 0) else panic)

-- `own` is the address of the entry of dirlink itself.
pub dirlink : Devsw → (dp name de own inum : ℕ) → M ℤ
unfolding dirlookup link_entry
dirlink d dp name de own inum = do
  found ← dirlookup d dp name de
  (elim found [ some (i, _) ↦ do iput i; pure minus_one | none ↦ link_entry d dp name own inum ])

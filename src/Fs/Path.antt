-- ===== src/Fs/Path.antt =====
-- Path names in OperatingSystem/HW5/fs.c. A path is an address in the memory, `name` that of the
-- array that gets an element, `de` that of the entry on the stack of dirlookup.
pub mod Elements
use cpp.Prelude.{
  ℕ, zero, suc, ◌+◌, ◌-◌, Bool, true, false, leb, ◌==◌, ◌&&◌, not, if◌then◌else◌, Option, none,
  some,
}
use cpp.Strings.{Bytes, poke, memmove}
use cpp.Fs.{M, ◌>>=◌, ◌>>◌, pure, panic}
use cpp.Fs.Icache.{inode_at, iget, idup, ilock, iunlock}
use cpp.Fs.Content.{Devsw, t_dir, iput, iunlockput}
use cpp.Fs.Dir.{dirsiz, get_mem, dirlookup}

-- The loops of `skipelem`, on fuel: the first byte that is no slash, and the end of an element.
pub skip_slashes : (fuel : ℕ) → Bytes → ℕ → Option ℕ
skip_slashes zero m p = none
skip_slashes (suc fuel) m p =
    let rest = skip_slashes fuel m (p + 1) in if m p == b'/' then rest else some p

pub skip_name : (fuel : ℕ) → Bytes → ℕ → Option ℕ
skip_name zero m p = none
skip_name (suc fuel) m p =
    let rest = skip_name fuel m (p + 1) in
    if not (m p == b'/') && not (m p == 0) then rest else some p

-- The element from `s` on, `len` bytes long, in the array: cut off, or ended with NUL.
pub put_name : Bytes → (name s len : ℕ) → Bytes
put_name m name s len =
    if leb dirsiz len then memmove m name s dirsiz else poke (memmove m name s len) (name + len) 0

-- The path behind the first element, where there is one, and the memory.
pub skipelem : (fuel : ℕ) → Bytes → (path name : ℕ) → Option (Option ℕ × Bytes)
unfolding skip_slashes skip_name put_name
skipelem fuel m path name = elim (skip_slashes fuel m path) [
  | none ↦ none
  | some s ↦ if m s == 0 then some (none, m) else elim (skip_name fuel m s) [
    | none ↦ none
    | some e ↦
        let m' : Bytes = put_name m name s (e - s) in
        elim (skip_slashes fuel m' e) [ none ↦ none | some p ↦ some (some p, m') ]
  ]
]

abbrev pub next_elem : (fuel path name : ℕ) → M (Option ℕ)
next_elem fuel path name s = elim (skipelem fuel s.mem path name) [
  | none ↦ none
  | some (p, m) ↦ some (p, record s { mem = m })
]

abbrev pub root_dev : ℕ
root_dev = 1

abbrev pub root_ino : ℕ
root_ino = 1

-- The end of `namex`, where no element is left: the parent of the inode itself has no name.
pub namex_end : Bool → ℕ → M (Option ℕ)
namex_end true i = do iput i; pure none
namex_end false i = pure (some i)

-- The loop of `namex`, on fuel, from the inode `i` on; `none` in the result is the null pointer.
-- `flen` is the fuel of the loops of `skipelem`.
pub namex_from : (fuel flen : ℕ) → Devsw → (parent : Bool) → (path name de i : ℕ) → M (Option ℕ)
unfolding skipelem namex_end
namex_from zero flen d parent path name de i = panic
namex_from (suc fuel) flen d parent path name de i =
    let next : ℕ → ℕ → M (Option ℕ) = λ p j. namex_from fuel flen d parent p name de j in
    do
      rest ← next_elem flen path name
      (elim rest [
        | none ↦ namex_end parent i
        | some p ↦ do
          ilock i
          ip ← inode_at i
          m ← get_mem
          (if not (ip.type == t_dir)
              then (do iunlockput i; pure none)
              else if parent && (m p == 0)
              then (do iunlock i; pure (some i))
              else (do
                found ← dirlookup d i name de
                iunlockput i
                (elim found [ none ↦ pure none | some (j, _) ↦ next p j ])))
      ])

pub namex : (fuel : ℕ) → Devsw → (cwd : ℕ) → (parent : Bool) → (path name de : ℕ) → M (Option ℕ)
unfolding namex_from
namex fuel d cwd parent path name de = do
  m ← get_mem
  i ← (if m path == b'/' then iget root_dev root_ino else idup cwd)
  namex_from fuel fuel d parent path name de i

-- `name` is here an array on the stack.
pub namei : (fuel : ℕ) → Devsw → (cwd path name de : ℕ) → M (Option ℕ)
unfolding namex
namei fuel d cwd path name de = namex fuel d cwd false path name de

pub nameiparent : (fuel : ℕ) → Devsw → (cwd path name de : ℕ) → M (Option ℕ)
unfolding namex
nameiparent fuel d cwd path name de = namex fuel d cwd true path name de

-- ===== src/File.antt =====
-- OperatingSystem/HW5/file.c: the table of open files. A function that works on the table does so
-- from `acquire` to `release` of `ftable.lock`. The calls of fs.c, log.c and pipe.c are an
-- interface; they can sleep, and so work on the whole state.
pub mod Refs
mod Tests
use cpp.Prelude.{
  ℕ, zero, suc, ◌+◌, ◌-◌, ◌%◌, ◌^◌, Bool, true, false, ltb, ◌==◌, if◌then◌else◌, Option, none, some,
  List, [], ◌∷◌, get_elem?, modify_at,
}
use cpp.Prelude.Int.{ℤ, pos, negsuc, minus_one}

pub data FileType : Type 0 where
  fd_none fd_pipe fd_inode : FileType

-- `struct file`
pub record File : Type 0 where
  pub type : FileType
  pub ref : ℕ
  pub readable : Bool
  pub writable : Bool
  pub pipe : ℕ
  pub ip : ℕ
  pub off : ℕ

-- `ftable.file`, and the state of the other files.
pub record Files (W : Type 0) : Type 0 where
  pub table : List File
  pub world : W

-- `none` is a panic.
abbrev pub F : Type 0 → Type 0 → Type 0
F W A = Files W → Option (A × Files W)

module _ {W : Type 0} where
  infixl 5 ◌>>=◌ ◌>>◌
  abbrev pub ◌>>=◌ : {A B : Type 0} → F W A → (A → F W B) → F W B
  ◌>>=◌ m f k = elim (m k) [ none ↦ none | some (a, k') ↦ f a k' ]

  abbrev pub ◌>>◌ : {A B : Type 0} → F W A → F W B → F W B
  m >> n = m >>= λ _. n

  abbrev pub pure : {A : Type 0} → A → F W A
  pure a k = some (a, k)

  abbrev pub panic : {A : Type 0} → F W A
  panic k = none

  -- `*f`; an index past the table is a wild pointer.
  abbrev pub file_at : ℕ → F W File
  file_at f k = elim (get_elem? k.table f) [ none ↦ none | some x ↦ some (x, k) ]

  abbrev pub modify : ℕ → (File → File) → F W (Unit {0})
  modify f g k = some (tt, record k { table = modify_at g k.table f })

pub record Calls (W : Type 0) : Type 0 where
  pub pipeclose : ℕ → Bool → F W (Unit {0})
  pub piperead : (pipe addr : ℕ) → ℤ → F W ℤ
  pub pipewrite : (pipe addr : ℕ) → ℤ → F W ℤ
  pub begin_op : F W (Unit {0})
  pub end_op : F W (Unit {0})
  pub ilock : ℕ → F W (Unit {0})
  pub iunlock : ℕ → F W (Unit {0})
  pub iput : ℕ → F W (Unit {0})
  pub stati : (ip st : ℕ) → F W (Unit {0})
  pub readi : (ip addr off : ℕ) → ℤ → F W ℤ
  pub writei : (ip addr off n : ℕ) → F W ℤ

-- The scan of `filealloc`: the first slot without references, counted from `i`.
pub find_free : List File → ℕ → Option ℕ
find_free [] i = none
find_free (x ∷ xs) i = if x.ref == 0 then some i else find_free xs (i + 1)

-- `f->off += r`, if `r > 0`.
abbrev pub advance : ℤ → File → File
advance (pos r) x = record x { off = (x.off + r) % 2 ^ 32 }
advance (negsuc r) x = x

-- `((MAXOPBLOCKS-1-1-2) / 2) * 512`
abbrev pub max_write : ℕ
max_write = 1536

module _ {W : Type 0} where
  unfoldable pub filealloc : F W (Option ℕ)
  unfolding find_free
  filealloc k = elim (find_free k.table 0) [
    | none ↦ some (none, k)
    | some i ↦ (do modify i (λ x. record x { ref = 1 }); pure (some i)) k
  ]

  unfoldable pub filedup : ℕ → F W (Unit {0})
  filedup f = do
    x ← file_at f
    if x.ref == 0 then panic else modify f (λ x. record x { ref = x.ref + 1 })

module _ {W : Type 0} (c : Calls W) where
  open c use {
    pipeclose, piperead, pipewrite, begin_op, end_op, ilock, iunlock, iput, stati, readi, writei,
  }

  -- What `fileclose` does with the last reference, for the file as it was.
  unfoldable pub last_close : File → F W (Unit {0})
  last_close x = elim x.type [
    | fd_none ↦ pure tt
    | fd_pipe ↦ pipeclose x.pipe x.writable
    | fd_inode ↦ do begin_op; iput x.ip; end_op
  ]

  unfoldable pub fileclose : ℕ → F W (Unit {0})
  unfolding last_close
  fileclose f = do
    x ← file_at f
    if x.ref == 0
        then panic
        else if ltb 1 x.ref
        then modify f (λ x. record x { ref = x.ref - 1 })
        else do modify f (λ x. record x { ref = 0; type = fd_none }); last_close x

  unfoldable pub filestat : (f st : ℕ) → F W ℤ
  filestat f st = do
    x ← file_at f
    elim x.type [
      | fd_inode ↦ do ilock x.ip; stati x.ip st; iunlock x.ip; pure (pos 0)
      | _ ↦ pure minus_one
    ]

  unfoldable pub read_inode : (f addr : ℕ) → ℤ → File → F W ℤ
  read_inode f addr n x = do
    ilock x.ip
    x ← file_at f
    r ← readi x.ip addr x.off n
    modify f (advance r)
    iunlock x.ip
    pure r

  unfoldable pub fileread : (f addr : ℕ) → ℤ → F W ℤ
  unfolding read_inode
  fileread f addr n = do
    x ← file_at f
    if x.readable
        then elim x.type [
          | fd_none ↦ panic
          | fd_pipe ↦ piperead x.pipe addr n
          | fd_inode ↦ read_inode f addr n x
        ]
        else pure minus_one

  -- One round of the loop of `filewrite`, for `n1` bytes at `addr`: what `writei` returns.
  unfoldable pub write_chunk : (f addr n1 : ℕ) → F W ℤ
  write_chunk f addr n1 = do
    begin_op
    x ← file_at f
    ilock x.ip
    x ← file_at f
    r ← writei x.ip addr x.off n1
    modify f (advance r)
    iunlock x.ip
    end_op
    pure r

  -- The loop, for `rest = n - i` bytes at `addr + i`, in `fuel` rounds at most: whether all of them
  -- are written.
  unfoldable pub write_from : (fuel f addr rest : ℕ) → F W Bool
  unfolding write_chunk
  write_from zero f addr rest = pure (rest == 0)
  write_from (suc fuel) f addr rest =
      let n1 : ℕ = if ltb max_write rest then max_write else rest in
      let next : F W Bool = write_from fuel f (addr + n1) (rest - n1) in
      if rest == 0 then pure true else (do
        r ← write_chunk f addr n1
        elim r [ negsuc m ↦ pure false | pos m ↦ if m == n1 then next else panic ])

  -- A round writes a byte at least, so that `n` rounds are enough. For a negative `n` there is none.
  unfoldable pub write_inode : (f addr : ℕ) → ℤ → F W ℤ
  unfolding write_from
  write_inode f addr (pos n) = do
    done ← write_from n f addr n
    pure (if done then pos n else minus_one)
  write_inode f addr (negsuc m) = pure minus_one

  unfoldable pub filewrite : (f addr : ℕ) → ℤ → F W ℤ
  unfolding write_inode
  filewrite f addr n = do
    x ← file_at f
    if x.writable
        then elim x.type [
          | fd_none ↦ panic
          | fd_pipe ↦ pipewrite x.pipe addr n
          | fd_inode ↦ write_inode f addr n
        ]
        else pure minus_one

-- ===== src/Bio.antt =====
-- OperatingSystem/HW5/bio.c, with iderw as memide.c has it. The buffers are numbered; the circular
-- list through `next` from the head is the list of their numbers, most recently used first, which
-- `prev` reads backwards. The callers hold the sleep locks of the buffers that they have.
pub mod Get
pub mod Order
pub mod Read
mod Tests
use cpp.Prelude.{
  ltb, ℕ, zero, suc, ◌+◌, ◌-◌, Bool, true, false, ◌&&◌, not, ◌==◌, if◌then◌else◌, Option, none,
  some, List, [], ◌∷◌, get_elem?, modify_at, replicate, ◌%◌, ◌^◌,
}
use cpp.Blocks.{Block}

abbrev pub nbuf : ℕ
nbuf = 30

-- `struct buf` without its lock; `valid` and `dirty` are the flags, `contents` the data.
pub record Buf : Type 0 where
  pub valid : Bool
  pub dirty : Bool
  pub dev : ℕ
  pub blockno : ℕ
  pub refcnt : ℕ
  pub contents : Block

-- `bcache`, and the disks; `disksize` is the number of blocks of the disk in the memory.
pub record Cache : Type 0 where
  pub bufs : List Buf
  pub order : List ℕ
  pub disk : ℕ → ℕ → Block
  pub disksize : ℕ

abbrev zero_buf : Buf
zero_buf = record {
  valid = false;
  dirty = false;
  dev = 0;
  blockno = 0;
  refcnt = 0;
  contents = λ i. 0;
}

-- The loop of `binit`: buffer `i` goes in front of the list.
pub link_from : (n i : ℕ) → List ℕ → List ℕ
link_from zero i order = order
link_from (suc n) i order = link_from n (i + 1) (i ∷ order)

-- The buffers are zero when the kernel starts.
pub binit : (ℕ → ℕ → Block) → (disksize : ℕ) → Cache
unfolding link_from
binit disk disksize = record {
  bufs = replicate nbuf zero_buf;
  order = link_from nbuf 0 [];
  disk = disk;
  disksize = disksize;
}

abbrev pub update : Cache → ℕ → (Buf → Buf) → Cache
update c i f = record c { bufs = modify_at f c.bufs i }

abbrev pub is_block : (dev blockno : ℕ) → Buf → Bool
is_block dev blockno b = (b.dev == dev) && (b.blockno == blockno)

-- `b->refcnt == 0 && (b->flags & B_DIRTY) == 0`
abbrev pub is_unused : Buf → Bool
is_unused b = (b.refcnt == 0) && not b.dirty

abbrev pub test : (Buf → Bool) → Option Buf → Bool
test p none = false
test p (some b) = p b

-- The first buffer of the list that passes, and the last.
pub find : (Buf → Bool) → List Buf → List ℕ → Option ℕ
find p bufs [] = none
find p bufs (i ∷ order) = if test p (get_elem? bufs i) then some i else find p bufs order

pub find_last : (Buf → Bool) → List Buf → List ℕ → Option ℕ
find_last p bufs [] = none
find_last p bufs (i ∷ order) =
    let later : Option ℕ = find_last p bufs order in
    elim later [ some j ↦ some j | none ↦ if test p (get_elem? bufs i) then some i else none ]

-- `none` is a panic.
pub bget : (dev blockno : ℕ) → Cache → Option (ℕ × Cache)
unfolding find find_last
bget dev blockno c = elim (find (is_block dev blockno) c.bufs c.order) [
  | some i ↦ some (i, update c i (λ b. record b { refcnt = (b.refcnt + 1) % 2 ^ 32 }))
  | none ↦ elim (find_last is_unused c.bufs c.order) [
    | some i ↦ some (
      i,
      update c i (λ b. record b {
        dev = dev;
        blockno = blockno;
        valid = false;
        dirty = false;
        refcnt = 1;
      }),
    )
    | none ↦ none
  ]
]

-- The request of `iderw` is for the disk, and inside it.
abbrev pub in_range : (dev blockno : ℕ) → Cache → Bool
in_range dev blockno c = (dev == 1) && ltb blockno c.disksize

-- `iderw` on buffer `i`. It panics if there is nothing to do or the block is not in range.
pub iderw : ℕ → Cache → Option Cache
iderw i c = elim (get_elem? c.bufs i) [
  | none ↦ none
  | some b ↦
      if b.valid && not b.dirty
      then none
      else if not (in_range b.dev b.blockno c)
      then none
      else if b.dirty
      then some (record (update c i (λ b. record b { dirty = false; valid = true })) {
        disk = λ d n. if (d == b.dev) && (n == b.blockno) then b.contents else c.disk d n;
      })
      else some (update c i (λ b. record b { contents = c.disk b.dev b.blockno; valid = true }))
]

abbrev pub is_valid : Option Buf → Bool
is_valid none = false
is_valid (some b) = b.valid

pub bread : (dev blockno : ℕ) → Cache → Option (ℕ × Cache)
unfolding bget iderw
bread dev blockno c = elim (bget dev blockno c) [
  | none ↦ none
  | some (i, c') ↦
      if is_valid (get_elem? c'.bufs i)
      then some (i, c')
      else elim (iderw i c') [ none ↦ none | some c'' ↦ some (i, c'') ]
]

pub bwrite : ℕ → Cache → Option Cache
unfolding iderw
bwrite i c = iderw i (update c i (λ b. record b { dirty = true }))

pub remove : ℕ → List ℕ → List ℕ
remove i [] = []
remove i (j ∷ order) = let rest : List ℕ = remove i order in if j == i then order else j ∷ rest

abbrev pub last_user : Option Buf → Bool
last_user none = false
last_user (some b) = b.refcnt == 1

-- The count is unsigned: a release too many would wrap it round.
pub brelse : ℕ → Cache → Cache
unfolding remove
brelse i c =
    let c' : Cache = update c i (λ b. record b { refcnt = (b.refcnt + (2 ^ 32 - 1)) % 2 ^ 32 }) in
    if last_user (get_elem? c.bufs i) then record c' { order = i ∷ remove i c.order } else c'

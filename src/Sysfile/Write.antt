-- ===== src/Sysfile/Write.antt =====
-- filewrite of OperatingSystem/HW5/file.c on a file of fs.c: what a write in parts leaves.
pub mod Chunk
pub mod Loop
use cpp.Prelude.{
  ℕ, ◌+◌, ◌-◌, ◌≤◌, ◌<◌, ◌≡◌, ◌≢◌, ◌⊎◌, refl, ap, ◌∙◌, inl, inr, Bool, true, false, none, ◌&&◌, ltb,
  leb, if◌then◌else◌, some, Option, get_elem?, modify_at, get_elem?-modify_at_self, arith,
  Bool-cases,
}
use cpp.Prelude.Int.{pos}
use cpp.Strings.{Bytes}
use cpp.File.{File, Files, F}
use cpp.Fs.{Inode, Fs}
use cpp.Fs.Bitmap.{AreBytes}
use cpp.Fs.Icache.{is_positive}
use cpp.Fs.Icache.Lock.{set_locked, relocked}
use cpp.Fs.Content.{max_size, t_dev}
use cpp.Fs.Content.Slots.{addr_of, slot, content, IsMounted-core, IsFile}
use cpp.Fs.Content.Bmap.{eq_or_ne}
use cpp.Fs.Content.Read.{Missing}
use cpp.Fs.Content.Store.{stored}
use cpp.Fs.Content.Grow.{HasPlace}
use cpp.Fs.Content.RoundTrip.{grown_size}
use cpp.Sysfile.{Sys}

-- What the lock of an inode leaves as it was.
pub relocked-IsFile :
    (i : ℕ) (b : Bool) (s : Fs) (ip : Inode)
    → IsFile i s ip
    → IsFile i (relocked i b s) (set_locked b ip)
unfolding addr_of
relocked-IsFile i b s ip f = record {
  at = get_elem?-modify_at_self (set_locked b) s.icache i f.at;
  mounted = IsMounted-core ip.dev s (modify_at (set_locked b) s.icache i) s.mem f.mounted;
  all = f.all;
  held = f.held;
  distinct = f.distinct;
}

pub relocked-slots :
    (i : ℕ) (b : Bool) (s : Fs) (ip : Inode) (k : ℕ)
    → addr_of (set_locked b ip) (relocked i b s) k ≡ addr_of ip s k
unfolding addr_of
relocked-slots i b s ip k = refl

pub relocked-content :
    (i : ℕ) (b : Bool) (s : Fs) (ip : Inode) (o : ℕ)
    → content (set_locked b ip) (relocked i b s) o ≡ content ip s o
unfolding content addr_of
relocked-content i b s ip o = refl

-- An ordinary file of the cache, with an inode that has been read and that nobody has locked.
pub record IsWritable (i : ℕ) (s : Fs) (ip : Inode) : Type 0 where
  pub file : IsFile i s ip
  pub place : HasPlace s ip
  pub bytes : AreBytes s.mem
  pub ordinary : ip.type ≢ t_dev
  pub positive : is_positive ip.ref ≡ true
  pub free : ip.locked ≡ false
  pub valid : ip.valid ≡ true

-- `n` bytes of the memory from `addr` on are in the file, from its offset on, and the offset is
-- behind them.
pub record Written (f i addr n : ℕ) (x : File) (ip : Inode) (k k' : Files Sys) (ip' : Inode)
    : Type 0 where
  pub at : get_elem? k'.table f ≡ some (record x { off = x.off + n })
  pub ready : IsWritable i k'.world.fs ip'
  pub reads :
      (o : ℕ)
      → o < max_size
      → content ip' k'.world.fs o ≡ stored (content ip k.world.fs) k.world.fs.mem addr x.off n o
  pub size : ip'.size ≡ grown_size ip.size x.off n
  pub memory : k'.world.fs.mem ≡ k.world.fs.mem
  pub keeps : (m : ℕ) → m < 141 → addr_of ip k.world.fs m ≢ 0 → addr_of ip' k'.world.fs m ≢ 0
  pub ops : k'.world.ops ≡ k.world.ops

module _ (f i : ℕ) where
  -- A call that writes `n` bytes: it does, or it panics where a block is not there.
  abbrev pub WritesTo :
      {A : Type 0} (a : A) (addr n : ℕ) → File → Inode → Files Sys → Option (A × Files Sys) → Type 0
  WritesTo a addr n x ip k r =
      ((r ≡ none) × Missing ip k.world.fs x.off n)
      ⊎ ((k' : Files Sys) × (ip' : Inode) × (r ≡ some (a, k')) × Written f i addr n x ip k k' ip')

  pub Written-nothing :
      (addr : ℕ) (x : File) (ip : Inode) (k : Files Sys)
      → get_elem? k.table f ≡ some x
      → IsWritable i k.world.fs ip
      → Written f i addr 0 x ip k k ip
  Written-nothing addr x ip k at w = record {
    at = at ∙ ap (λ o. some (record x { off = o })) same;
    ready = w;
    reads = λ o lt. ground arith;
    size = refl;
    memory = refl;
    keeps = λ m lt ne. ne;
    ops = refl;
  }
    where
      same : x.off ≡ x.off + 0
      same = omega arith

  stored-then :
      (old : ℕ → ℕ) (mem : Bytes) (addr off n m o : ℕ) (new : ℕ)
      → new ≡ stored old mem addr off n o
      → (if leb (off + n) o && ltb o (off + n + m) then mem (addr + n + (o - (off + n))) else new)
        ≡ stored old mem addr off (n + m) o
  stored-then old mem addr off n m o new e = elim (Bool-cases (leb (off + n) o)) [
    | inl second ↦
        let place : addr + n + (o - (off + n)) ≡ addr + (o - off) = ground arith in
        ground (arith, ap mem place)
    | inr first ↦ ground arith
  ]

  grown_size-then :
      (size off n m : ℕ)
      → off ≤ size
      → grown_size (grown_size size off n) (off + n) m ≡ grown_size size off (n + m)
  grown_size-then size off n m before = ground arith

  pub Written-then :
      (addr n m : ℕ) (x : File) (ip ip₁ ip' : Inode) (k k₁ k' : Files Sys)
      → x.off ≤ ip.size
      → Written f i addr n x ip k k₁ ip₁
      → Written f i (addr + n) m (record x { off = x.off + n }) ip₁ k₁ k' ip'
      → Written f i addr (n + m) x ip k k' ip'
  Written-then addr n m x ip ip₁ ip' k k₁ k' before a b = record {
    at = b.at ∙ ap (λ o. some (record x { off = o })) sum;
    ready = b.ready;
    reads = λ o lt.
        b.reads o lt
        ∙ ap
            (λ t.
              if leb (x.off + n) o && ltb o (x.off + n + m)
              then t (addr + n + (o - (x.off + n)))
              else content ip₁ k₁.world.fs o)
            a.memory
        ∙ stored-then (content ip k.world.fs) k.world.fs.mem addr x.off n m o
            (content ip₁ k₁.world.fs o) (a.reads o lt);
    size =
        b.size
        ∙ ap (λ z. grown_size z (x.off + n) m) a.size
        ∙ grown_size-then ip.size x.off n m before;
    memory = b.memory ∙ a.memory;
    keeps = λ j lt ne. b.keeps j lt (a.keeps j lt ne);
    ops = b.ops ∙ a.ops;
  }
    where
      sum : x.off + n + m ≡ x.off + (n + m)
      sum = omega arith

  pub Missing-before :
      (addr n m : ℕ) (x : File) (ip ip₁ : Inode) (k k₁ : Files Sys)
      → x.off + (n + m) ≤ max_size
      → Written f i addr n x ip k k₁ ip₁
      → Missing ip₁ k₁.world.fs (x.off + n) m
      → Missing ip k.world.fs x.off (n + m)
  Missing-before addr n m x ip ip₁ k k₁ fits w (j, lo, hi, hole) =
      elim (eq_or_ne (addr_of ip k.world.fs (slot j)) 0) [
        | inl none_yet ↦ (j, omega arith, omega arith, none_yet)
        | inr there ↦ absurd (w.keeps (slot j) (ground arith) there hole)
      ]

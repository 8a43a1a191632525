-- ===== src/Fs/Content/RoundTrip.antt =====
-- writei of fs.c in full, and readi behind it.
use cpp.Prelude.{
  ℕ, ◌+◌, ◌-◌, ◌*◌, ◌/◌, ◌≤◌, ◌<◌, ◌≡◌, ◌≢◌, ◌⊎◌, sym, ap, ap₂, ◌∙◌, not, ltb, leb, ◌==◌, ◌&&◌,
  if◌then◌else◌, arith, Bool-cases, inl, inr, some, none,
}
use cpp.Prelude.Int.{pos}
use cpp.Fs.{Inode, Fs, bsize}
use cpp.Fs.Bitmap.{AreBytes}
use cpp.Fs.Content.{max_size, readi, writei, clip, Devsw, t_dev}
use cpp.Fs.Content.Slots.{addr_of, slot, content, IsFile}
use cpp.Fs.Content.Read.{Missing, loaded, readi_lem}
use cpp.Fs.Content.Store.{stored, Stored, write_loop_lem}
use cpp.Fs.Content.Grow.{resize, Grown, HasPlace, grow_lem}

-- The size behind a write.
abbrev pub grown_size : (size off n : ℕ) → ℕ
grown_size size off n = if not (n == 0) && ltb size (off + n) then off + n else size

-- What a write of `n` bytes leaves.
pub record Wrote (i : ℕ) (s : Fs) (ip : Inode) (src off n : ℕ) (s' : Fs) (ip' : Inode)
    : Type 0 where
  pub file : IsFile i s' ip'
  pub reads : (o : ℕ) → o < max_size → content ip' s' o ≡ stored (content ip s) s.mem src off n o
  pub size : ip'.size ≡ grown_size ip.size off n
  pub shape : ip' ≡ record ip { size = ip'.size; addrs = ip'.addrs }
  pub same_sb : s'.sb ≡ s.sb
  pub keeps : (k : ℕ) → k < 141 → addr_of ip s k ≢ 0 → addr_of ip' s' k ≢ 0
  pub memory : s'.mem ≡ s.mem
  pub filled : (m : ℕ) → 0 < n → off / bsize ≤ m → m * bsize < off + n → addr_of ip' s' (slot m) ≢ 0

shape_lem :
    (i : ℕ) (s : Fs) (ip : Inode) (src off n : ℕ) (s₁ : Fs) (ip₁ : Inode) (size : ℕ)
    → Stored i s ip src off n s₁ ip₁
    → (s₂ : Fs) (ip₂ : Inode) → Grown i s₁ ip₁ size s₂ ip₂
    → ip₂ ≡ record ip { size = ip₂.size; addrs = ip₂.addrs }
shape_lem i s ip src off n s₁ ip₁ size st s₂ ip₂ g =
    let addrs : ip₁.addrs ≡ ip₂.addrs = sym (ap (λ t. t.addrs) g.shape) in
    let size₂ : size ≡ ip₂.size = sym (ap (λ t. t.size) g.shape) in
    g.shape ∙ ap (resize size) st.shape ∙ ap₂ (λ z a. record ip { size = z; addrs = a }) size₂ addrs

-- writei of a file whose blocks are blocks of data in use, one for each slot, and whose inode is in
-- front of the bitmap, from an offset that is not behind its end and with no byte past the largest
-- file, where log_write takes the blocks, which IsFile has as a part: it returns `n`, the bytes of the file are those of the memory in the range and the old ones
-- elsewhere, the size grows to the end of the range if that is behind it, and the memory stays. It
-- panics only where a block of the range is not there before.
pub writei_lem :
    (d : Devsw) (i : ℕ) (s : Fs) (ip : Inode) (src off n : ℕ)
    → IsFile i s ip
    → HasPlace s ip
    → AreBytes s.mem
    → ip.type ≢ t_dev
    → off ≤ ip.size
    → off + n ≤ max_size
    → ((writei d i src off n s ≡ none) × Missing ip s off n)
      ⊎ ((s' : Fs) × (ip' : Inode) × (writei d i src off n s ≡ some (pos n, s'))
          × Wrote i s ip src off n s' ip')
unfolding writei
writei_lem d i s ip src off n f place bytes file before fits =
    elim (write_loop_lem n i s ip src off n f bytes (omega arith) fits) [
      | inl (e, miss) ↦ inl (ground (arith, e, f.at), miss)
      | inr (s₁, ip₁, e, st) ↦
          let inum : ip₁.inum ≡ ip.inum = ap (λ t. t.inum) st.shape in
          let size : ip₁.size ≡ ip.size = ap (λ t. t.size) st.shape in
          let place₁ : HasPlace s₁ ip₁ =
            ground
              (arith, inum, ap (λ t. t.inodestart) st.same_sb, ap (λ t. t.bmapstart) st.same_sb) in
          let (s₂, ip₂, e', g) = grow_lem i (off + n) n s₁ ip₁ st.file place₁ in
          inr (
            s₂,
            ip₂,
            ground (arith, e, e', f.at),
            record {
              file = g.file;
              reads = λ o lt. g.reads o lt ∙ st.reads o lt;
              size = ap (λ t. t.size) g.shape ∙ ap (λ z. grown_size z off n) size;
              shape = shape_lem i s ip src off n s₁ ip₁ _ st s₂ ip₂ g;
              same_sb = g.same_sb ∙ st.same_sb;
              keeps = λ k lt ne z. ne (sym (st.keeps k lt ne) ∙ sym (g.slots k lt) ∙ z);
              memory = g.memory ∙ st.memory;
              filled = λ m more lo hi z.
                  st.filled m more lo hi (sym (g.slots (slot m) (ground arith)) ∙ z);
            },
          )
    ]

read_back :
    (i : ℕ) (s : Fs) (ip : Inode) (src dst off n : ℕ) (s₁ : Fs) (ip₁ : Inode) (k x : ℕ)
    → off + n ≤ max_size
    → k ≡ n
    → Wrote i s ip src off n s₁ ip₁
    → loaded s₁.mem dst k (content ip₁ s₁) off x
      ≡ (if leb dst x && ltb x (dst + n) then s.mem (src + (x - dst)) else s.mem x)
read_back i s ip src dst off n s₁ ip₁ k x fits same w =
    elim (Bool-cases (leb dst x && ltb x (dst + n))) [
      | inl inside ↦
          let place : off + (x - dst) - off ≡ x - dst = omega arith in
          ground (arith, w.reads (off + (x - dst)) (ground arith), ap (λ j. s.mem (src + j)) place)
      | inr outside ↦ ground (arith, ap (λ m. m x) w.memory)
    ]

-- After a writei that does not panic, readi of the same range gives the bytes that were written,
-- wherever it puts them: it does not panic, it returns `n`, and the other bytes of the memory stay.
pub readi-writei :
    (d : Devsw) (i : ℕ) (s : Fs) (ip : Inode) (src dst off n : ℕ)
    → IsFile i s ip
    → HasPlace s ip
    → AreBytes s.mem
    → ip.type ≢ t_dev
    → ip.size ≤ max_size
    → off ≤ ip.size
    → 0 < n
    → off + n ≤ max_size
    → ((writei d i src off n s ≡ none) × Missing ip s off n)
      ⊎ ((s₁ s₂ : Fs) × (writei d i src off n s ≡ some (pos n, s₁))
          × (readi d i dst off n s₁ ≡ some (pos n, s₂))
          × ((x : ℕ)
              → s₂.mem x
                ≡ (if leb dst x && ltb x (dst + n) then s.mem (src + (x - dst)) else s.mem x)))
readi-writei d i s ip src dst off n f place bytes file small before more fits =
    elim (writei_lem d i s ip src off n f place bytes file before fits) [
      | inl stuck ↦ inl stuck
      | inr (s₁, ip₁, e, w) ↦
          let whole : clip ip₁.size off n ≡ n = ground (arith, w.size) in
          elim (readi_lem d i s₁ ip₁ dst off n w.file
            (λ z. file (sym (ap (λ t. t.type) w.shape) ∙ z)) (ground (arith, w.size))
            (ground (arith, w.size)) (omega arith)) [
              | inl (e', (m, lo, hi, missing)) ↦ absurd (w.filled m more lo (omega arith) missing)
              | inr (s₂, ip₂, e', ext, mem) ↦ inr (
                s₁,
                s₂,
                e,
                e' ∙ ap (λ k. some (pos k, s₂)) whole,
                λ x.
                    mem x
                    ∙ read_back i s ip src dst off n s₁ ip₁ (clip ip₁.size off n) x fits whole w,
              )
            ]
    ]

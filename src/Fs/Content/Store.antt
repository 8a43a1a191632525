-- ===== src/Fs/Content/Store.antt =====
-- The loop of writei of fs.c, and writei.
use cpp.Prelude.{
  ℕ, zero, suc, ◌+◌, ◌-◌, ◌*◌, ◌/◌, ◌%◌, ◌≤◌, ◌<◌, ◌≡◌, ◌≢◌, ◌⊎◌, refl, sym, ap, subst, ◌∙◌, ltb,
  leb, ◌&&◌, if◌then◌else◌, arith, inl, inr, some, none, Option, get_elem?, Bool-cases,
}
use cpp.Strings.{Bytes}
use cpp.Fs.{write_block, Inode, Fs, bsize}
use cpp.Fs.Bitmap.{AreBytes}
use cpp.Fs.Content.{bmap, max_size, copy, piece, write_loop}
use cpp.Fs.Content.Slots.{write_block-put, put, addr_of, slot, content, IsFile}
use cpp.Fs.Content.Bmap.{eq_or_ne, with_addrs, Extends, bmap_lem}
use cpp.Fs.Content.Read.{copy_lem, Missing, Missing-later, piece_lem}
use cpp.Fs.Content.Write.{rewritten-IsFile, rewritten-content, same_slots}

-- A file with `n` bytes of the memory from `src` on at the offset `off`.
abbrev pub stored : (file : ℕ → ℕ) → Bytes → (src off n : ℕ) → ℕ → ℕ
stored file m src off n o = if leb off o && ltb o (off + n) then m (src + (o - off)) else file o

-- What the loop has done.
pub record Stored (i : ℕ) (s : Fs) (ip : Inode) (src off n : ℕ) (s' : Fs) (ip' : Inode)
    : Type 0 where
  pub file : IsFile i s' ip'
  pub reads : (o : ℕ) → o < max_size → content ip' s' o ≡ stored (content ip s) s.mem src off n o
  pub shape : ip' ≡ record ip { addrs = ip'.addrs }
  pub same_sb : s'.sb ≡ s.sb
  pub memory : s'.mem ≡ s.mem
  pub keeps : (k : ℕ) → k < 141 → addr_of ip s k ≢ 0 → addr_of ip' s' k ≡ addr_of ip s k
  pub filled : (m : ℕ) → 0 < n → off / bsize ≤ m → m * bsize < off + n → addr_of ip' s' (slot m) ≢ 0

copy-AreBytes :
    (m : Bytes) (d : ℕ) (from : Bytes) (s n : ℕ)
    → AreBytes m
    → AreBytes from
    → AreBytes (copy m d from s n)
copy-AreBytes m d from s n bm bf x = ground (arith, copy_lem m d from s n x, bm x, bf (s + (x - d)))

write_step :
    (fuel i : ℕ) (s : Fs) (src off rest a : ℕ) (s₁ : Fs) {ip₁ : Inode}
    → rest ≢ 0
    → bmap i (off / bsize) s ≡ some (a, s₁)
    → get_elem? s₁.icache i ≡ some ip₁
    → (write_block ip₁.dev a (copy (s₁.disk ip₁.dev a) (off % bsize) s₁.mem src (piece off rest)) s₁
        ≡ some (
          tt,
          put ip₁.dev a (copy (s₁.disk ip₁.dev a) (off % bsize) s₁.mem src (piece off rest)) s₁,
        ))
    → write_loop (suc fuel) i src off rest s
      ≡ write_loop fuel i
          (src + piece off rest)
          (off + piece off rest)
          (rest - piece off rest)
          (put ip₁.dev a (copy (s₁.disk ip₁.dev a) (off % bsize) s₁.mem src (piece off rest)) s₁)
unfolding write_loop
write_step fuel i s src off rest a s₁ more e at logs = ground arith

slot-eq : (m n : ℕ) → slot m ≡ slot n → m ≡ n
slot-eq m n e = ground arith

own_block :
    (ip : Inode) (s : Fs) (o a : ℕ)
    → addr_of ip s (slot (o / bsize)) ≡ a
    → a ≢ 0
    → content ip s o ≡ s.disk ip.dev a (o % bsize)
unfolding content
own_block ip s o a here there = ground (arith, ap (λ n. s.disk ip.dev n (o % bsize)) here)

-- One piece: the block of the offset is rewritten.
module _ (i : ℕ) (s : Fs) (ip : Inode) (src off n a : ℕ) (s₁ : Fs) (ip₁ : Inode)
    (ext : Extends i s ip s₁ ip₁) (here : addr_of ip₁ s₁ (slot (off / bsize)) ≡ a) (there : a ≢ 0)
    (in_block : off % bsize + n ≤ bsize) (fits : off + n ≤ max_size) (in_file : off < max_size)
    (bytes : AreBytes s.mem) where
  abbrev new_block : Bytes
  new_block = copy (s₁.disk ip₁.dev a) (off % bsize) s₁.mem src n

  mem₁ : AreBytes s₁.mem
  mem₁ = subst AreBytes (sym ext.memory) bytes

  new-AreBytes : AreBytes new_block
  new-AreBytes =
      copy-AreBytes (s₁.disk ip₁.dev a) (off % bsize) s₁.mem src n (ext.file.mounted.bytes a) mem₁

  is_slot : (slot (off / bsize) < 141) × (slot (off / bsize) ≢ 12)
  is_slot = ground arith

  piece-content :
      (o : ℕ)
      → o < max_size
      → content ip₁ (put ip₁.dev a new_block s₁) o ≡ stored (content ip s) s.mem src off n o
  piece-content o lt =
      let after =
        rewritten-content i s₁ ip₁ (slot (off / bsize)) a new_block ext.file is_slot.0 is_slot.1
          here there new-AreBytes o lt in
      elim (eq_or_ne (o / bsize) (off / bsize)) [
        | inl same ↦
            let block =
              own_block ip₁ s₁ o a (ap (λ m. addr_of ip₁ s₁ (slot m)) same ∙ here) there in
            let byte = copy_lem (s₁.disk ip₁.dev a) (off % bsize) s₁.mem src n (o % bsize) in
            let place : o % bsize - off % bsize ≡ o - off = omega arith in
            ground (
              arith,
              after,
              byte,
              block,
              ext.reads o lt,
              ap (λ m. m (src + (o - off))) ext.memory,
              ap (λ k. s₁.mem (src + k)) place,
              ap slot same,
            )
        | inr other ↦
            let apart : slot (o / bsize) ≢ slot (off / bsize) =
              λ e. other (slot-eq (o / bsize) (off / bsize) e) in
            ground (arith, after, ext.reads o lt)
      ]

  slots : (k : ℕ) → k < 141 → addr_of ip₁ (put ip₁.dev a new_block s₁) k ≡ addr_of ip₁ s₁ k
  slots =
      same_slots i s₁ ip₁ (slot (off / bsize)) a new_block ext.file is_slot.0 is_slot.1 here there
        new-AreBytes

  one_block : (m : ℕ) → off / bsize ≤ m → m * bsize < off + n → off / bsize ≡ m
  one_block m lo hi = omega arith

  piece-Stored : Stored i s ip src off n (put ip₁.dev a new_block s₁) ip₁
  piece-Stored = record {
    file =
        rewritten-IsFile i s₁ ip₁ (slot (off / bsize)) a new_block ext.file is_slot.0 is_slot.1 here
          there new-AreBytes;
    reads = piece-content;
    shape = ext.shape;
    same_sb = ext.same_sb;
    memory = ext.memory;
    keeps = λ k lt ne. slots k lt ∙ ext.keeps k lt ne;
    filled = λ m more lo hi z. there (
        sym here
        ∙ ap (λ t. addr_of ip₁ s₁ (slot t)) (one_block m lo hi)
        ∙ sym (slots (slot m) (ground arith))
        ∙ z);
  }

  piece-Missing :
      (rest : ℕ)
      → n ≤ rest
      → off + rest ≤ max_size
      → Missing ip₁ (put ip₁.dev a new_block s₁) (off + n) (rest - n)
      → Missing ip s off rest
  piece-Missing rest le fits' (k, lo, hi, missing) =
      Missing-later i s ip s₁ ip₁ off n rest le fits' ext
        (k, lo, hi, sym (slots (slot k) (ground arith)) ∙ missing)

stored-then :
    (file file' : ℕ → ℕ) (m m' : Bytes) (src off n rest o : ℕ)
    → n ≤ rest
    → m' ≡ m
    → file' o ≡ stored file m src off n o
    → stored file' m' (src + n) (off + n) (rest - n) o ≡ stored file m src off rest o
stored-then file file' m m' src off n rest o le same front =
    elim (Bool-cases (leb (off + n) o && ltb o (off + rest))) [
      | inl behind ↦
          let place : src + n + (o - (off + n)) ≡ src + (o - off) = ground arith in
          ground (arith, ap m' place, ap (λ t. t (src + (o - off))) same)
      | inr other ↦ ground (arith, front)
    ]

Stored-trans :
    (i : ℕ) (s : Fs) (ip : Inode) (src off n rest : ℕ) (s₁ : Fs) (ip₁ : Inode) (s₂ : Fs)
    (ip₂ : Inode)
    → 0 < n
    → n ≤ rest
    → off + rest ≤ max_size
    → Stored i s ip src off n s₁ ip₁
    → Stored i s₁ ip₁ (src + n) (off + n) (rest - n) s₂ ip₂
    → Stored i s ip src off rest s₂ ip₂
Stored-trans i s ip src off n rest s₁ ip₁ s₂ ip₂ pos_n le fits a b = record {
  file = b.file;
  reads = λ o lt.
      b.reads o lt
      ∙ stored-then (content ip s) (content ip₁ s₁) s.mem s₁.mem src off n rest o le a.memory
          (a.reads o lt);
  shape = b.shape ∙ ap (λ (t : Inode). with_addrs ip₂.addrs t) a.shape;
  same_sb = b.same_sb ∙ a.same_sb;
  memory = b.memory ∙ a.memory;
  keeps = λ k lt ne. b.keeps k lt (λ z. ne (sym (a.keeps k lt ne) ∙ z)) ∙ a.keeps k lt ne;
  filled = λ m more lo hi z. elim (Bool-cases (ltb (m * bsize) (off + n))) [
    | inl first ↦
        let there = a.filled m (ground arith) lo (ground arith) in
        there (sym (b.keeps (slot m) (ground arith) there) ∙ z)
    | inr second ↦ b.filled m (ground arith) (ground arith) (ground arith) z
  ];
}

Stored-nothing :
    (i : ℕ) (s : Fs) (ip : Inode) (src off : ℕ) → IsFile i s ip → Stored i s ip src off 0 s ip
Stored-nothing i s ip src off f = record {
  file = f;
  reads = λ o lt. ground arith;
  shape = refl;
  same_sb = refl;
  memory = refl;
  keeps = λ k lt ne. refl;
  filled = λ m more lo hi z. omega arith;
}

abbrev pub WrittenTo :
    (i : ℕ) (s : Fs) (ip : Inode) (src off rest : ℕ) → Option (Unit {0} × Fs) → Type 0
WrittenTo i s ip src off rest r =
    ((r ≡ none) × Missing ip s off rest)
    ⊎ ((s' : Fs) × (ip' : Inode) × (r ≡ some (tt, s')) × Stored i s ip src off rest s' ip')

pub write_loop_lem :
    (fuel i : ℕ) (s : Fs) (ip : Inode) (src off rest : ℕ)
    → IsFile i s ip
    → AreBytes s.mem
    → rest ≤ fuel
    → off + rest ≤ max_size
    → WrittenTo i s ip src off rest (write_loop fuel i src off rest s)
unfolding write_loop
write_loop_lem zero i s ip src off rest f bytes enough fits =
    let nothing : rest ≡ 0 = omega arith in
    inr (
      s,
      ip,
      refl,
      subst (λ n. Stored i s ip src off n s ip) (sym nothing) (Stored-nothing i s ip src off f),
    )
write_loop_lem (suc fuel) i s ip src off rest f bytes enough fits = elim (eq_or_ne rest 0) [
  | inl nothing ↦ inr (
    s,
    ip,
    ground arith,
    subst (λ n. Stored i s ip src off n s ip) (sym nothing) (Stored-nothing i s ip src off f),
  )
  | inr more ↦ elim (bmap_lem i s ip (off / bsize) f (omega arith)) [
    | inl (e, missing) ↦ inl (ground (arith, e), (off / bsize, omega arith, omega arith, missing))
    | inr (a, s₁, ip₁, e, there, here, ext) ↦
        let n : ℕ = piece off rest in
        let small = piece_lem off rest more in
        let s₂ : Fs = put ip₁.dev a (copy (s₁.disk ip₁.dev a) (off % bsize) s₁.mem src n) s₁ in
        let fits' : off + n ≤ max_size = omega (arith, small) in
        let in_file : off < max_size = omega arith in
        let d = piece-Stored i s ip src off n a s₁ ip₁ ext here there small.2 fits' in_file bytes in
        let step =
          write_step fuel i s src off rest a s₁ more e ext.file.at
            (write_block-put _ _ _ s₁ ext.file.mounted.logs) in
        elim (write_loop_lem fuel i s₂ ip₁ (src + n) (off + n) (rest - n) d.file
          (subst AreBytes (sym ext.memory) bytes) (omega (arith, small)) (omega (arith, small))) [
            | inl (e', miss) ↦ inl (
              step ∙ e',
              piece-Missing i s ip src off n a s₁ ip₁ ext here there small.2 fits' in_file bytes
                  rest small.1 fits miss,
            )
            | inr (s₃, ip₃, e', d') ↦ inr (
              s₃,
              ip₃,
              step ∙ e',
              Stored-trans i s ip src off n rest s₂ ip₁ s₃ ip₃ small.0 small.1 fits d d',
            )
          ]
  ]
]

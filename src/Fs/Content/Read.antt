-- ===== src/Fs/Content/Read.antt =====
-- readi of fs.c copies the bytes of the file, block by block.
use cpp.Prelude.{
  ℕ, zero, suc, ◌+◌, ◌-◌, ◌*◌, ◌/◌, ◌%◌, ◌^◌, ◌≤◌, ◌<◌, ◌≡◌, ◌≢◌, ◌⊎◌, refl, ap, ap₂, ◌∙◌, ltb, leb,
  ◌&&◌, if◌then◌else◌, arith, inl, inr, some, none, Option, get_elem?, trichotomy, Bool-cases,
}
use cpp.Prelude.Int.{pos}
use cpp.Strings.{Bytes, poke}
use cpp.Fs.{Inode, Fs, bsize}
use cpp.Fs.Content.{bmap, max_size, copy, piece, read_loop, readi, clip, Devsw, t_dev}
use cpp.Fs.Content.Slots.{addr_of, slot, content, IsMounted-core, IsFile}
use cpp.Fs.Content.Bmap.{eq_or_ne, Extends, Extends-refl, Extends-trans, still_missing, bmap_lem}

pub copy_lem :
    (m : Bytes) (d : ℕ) (from : Bytes) (s n x : ℕ)
    → copy m d from s n x ≡ (if leb d x && ltb x (d + n) then from (s + (x - d)) else m x)
unfolding copy
copy_lem m d from s zero x = ground arith
copy_lem m d from s (suc n) x =
    let rest = copy_lem (poke m d (from s)) (d + 1) from (s + 1) n x in
    elim (trichotomy x d) [
      | inl before ↦ ground (arith, rest)
      | inr (inl at) ↦
          let first : s + (x - d) ≡ s = omega arith in ground (arith, rest, ap from first)
      | inr (inr behind) ↦
          let place : s + 1 + (x - (d + 1)) ≡ s + (x - d) = omega arith in
          ground (arith, rest, ap from place)
    ]

abbrev pub with_mem : Bytes → Fs → Fs
with_mem m s = record s { mem = m }

IsFile-mem : (i : ℕ) (s : Fs) (ip : Inode) (m : Bytes) → IsFile i s ip → IsFile i (with_mem m s) ip
unfolding addr_of
IsFile-mem i s ip m f = record {
  at = f.at;
  mounted = IsMounted-core ip.dev s s.icache m f.mounted;
  all = f.all;
  held = f.held;
  distinct = f.distinct;
}

Extends-mem :
    (i : ℕ) (s : Fs) (ip : Inode) (s' : Fs) (ip' : Inode) (m : Bytes)
    → Extends i s ip s' ip'
    → Extends i (with_mem m s) ip (with_mem m s') ip'
unfolding addr_of content
Extends-mem i s ip s' ip' m e = record {
  file = IsFile-mem i s' ip' m e.file;
  reads = e.reads;
  keeps = e.keeps;
  shape = e.shape;
  same_sb = e.same_sb;
  memory = refl;
}

-- A block of the range is not there.
abbrev pub Missing : (ip : Inode) (s : Fs) (off rest : ℕ) → Type 0
Missing ip s off rest =
    (m : ℕ) × (off / bsize ≤ m) × (m * bsize < off + rest) × (addr_of ip s (slot m) ≡ 0)

-- The memory with `n` bytes of the file from `off` on at the address `dst`.
abbrev pub loaded : Bytes → (dst n : ℕ) → (ℕ → ℕ) → (off : ℕ) → Bytes
loaded m dst n file off x = if leb dst x && ltb x (dst + n) then file (off + (x - dst)) else m x

-- The bytes of a block are those of the file.
content_block :
    (ip : Inode) (s : Fs) (off q a : ℕ)
    → addr_of ip s (slot (off / bsize)) ≡ a
    → a ≢ 0
    → off % bsize + q < bsize
    → content ip s (off + q) ≡ s.disk ip.dev a (off % bsize + q)
unfolding content
content_block ip s off q a here there lt =
    let same : (off + q) / bsize ≡ off / bsize = omega arith in
    let place : (off + q) % bsize ≡ off % bsize + q = omega arith in
    let here' : addr_of ip s (slot ((off + q) / bsize)) ≡ a =
      ap (λ n. addr_of ip s (slot n)) same ∙ here in
    let byte : s.disk ip.dev (addr_of ip s (slot ((off + q) / bsize))) ((off + q) % bsize)
        ≡ s.disk ip.dev a (off % bsize + q) =
      ap₂ (λ n o. s.disk ip.dev n o) here' place in
    ground arith

abbrev ReadTo : (i : ℕ) (s : Fs) (ip : Inode) (dst off rest : ℕ) → Option (Unit {0} × Fs) → Type 0
ReadTo i s ip dst off rest r =
    ((r ≡ none) × Missing ip s off rest)
    ⊎ ((s' : Fs) × (ip' : Inode) × (r ≡ some (tt, s'))
        × Extends i (with_mem s'.mem s) ip s' ip'
        × ((x : ℕ) → s'.mem x ≡ loaded s.mem dst rest (content ip s) off x))

pub Missing-later :
    (i : ℕ) (s : Fs) (ip : Inode) (s₁ : Fs) (ip₁ : Inode) (off n rest : ℕ)
    → n ≤ rest
    → off + rest ≤ max_size
    → Extends i s ip s₁ ip₁
    → Missing ip₁ s₁ (off + n) (rest - n)
    → Missing ip s off rest
Missing-later i s ip s₁ ip₁ off n rest le fits ext (k, lo, hi, missing) =
    (k, omega arith, omega arith, still_missing i s ip s₁ ip₁ (slot k) (ground arith) ext missing)

read_step :
    (fuel i : ℕ) (s : Fs) (dst off rest a : ℕ) (s₁ : Fs) {ip₁ : Inode}
    → rest ≢ 0
    → bmap i (off / bsize) s ≡ some (a, s₁)
    → get_elem? s₁.icache i ≡ some ip₁
    → read_loop (suc fuel) i dst off rest s
      ≡ read_loop fuel i
          (dst + piece off rest)
          (off + piece off rest)
          (rest - piece off rest)
          (with_mem (copy s₁.mem dst (s₁.disk ip₁.dev a) (off % bsize) (piece off rest)) s₁)
unfolding read_loop
read_step fuel i s dst off rest a s₁ more e at = ground arith

pub piece_lem :
    (off rest : ℕ)
    → rest ≢ 0
    → (0 < piece off rest) × (piece off rest ≤ rest) × (off % bsize + piece off rest ≤ bsize)
piece_lem off rest more = ground arith

-- A piece in front of the rest.
loaded-then :
    (old m : Bytes) (dst n rest off : ℕ) (file file' : ℕ → ℕ) (x : ℕ)
    → n ≤ rest
    → off + rest ≤ max_size
    → ((o : ℕ) → o < max_size → file' o ≡ file o)
    → m x ≡ (if leb dst x && ltb x (dst + n) then file (off + (x - dst)) else old x)
    → loaded m (dst + n) (rest - n) file' (off + n) x ≡ loaded old dst rest file off x
loaded-then old m dst n rest off file file' x le fits same front =
    elim (Bool-cases (leb (dst + n) x && ltb x (dst + rest))) [
      | inl behind ↦
          let place : off + n + (x - (dst + n)) ≡ off + (x - dst) = ground arith in
          ground (arith, ap file' place, same (off + (x - dst)) (ground arith))
      | inr other ↦ ground (arith, front)
    ]

front_piece :
    (i : ℕ) (s : Fs) (ip : Inode) (s₁ : Fs) (ip₁ : Inode) (dst off n a x : ℕ)
    → Extends i s ip s₁ ip₁
    → addr_of ip₁ s₁ (slot (off / bsize)) ≡ a
    → a ≢ 0
    → off % bsize + n ≤ bsize
    → off + n ≤ max_size
    → copy s₁.mem dst (s₁.disk ip₁.dev a) (off % bsize) n x
      ≡ loaded s.mem dst n (content ip s) off x
front_piece i s ip s₁ ip₁ dst off n a x ext here there in_block fits =
    let bytes = copy_lem s₁.mem dst (s₁.disk ip₁.dev a) (off % bsize) n x in
    elim (Bool-cases (leb dst x && ltb x (dst + n))) [
      | inl inside ↦
          let byte = content_block ip₁ s₁ off (x - dst) a here there (ground arith) in
          ground (arith, bytes, byte, ext.reads (off + (x - dst)) (ground arith))
      | inr outside ↦ ground (arith, bytes, ap (λ m. m x) ext.memory)
    ]

read_loop_lem :
    (fuel i : ℕ) (s : Fs) (ip : Inode) (dst off rest : ℕ)
    → IsFile i s ip
    → rest ≤ fuel
    → off + rest ≤ max_size
    → ReadTo i s ip dst off rest (read_loop fuel i dst off rest s)
unfolding read_loop addr_of content
read_loop_lem zero i s ip dst off rest f enough fits =
    inr (s, ip, refl, Extends-refl i s ip f, λ x. ground arith)
read_loop_lem (suc fuel) i s ip dst off rest f enough fits = elim (eq_or_ne rest 0) [
  | inl nothing ↦ inr (s, ip, ground arith, Extends-refl i s ip f, λ x. ground arith)
  | inr more ↦ elim (bmap_lem i s ip (off / bsize) f (omega arith)) [
    | inl (e, missing) ↦ inl (ground (arith, e), (off / bsize, omega arith, omega arith, missing))
    | inr (a, s₁, ip₁, e, there, here, ext) ↦
        let n : ℕ = piece off rest in
        let small = piece_lem off rest more in
        let m : Bytes = copy s₁.mem dst (s₁.disk ip₁.dev a) (off % bsize) n in
        let ext' = Extends-mem i s ip s₁ ip₁ m ext in
        let step = read_step fuel i s dst off rest a s₁ more e ext.file.at in
        elim (read_loop_lem fuel i (with_mem m s₁) ip₁ (dst + n) (off + n) (rest - n) ext'.file
          (omega (arith, small)) (omega (arith, small))) [
            | inl (e', miss) ↦
                inl (step ∙ e', Missing-later i s ip s₁ ip₁ off n rest small.1 fits ext miss)
            | inr (s₂, ip₂, e', ext₂, bytes) ↦ inr (
              s₂,
              ip₂,
              step ∙ e',
              Extends-trans i (with_mem s₂.mem s) ip (with_mem s₂.mem s₁) ip₁ s₂ ip₂
                  (Extends-mem i s ip s₁ ip₁ s₂.mem ext) ext₂,
              λ x.
                  bytes x
                  ∙ loaded-then s.mem m dst n rest off (content ip s) (content ip₁ s₁) x small.1
                      fits ext.reads
                      (front_piece i s ip s₁ ip₁ dst off n a x ext here there small.2
                        (omega (arith, small))),
            )
          ]
  ]
]

-- readi of a file whose blocks are blocks of data in use, one for each slot, from an offset that is
-- not behind its end: it copies the bytes of the file from the offset on to the memory, `n` or as
-- many as there are, and returns their number; no other byte of the memory changes, and the file
-- reads as before. It panics only where a block of the range is not there.
pub readi_lem :
    (d : Devsw) (i : ℕ) (s : Fs) (ip : Inode) (dst off n : ℕ)
    → IsFile i s ip
    → ip.type ≢ t_dev
    → ip.size ≤ max_size
    → off ≤ ip.size
    → off + n < 2 ^ 32
    → ((readi d i dst off n s ≡ none) × Missing ip s off (clip ip.size off n))
      ⊎ ((s' : Fs) × (ip' : Inode) × (readi d i dst off n s ≡ some (pos (clip ip.size off n), s'))
          × Extends i (with_mem s'.mem s) ip s' ip'
          × ((x : ℕ) → s'.mem x ≡ loaded s.mem dst (clip ip.size off n) (content ip s) off x))
unfolding readi
readi_lem d i s ip dst off n f file short before range =
    elim (read_loop_lem (clip ip.size off n) i s ip dst off (clip ip.size off n) f (omega arith)
      (ground arith)) [
        | inl (e, miss) ↦ inl (ground (arith, e, f.at), miss)
        | inr (s', ip', e, ext, bytes) ↦ inr (s', ip', ground (arith, e, f.at), ext, bytes)
      ]

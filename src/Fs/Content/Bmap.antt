-- ===== src/Fs/Content/Bmap.antt =====
-- bmap of fs.c gives a file the blocks that it does not have yet, and changes nothing that is read.
use cpp.Prelude.{
  ℕ, ◌+◌, ◌-◌, ◌*◌, ◌/◌, ◌%◌, ◌≤◌, ◌<◌, ◌≡◌, ◌≢◌, ◌⊎◌, refl, sym, ap, ap₂, subst, ◌∙◌, ltb, ◌==◌,
  if◌then◌else◌, List, get_or, arith, inl, inr, some, none, Option, modify_at, Bool-cases,
}
use cpp.Kalloc.{load, store}
use cpp.Fs.{balloc, write_block, Inode, Fs, bsize}
use cpp.Fs.Balloc.{balloc_lem}
use cpp.Fs.Content.{set_addr, own_addr, indirect_addr, bmap, max_size}
use cpp.Fs.Content.Slots.{write_block-put, put, addr_of, slot, content, IsFile, Added}
use cpp.Fs.Content.Own.{own_Added}
use cpp.Fs.Content.Entry.{entry_Added}

-- The file reads as before: only blocks that were not there are added.
pub record Extends (i : ℕ) (s : Fs) (ip : Inode) (s' : Fs) (ip' : Inode) : Type 0 where
  pub file : IsFile i s' ip'
  pub reads : (o : ℕ) → o < max_size → content ip' s' o ≡ content ip s o
  pub keeps : (k : ℕ) → k < 141 → addr_of ip s k ≢ 0 → addr_of ip' s' k ≡ addr_of ip s k
  pub shape : ip' ≡ record ip { addrs = ip'.addrs }
  pub same_sb : s'.sb ≡ s.sb
  pub memory : s'.mem ≡ s.mem

pub eq_or_ne : (a b : ℕ) → (a ≡ b) ⊎ (a ≢ b)
eq_or_ne a b = ground arith

pub Extends-refl : (i : ℕ) (s : Fs) (ip : Inode) → IsFile i s ip → Extends i s ip s ip
Extends-refl i s ip f = record {
  file = f;
  reads = λ o lt. refl;
  keeps = λ k lt ne. refl;
  shape = refl;
  same_sb = refl;
  memory = refl;
}

abbrev pub with_addrs : List ℕ → Inode → Inode
with_addrs as_new ip = record ip { addrs = as_new }

pub Extends-trans :
    (i : ℕ) (s : Fs) (ip : Inode) (s₁ : Fs) (ip₁ : Inode) (s₂ : Fs) (ip₂ : Inode)
    → Extends i s ip s₁ ip₁
    → Extends i s₁ ip₁ s₂ ip₂
    → Extends i s ip s₂ ip₂
Extends-trans i s ip s₁ ip₁ s₂ ip₂ e₁ e₂ = record {
  file = e₂.file;
  reads = λ o lt. e₂.reads o lt ∙ e₁.reads o lt;
  keeps = λ k lt ne. e₂.keeps k lt (λ z. ne (sym (e₁.keeps k lt ne) ∙ z)) ∙ e₁.keeps k lt ne;
  shape = e₂.shape ∙ ap (λ (t : Inode). with_addrs ip₂.addrs t) e₁.shape;
  same_sb = e₂.same_sb ∙ e₁.same_sb;
  memory = e₂.memory ∙ e₁.memory;
}

Added-Extends :
    (i : ℕ) (s : Fs) (ip : Inode) (k a : ℕ) (s' : Fs) (ip' : Inode)
    → addr_of ip s k ≡ 0
    → Added i s ip k a s' ip'
    → Extends i s ip s' ip'
unfolding content
Added-Extends i s ip k a s' ip' missing d = record {
  file = d.file;
  reads = reads;
  keeps = λ m lt ne. d.others m lt (λ e. ne (ap (addr_of ip s) e ∙ missing));
  shape = d.shape;
  same_sb = d.same_sb;
  memory = d.memory;
}
  where
    dev : ip'.dev ≡ ip.dev
    dev = ap (λ t. t.dev) d.shape

    block_lem :
        (m o : ℕ)
        → m < 141
        → m ≢ 12
        → o < bsize
        → (if addr_of ip' s' m == 0 then 0 else s'.disk ip'.dev (addr_of ip' s' m) o)
          ≡ (if addr_of ip s m == 0 then 0 else s.disk ip.dev (addr_of ip s m) o)
    block_lem m o lt ne in_block = elim (eq_or_ne m k) [
      | inl same ↦
          let new : addr_of ip' s' m ≡ a = ap (addr_of ip' s') same ∙ d.here in
          let old : addr_of ip s m ≡ 0 = ap (addr_of ip s) same ∙ missing in
          let zeros : s'.disk ip'.dev (addr_of ip' s' m) o ≡ 0 =
            ap₂ (λ v n. s'.disk v n o) dev new ∙ d.zeroed o in_block in
          ground arith
      | inr other ↦
          let now : addr_of ip' s' m ≡ addr_of ip s m = d.others m lt other in
          elim (eq_or_ne (addr_of ip s m) 0) [
            | inl hole ↦ ground arith
            | inr there ↦
                let same : s'.disk ip'.dev (addr_of ip' s' m) o ≡ s.disk ip.dev (addr_of ip s m) o =
                  ap₂ (λ v n. s'.disk v n o) dev now ∙ d.kept m o lt ne there in
                ground arith
          ]
    ]

    reads : (o : ℕ) → o < max_size → content ip' s' o ≡ content ip s o
    reads o lt =
        let le : (slot (o / bsize) < 141) × (slot (o / bsize) ≢ 12) = ground arith in
        block_lem (slot (o / bsize)) (o % bsize) le.0 le.1 (omega arith)

-- What a step that finds or makes the block of a slot gives.
abbrev Gives : (i : ℕ) (s : Fs) (ip : Inode) (k : ℕ) → Option (ℕ × Fs) → Type 0
Gives i s ip k r =
    ((r ≡ none) × (addr_of ip s k ≡ 0))
    ⊎ ((a : ℕ) × (s' : Fs) × (ip' : Inode) × (r ≡ some (a, s'))
        × (a ≢ 0)
        × (addr_of ip' s' k ≡ a)
        × Extends i s ip s' ip')

own_addr_lem :
    (i : ℕ) (s : Fs) (ip : Inode) (k : ℕ) → IsFile i s ip → k ≤ 12 → Gives i s ip k (own_addr i k s)
unfolding own_addr addr_of
own_addr_lem i s ip k f low = elim (eq_or_ne (get_or ip.addrs k 0) 0) [
  | inr there ↦
      inr (
        get_or ip.addrs k 0,
        s,
        ip,
        ground (arith, f.at),
        there,
        ground arith,
        Extends-refl i s ip f,
      )
  | inl missing ↦ elim (balloc_lem ip.dev s f.mounted) [
    | inl (e, all) ↦ inl (ground (arith, f.at), ground arith)
    | inr (a, s₁, e, first, moved, cleared) ↦
        let d = own_Added i s ip k f low missing a s₁ first moved cleared in
        inr (
          a,
          record s₁ { icache = modify_at (set_addr k a) s₁.icache i },
          set_addr k a ip,
          ground (arith, f.at, e),
          d.there,
          d.here,
          Added-Extends i s ip k a _ _ (ground arith) d,
        )
  ]
]

indirect_addr-takes :
    (dev p j : ℕ) (s : Fs) (a : ℕ) (s₁ : Fs)
    → load (s.disk dev p) (4 * j) ≡ 0
    → balloc dev s ≡ some (a, s₁)
    → write_block dev p (store (s₁.disk dev p) (4 * j) a) s₁
      ≡ some (tt, put dev p (store (s₁.disk dev p) (4 * j) a) s₁)
    → indirect_addr dev p j s ≡ some (a, put dev p (store (s₁.disk dev p) (4 * j) a) s₁)
unfolding indirect_addr
indirect_addr-takes dev p j s a s₁ missing e logs = ground arith

indirect_addr_lem :
    (i : ℕ) (s : Fs) (ip : Inode) (j p : ℕ)
    → IsFile i s ip
    → addr_of ip s 12 ≡ p
    → p ≢ 0
    → j < 128
    → Gives i s ip (13 + j) (indirect_addr ip.dev p j s)
unfolding indirect_addr addr_of
indirect_addr_lem i s ip j p f pointer there low =
    let place : 4 * (13 + j - 13) ≡ 4 * j = omega arith in
    let is_p : get_or ip.addrs 12 0 ≡ p = pointer in
    let word : addr_of ip s (13 + j) ≡ load (s.disk ip.dev p) (4 * j) =
      ground (arith, ap₂ (λ q o. load (s.disk ip.dev q) o) is_p place) in
    elim (eq_or_ne (load (s.disk ip.dev p) (4 * j)) 0) [
      | inr entry ↦
          inr (
            load (s.disk ip.dev p) (4 * j),
            s,
            ip,
            ground arith,
            entry,
            word,
            Extends-refl i s ip f,
          )
      | inl missing ↦ elim (balloc_lem ip.dev s f.mounted) [
        | inl (e, all) ↦ inl (ground (arith, e), word ∙ missing)
        | inr (a, s₁, e, first, moved, cleared) ↦
            let d = entry_Added i s ip j f p pointer there low a s₁ first moved cleared in
            inr (
              a,
              put ip.dev p (store (s₁.disk ip.dev p) (4 * j) a) s₁,
              ip,
              indirect_addr-takes ip.dev p j s a s₁ missing e
                  (write_block-put _ _ _ s₁ moved.mounted.logs),
              d.there,
              d.here,
              Added-Extends i s ip (13 + j) a _ _ (word ∙ missing) d,
            )
      ]
    ]

far_slot :
    (ip : Inode) (s : Fs) (bn : ℕ) → 12 ≤ bn → addr_of ip s 12 ≡ 0 → addr_of ip s (slot bn) ≡ 0
unfolding addr_of
far_slot ip s bn far none_yet = ground arith

pub still_missing :
    (i : ℕ) (s : Fs) (ip : Inode) (s' : Fs) (ip' : Inode) (k : ℕ)
    → k < 141
    → Extends i s ip s' ip'
    → addr_of ip' s' k ≡ 0
    → addr_of ip s k ≡ 0
still_missing i s ip s' ip' k lt e missing = elim (eq_or_ne (addr_of ip s k) 0) [
  | inl z ↦ z
  | inr there ↦ sym (e.keeps k lt there) ∙ missing
]

-- bmap of a block that a file can have gives the block that the file then has there; blocks of data
-- in use, one for each slot, are those of the file afterwards too, and the file reads as before. It
-- panics only where the file does not have the block yet.
pub bmap_lem :
    (i : ℕ) (s : Fs) (ip : Inode) (bn : ℕ)
    → IsFile i s ip
    → bn < 140
    → ((bmap i bn s ≡ none) × (addr_of ip s (slot bn) ≡ 0))
      ⊎ ((a : ℕ) × (s' : Fs) × (ip' : Inode) × (bmap i bn s ≡ some (a, s'))
          × (a ≢ 0)
          × (addr_of ip' s' (slot bn) ≡ a)
          × Extends i s ip s' ip')
unfolding bmap
bmap_lem i s ip bn f lt = elim (Bool-cases (ltb bn 12)) [
  | inl direct ↦
      let is_slot : slot bn ≡ bn = ground arith in
      subst (Gives i s ip (slot bn)) (sym (ground arith)) (
        subst (λ k. Gives i s ip k (own_addr i bn s)) (sym is_slot)
          (own_addr_lem i s ip bn f (ground arith)))
  | inr far ↦ elim (own_addr_lem i s ip 12 f (omega arith)) [
    | inl (e, missing) ↦ inl (ground (arith, e), far_slot ip s bn (ground arith) missing)
    | inr (p, s₁, ip₁, e, there, pointer, ext) ↦
        let is_slot : 13 + (bn - 12) ≡ slot bn = ground arith in
        elim (indirect_addr_lem i s₁ ip₁ (bn - 12) p ext.file pointer there (ground arith)) [
          | inl (e', missing) ↦ inl (
            ground (arith, e, e', ext.file.at),
            still_missing i s ip s₁ ip₁ (slot bn) (ground arith) ext
                (ap (addr_of ip₁ s₁) (sym is_slot) ∙ missing),
          )
          | inr (a, s₂, ip₂, e', there', here', ext') ↦ inr (
            a,
            s₂,
            ip₂,
            ground (arith, e, e', ext.file.at),
            there',
            ap (addr_of ip₂ s₂) (sym is_slot) ∙ here',
            Extends-trans i s ip s₁ ip₁ s₂ ip₂ ext ext',
          )
        ]
  ]
]

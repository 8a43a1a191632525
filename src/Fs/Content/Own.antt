-- ===== src/Fs/Content/Own.antt =====
-- bmap of fs.c where a direct block, or the indirect block, is not there yet.
use cpp.Prelude.{
  ℕ, ◌+◌, ◌-◌, ◌*◌, ◌≤◌, ◌<◌, ◌≡◌, ◌≢◌, refl, ap, subst, ◌∙◌, false, leb, ◌==◌, get_or, set,
  get_or-set_self, get_or-set_ne, length-set, arith, inl, inr, get_elem?, modify_at,
  get_elem?-modify_at_self, trichotomy, Bool-cases,
}
use cpp.Strings.{Bytes}
use cpp.Kalloc.{load}
use cpp.Fs.{Inode, Fs, bsize}
use cpp.Fs.Mounted.{is_free, last_meta, IsMounted, IsFirst, IsFirst-data, Moved}
use cpp.Fs.Content.{set_addr}
use cpp.Fs.Content.Slots.{IsMounted-core, addr_of, IsFile, Added}
use cpp.Fs.Content.Fresh.{Added_lem}

-- A block in use stays where another one is taken.
module _ (dev : ℕ) (s : Fs) (a : ℕ) (s₁ : Fs) (m : IsMounted dev s) (first : IsFirst dev s a)
    (moved : Moved dev s a false s₁) where
  pub kept_block :
      (x : ℕ) → last_meta s.sb < x → is_free dev s x ≡ false → s₁.disk dev x ≡ s.disk dev x
  kept_block x above used =
      moved.frame x (λ e. ground (arith, first.clear, ap (is_free dev s) e))
        (λ e. omega (arith, first.in_size, IsFirst-data dev s a m first.clear))

pub load-zero : (b : Bytes) (o : ℕ) → ((j : ℕ) → j < 4 → b (o + j) ≡ 0) → load b o ≡ 0
unfolding load
load-zero b o zeros =
    let at : o + 0 ≡ o = omega arith in
    omega (
      arith,
      subst (λ p. b p ≡ 0) at (zeros 0 (omega arith)),
      zeros 1 (omega arith),
      zeros 2 (omega arith),
      zeros 3 (omega arith),
    )

-- balloc for a direct slot, or for the indirect block.
module _ (i : ℕ) (s : Fs) (ip : Inode) (k : ℕ) (f : IsFile i s ip) (low : k ≤ 12)
    (missing : get_or ip.addrs k 0 ≡ 0) (a : ℕ) (s₁ : Fs) (first : IsFirst ip.dev s a)
    (moved : Moved ip.dev s a false s₁)
    (cleared : (o : ℕ) → o < bsize → s₁.disk ip.dev a o ≡ 0) where
  abbrev pub owned : Fs
  owned = record s₁ { icache = modify_at (set_addr k a) s₁.icache i }

  abbrev pub with_addr : Inode
  with_addr = set_addr k a ip

  slot_here : addr_of with_addr owned k ≡ a
  unfolding addr_of
  slot_here = ground (arith, get_or-set_self ip.addrs k a 0 (omega (arith, f.all)))

  -- The entries of the indirect block, where it is there, stay.
  kept_slots :
      (m o : ℕ)
      → m < 141
      → addr_of ip s m ≢ 0
      → s₁.disk ip.dev (addr_of ip s m) o ≡ s.disk ip.dev (addr_of ip s m) o
  kept_slots m o lt ne =
      let (above, below, used) = f.held m lt ne in
      ap (λ t. t o) (kept_block ip.dev s a s₁ f.mounted first moved (addr_of ip s m) above used)

  slot_others : (m : ℕ) → m < 141 → m ≢ k → addr_of with_addr owned m ≡ addr_of ip s m
  unfolding addr_of
  slot_others m lt ne = elim (trichotomy k 12) [
    | inl before ↦
        let pointer : get_or (set ip.addrs k a) 12 0 ≡ get_or ip.addrs 12 0 =
          get_or-set_ne ip.addrs k 12 a 0 (omega arith) in
        elim (Bool-cases (leb m 12)) [
          | inl direct ↦ ground (arith, get_or-set_ne ip.addrs k m a 0 (omega arith))
          | inr far ↦ elim (Bool-cases (get_or ip.addrs 12 0 == 0)) [
            | inl zero_pointer ↦ ground arith
            | inr there ↦
                let (above, below, used) = f.held 12 (omega arith) (ground arith) in
                let same : s₁.disk ip.dev (get_or ip.addrs 12 0)
                    ≡ s.disk ip.dev (get_or ip.addrs 12 0) =
                  kept_block ip.dev s a s₁ f.mounted first moved (get_or ip.addrs 12 0) above
                    used in
                let word : load (s₁.disk ip.dev (get_or (set ip.addrs k a) 12 0)) (4 * (m - 13))
                    ≡ load (s.disk ip.dev (get_or ip.addrs 12 0)) (4 * (m - 13)) =
                  ap (λ b. load b (4 * (m - 13))) (ap (s₁.disk ip.dev) pointer ∙ same) in
                ground arith
          ]
        ]
    | inr (inl at) ↦
        let none_yet : get_or ip.addrs 12 0 ≡ 0 = subst (λ n. get_or ip.addrs n 0 ≡ 0) at missing in
        let pointer : get_or (set ip.addrs k a) 12 0 ≡ a =
          subst (λ n. get_or (set ip.addrs k a) n 0 ≡ a) at
            (get_or-set_self ip.addrs k a 0 (omega (arith, f.all))) in
        elim (Bool-cases (leb m 12)) [
          | inl direct ↦ ground (arith, get_or-set_ne ip.addrs k m a 0 (omega arith))
          | inr far ↦
              let word : load (s₁.disk ip.dev (get_or (set ip.addrs k a) 12 0)) (4 * (m - 13)) ≡ 0 =
                ap (λ p. load (s₁.disk ip.dev p) (4 * (m - 13))) pointer
                ∙ load-zero (s₁.disk ip.dev a) (4 * (m - 13))
                    (λ j le. cleared (4 * (m - 13) + j) (ground arith)) in
              ground arith
        ]
    | inr (inr after) ↦ absurd (omega arith)
  ]

  pub own_Added : Added i s ip k a owned with_addr
  own_Added =
      Added_lem i s ip k a owned with_addr f first (omega arith)
        (get_elem?-modify_at_self (set_addr k a) s₁.icache i
          (ap (λ t. get_elem? t i) moved.cache ∙ f.at))
        (IsMounted-core ip.dev s₁ (modify_at (set_addr k a) s₁.icache i) s₁.mem moved.mounted)
        (length-set ip.addrs k a ∙ f.all) moved.same_sb moved.memory refl moved.bits slot_here
        slot_others cleared (λ m o lt ne. kept_slots m o lt)

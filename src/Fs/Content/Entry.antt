-- ===== src/Fs/Content/Entry.antt =====
-- bmap of fs.c where an entry of the indirect block is not there yet.
use cpp.Prelude.{
  ℕ, ◌+◌, ◌-◌, ◌*◌, ◌<◌, ◌≡◌, ◌≢◌, refl, sym, ap, ap₂, subst, ◌∙◌, false, leb, ◌==◌, if◌then◌else◌,
  get_or, arith, inl, inr, get_elem?, Bool-cases,
}
use cpp.Strings.{Bytes}
use cpp.Kalloc.{load, store}
use cpp.Fs.{Inode, Fs, bsize}
use cpp.Fs.Bitmap.{AreBytes}
use cpp.Fs.Mounted.{is_free, last_meta, IsMounted, IsFirst, Moved}
use cpp.Fs.Content.Slots.{put, IsMounted-put, is_free-put, addr_of, IsFile, Added}
use cpp.Fs.Content.Fresh.{Added_lem}
use cpp.Fs.Content.Own.{kept_block}
use cpp.Fs.Icache.Dinode.{load-store, store-frame, load-ext}

pub store-AreBytes : (b : Bytes) (o w : ℕ) → AreBytes b → AreBytes (store b o w)
unfolding store
store-AreBytes b o w v i = ground (arith, v i)

module _ (i : ℕ) (s : Fs) (ip : Inode) (j : ℕ) (f : IsFile i s ip) (p : ℕ)
    (pointer : addr_of ip s 12 ≡ p) (there : p ≢ 0) (low : j < 128) (a : ℕ) (s₁ : Fs)
    (first : IsFirst ip.dev s a) (moved : Moved ip.dev s a false s₁)
    (cleared : (o : ℕ) → o < bsize → s₁.disk ip.dev a o ≡ 0) where
  abbrev pub entered : Fs
  entered = put ip.dev p (store (s₁.disk ip.dev p) (4 * j) a) s₁

  indirect_held : (last_meta s.sb < p) × (p < s.sb.size) × (is_free ip.dev s p ≡ false)
  indirect_held =
      subst (λ x. (last_meta s.sb < x) × (x < s.sb.size) × (is_free ip.dev s x ≡ false)) pointer
        (f.held 12 (omega arith) (λ z. there (sym pointer ∙ z)))

  same_indirect : s₁.disk ip.dev p ≡ s.disk ip.dev p
  same_indirect = kept_block ip.dev s a s₁ f.mounted first moved p indirect_held.0 indirect_held.2

  not_taken : p ≢ a
  not_taken e = ground (arith, first.clear, ap (is_free ip.dev s) e, indirect_held.2)

  above₁ : last_meta s₁.sb < p
  above₁ = subst (λ t. last_meta t < p) (sym moved.same_sb) indirect_held.0

  far_from_super : p ≢ 1
  far_from_super = omega (arith, f.mounted.behind, indirect_held.0)

  entered-IsMounted : IsMounted ip.dev entered
  entered-IsMounted =
      IsMounted-put ip.dev p (store (s₁.disk ip.dev p) (4 * j) a) s₁ moved.mounted far_from_super
        (inr above₁) (store-AreBytes (s₁.disk ip.dev p) (4 * j) a (moved.mounted.bytes p))

  entered-bits :
      (x : ℕ)
      → x < s.sb.size
      → is_free ip.dev entered x ≡ (if x == a then false else is_free ip.dev s x)
  entered-bits x lt =
      is_free-put ip.dev p (store (s₁.disk ip.dev p) (4 * j) a) s₁ moved.mounted far_from_super
        (inr above₁) x (subst (λ t. x < t.size) (sym moved.same_sb) lt)
      ∙ moved.bits x lt

  written : entered.disk ip.dev p ≡ store (s₁.disk ip.dev p) (4 * j) a
  written = ground arith

  entry_here : addr_of ip entered (13 + j) ≡ a
  unfolding addr_of
  entry_here =
      let place : 4 * (13 + j - 13) ≡ 4 * j = omega arith in
      let is_p : get_or ip.addrs 12 0 ≡ p = pointer in
      let word : load (entered.disk ip.dev (get_or ip.addrs 12 0)) (4 * (13 + j - 13)) ≡ a =
        ap₂ (λ b o. load b o) (ap (entered.disk ip.dev) is_p ∙ written) place
        ∙ load-store (s₁.disk ip.dev p) (4 * j) a (omega (arith, first.in_size, f.mounted.small)) in
      ground arith

  entry_others : (m : ℕ) → m < 141 → m ≢ 13 + j → addr_of ip entered m ≡ addr_of ip s m
  unfolding addr_of
  entry_others m lt ne = elim (Bool-cases (leb m 12)) [
    | inl direct ↦ ground arith
    | inr far ↦
        let is_p : get_or ip.addrs 12 0 ≡ p = pointer in
        let o : ℕ = 4 * (m - 13) in
        let word : load (entered.disk ip.dev (get_or ip.addrs 12 0)) o
            ≡ load (s.disk ip.dev (get_or ip.addrs 12 0)) o =
          ap (λ b. load b o) (ap (entered.disk ip.dev) is_p ∙ written)
          ∙ load-ext (store (s₁.disk ip.dev p) (4 * j) a) (s₁.disk ip.dev p) o
              (λ q le. store-frame (s₁.disk ip.dev p) (4 * j) a (o + q) (ground arith))
          ∙ ap (λ b. load b o) (same_indirect ∙ ap (s.disk ip.dev) (sym is_p)) in
        ground arith
  ]

  entered-zero : (o : ℕ) → o < bsize → entered.disk ip.dev a o ≡ 0
  entered-zero o lt =
      let same : entered.disk ip.dev a ≡ s₁.disk ip.dev a =
        ground (arith, λ (e : p ≡ a). not_taken e) in
      ap (λ b. b o) same ∙ cleared o lt

  entered-kept :
      (m o : ℕ)
      → m < 141
      → m ≢ 12
      → addr_of ip s m ≢ 0
      → entered.disk ip.dev (addr_of ip s m) o ≡ s.disk ip.dev (addr_of ip s m) o
  entered-kept m o lt ne nz =
      let (above, below, used) = f.held m lt nz in
      let other : addr_of ip s m ≢ p =
        λ e. f.distinct m 12 lt (omega arith) ne nz (e ∙ sym pointer) in
      let same : entered.disk ip.dev (addr_of ip s m) ≡ s₁.disk ip.dev (addr_of ip s m) =
        ground (arith, λ (e : addr_of ip s m ≡ p). other e) in
      ap (λ b. b o)
        (same ∙ kept_block ip.dev s a s₁ f.mounted first moved (addr_of ip s m) above used)

  pub entry_Added : Added i s ip (13 + j) a entered ip
  entry_Added =
      Added_lem i s ip (13 + j) a entered ip f first (omega arith)
        (ap (λ t. get_elem? t i) moved.cache ∙ f.at) entered-IsMounted f.all moved.same_sb
        moved.memory refl entered-bits entry_here entry_others entered-zero entered-kept

-- ===== src/Fs/Content/Fresh.antt =====
-- A file of fs.c gets a block that was free: what every case of bmap has in common.
use cpp.Prelude.{
  ℕ, ◌<◌, ◌≡◌, ◌≢◌, ◌⊎◌, refl, sym, ap, subst, ◌∙◌, false, ◌==◌, if◌then◌else◌, length, arith, inl,
  inr, some, get_elem?, trichotomy,
}
use cpp.Fs.{Inode, Fs, bsize}
use cpp.Fs.Mounted.{is_free, last_meta, IsMounted, IsFirst, IsFirst-data}
use cpp.Fs.Content.Slots.{addr_of, IsFile, Added}

-- A slot that had no block gets one that was free.
module _ (i : ℕ) (s : Fs) (ip : Inode) (k a : ℕ) (s' : Fs) (ip' : Inode) (f : IsFile i s ip)
    (first : IsFirst ip.dev s a) (lt : k < 141) (at : get_elem? s'.icache i ≡ some ip')
    (mounted : IsMounted ip'.dev s') (all : length ip'.addrs ≡ 13) (same_sb : s'.sb ≡ s.sb)
    (memory : s'.mem ≡ s.mem) (shape : ip' ≡ record ip { addrs = ip'.addrs })
    (bits : (x : ℕ)
      → x < s.sb.size
      → is_free ip'.dev s' x ≡ (if x == a then false else is_free ip.dev s x))
    (here : addr_of ip' s' k ≡ a)
    (others : (m : ℕ) → m < 141 → m ≢ k → addr_of ip' s' m ≡ addr_of ip s m) where
  data_block : last_meta s.sb < a
  data_block = IsFirst-data ip.dev s a f.mounted first.clear

  fresh : (m : ℕ) → m < 141 → addr_of ip s m ≢ a
  fresh m le e =
      let used = f.held m le (λ z. omega (arith, data_block)) in
      ground (arith, first.clear, ap (is_free ip.dev s) e)

  held_lem :
      (x : ℕ)
      → last_meta s.sb < x
      → x < s.sb.size
      → (x ≡ a) ⊎ (is_free ip.dev s x ≡ false)
      → (last_meta s'.sb < x) × (x < s'.sb.size) × (is_free ip'.dev s' x ≡ false)
  held_lem x above below used = (
    subst (λ t. last_meta t < x) (sym same_sb) above,
    subst (λ t. x < t.size) (sym same_sb) below,
    ground (arith, bits x below),
  )

  held' :
      (m : ℕ)
      → m < 141
      → addr_of ip' s' m ≢ 0
      → (last_meta s'.sb < addr_of ip' s' m)
        × (addr_of ip' s' m < s'.sb.size)
        × (is_free ip'.dev s' (addr_of ip' s' m) ≡ false)
  held' m le ne = elim (trichotomy m k) [
    | inl before ↦ old (omega arith)
    | inr (inl same) ↦
        subst (λ x. (last_meta s'.sb < x) × (x < s'.sb.size) × (is_free ip'.dev s' x ≡ false))
          (sym (ap (addr_of ip' s') same ∙ here)) (held_lem a data_block first.in_size (inl refl))
    | inr (inr behind) ↦ old (omega arith)
  ]
    where
      old :
          m ≢ k
          → (last_meta s'.sb < addr_of ip' s' m)
            × (addr_of ip' s' m < s'.sb.size)
            × (is_free ip'.dev s' (addr_of ip' s' m) ≡ false)
      old other =
          let e : addr_of ip' s' m ≡ addr_of ip s m = others m le other in
          let (p, q, r) = f.held m le (λ z. ne (e ∙ z)) in
          subst (λ x. (last_meta s'.sb < x) × (x < s'.sb.size) × (is_free ip'.dev s' x ≡ false))
            (sym e) (held_lem (addr_of ip s m) p q (inr r))

  distinct' :
      (m n : ℕ)
      → m < 141
      → n < 141
      → m ≢ n
      → addr_of ip' s' m ≢ 0
      → addr_of ip' s' m ≢ addr_of ip' s' n
  distinct' m n lm ln ne nz e = elim (trichotomy m k) [
    | inl before ↦ first_old (omega arith)
    | inr (inl same) ↦
        fresh n ln (sym (others n ln (omega arith)) ∙ sym e ∙ ap (addr_of ip' s') same ∙ here)
    | inr (inr behind) ↦ first_old (omega arith)
  ]
    where
      first_old : m ≢ k → ⊥
      first_old other = elim (trichotomy n k) [
        | inl before ↦ both (omega arith)
        | inr (inl same) ↦
            fresh m lm (sym (others m lm other) ∙ e ∙ ap (addr_of ip' s') same ∙ here)
        | inr (inr behind) ↦ both (omega arith)
      ]
        where
          both : n ≢ k → ⊥
          both other' =
              f.distinct m n lm ln ne (λ z. nz (others m lm other ∙ z))
                (sym (others m lm other) ∙ e ∙ others n ln other')

  pub Added_lem :
      ((o : ℕ) → o < bsize → s'.disk ip.dev a o ≡ 0)
      → ((m o : ℕ)
          → m < 141
          → m ≢ 12
          → addr_of ip s m ≢ 0
          → s'.disk ip.dev (addr_of ip s m) o ≡ s.disk ip.dev (addr_of ip s m) o)
      → Added i s ip k a s' ip'
  Added_lem zeroed kept = record {
    file = record { at = at; mounted = mounted; all = all; held = held'; distinct = distinct' };
    here = here;
    there = λ z. omega (arith, data_block);
    others = others;
    zeroed = zeroed;
    kept = kept;
    shape = shape;
    same_sb = same_sb;
    memory = memory;
  }

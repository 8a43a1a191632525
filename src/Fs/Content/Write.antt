-- ===== src/Fs/Content/Write.antt =====
-- writei of fs.c puts bytes into the file, block by block.
use cpp.Prelude.{
  ℕ, ◌-◌, ◌*◌, ◌/◌, ◌%◌, ◌<◌, ◌≡◌, ◌≢◌, sym, ap, subst, ◌∙◌, false, ◌==◌, if◌then◌else◌, get_or,
  arith, inl, inr,
}
use cpp.Kalloc.{load}
use cpp.Strings.{Bytes}
use cpp.Fs.{Inode, Fs, bsize}
use cpp.Fs.Bitmap.{AreBytes}
use cpp.Fs.Mounted.{is_free, last_meta}
use cpp.Fs.Content.{max_size}
use cpp.Fs.Content.Slots.{put, is_free-put, IsMounted-put, addr_of, slot, content, IsFile}
use cpp.Fs.Content.Bmap.{eq_or_ne}

-- A block of the file gets new contents.
module _ (i : ℕ) (s : Fs) (ip : Inode) (k a : ℕ) (b : Bytes) (f : IsFile i s ip) (lt : k < 141)
    (direct : k ≢ 12) (here : addr_of ip s k ≡ a) (there : a ≢ 0) (bytes : AreBytes b) where
  held : (last_meta s.sb < a) × (a < s.sb.size) × (is_free ip.dev s a ≡ false)
  held =
      subst (λ x. (last_meta s.sb < x) × (x < s.sb.size) × (is_free ip.dev s x ≡ false)) here
        (f.held k lt (λ z. there (sym here ∙ z)))

  abbrev pub rewritten : Fs
  rewritten = put ip.dev a b s

  not_super : a ≢ 1
  not_super = omega (arith, held.0, f.mounted.behind)

  -- No other slot has the block.
  alone : (m : ℕ) → m < 141 → m ≢ k → addr_of ip s m ≢ a
  alone m le ne e =
      f.distinct k m lt le (λ z. ne (sym z)) (λ z. there (sym here ∙ z)) (here ∙ sym e)

  pub same_slots : (m : ℕ) → m < 141 → addr_of ip rewritten m ≡ addr_of ip s m
  unfolding addr_of
  same_slots m le =
      let pointer : get_or ip.addrs 12 0 ≢ a = alone 12 (omega arith) (λ z. direct (sym z)) in
      let same : rewritten.disk ip.dev (get_or ip.addrs 12 0)
          ≡ s.disk ip.dev (get_or ip.addrs 12 0) =
        ground arith in
      ground (arith, ap (λ c. load c (4 * (m - 13))) same)

  pub rewritten-IsFile : IsFile i rewritten ip
  rewritten-IsFile = record {
    at = f.at;
    mounted = IsMounted-put ip.dev a b s f.mounted not_super (inr held.0) bytes;
    all = f.all;
    held = λ m le ne. held_lem m le (λ z. ne (same_slots m le ∙ z));
    distinct = λ m n lm ln ne nz e.
        f.distinct m n lm ln ne (λ z. nz (same_slots m lm ∙ z))
          (sym (same_slots m lm) ∙ e ∙ same_slots n ln);
  }
    where
      held_lem :
          (m : ℕ)
          → m < 141
          → addr_of ip s m ≢ 0
          → (last_meta s.sb < addr_of ip rewritten m)
            × (addr_of ip rewritten m < s.sb.size)
            × (is_free ip.dev rewritten (addr_of ip rewritten m) ≡ false)
      held_lem m le ne =
          let (p, q, r) = f.held m le ne in
          subst (λ x. (last_meta s.sb < x) × (x < s.sb.size) × (is_free ip.dev rewritten x ≡ false))
            (sym (same_slots m le))
            (p, q, is_free-put ip.dev a b s f.mounted not_super (inr held.0) (addr_of ip s m) q ∙ r)

  -- The bytes of the block are new, those of the others stay.
  pub rewritten-content :
      (o : ℕ)
      → o < max_size
      → content ip rewritten o ≡ (if slot (o / bsize) == k then b (o % bsize) else content ip s o)
  unfolding content
  rewritten-content o in_file =
      let m : ℕ = slot (o / bsize) in
      let le : m < 141 = ground arith in
      elim (eq_or_ne m k) [
        | inl same ↦
            let now : addr_of ip rewritten m ≡ a =
              same_slots m le ∙ ap (addr_of ip s) same ∙ here in
            let byte : rewritten.disk ip.dev (addr_of ip rewritten m) (o % bsize) ≡ b (o % bsize) =
              ap (λ n. rewritten.disk ip.dev n (o % bsize)) now ∙ ground arith in
            ground arith
        | inr other ↦
            let now : addr_of ip rewritten m ≡ addr_of ip s m = same_slots m le in
            let apart : addr_of ip s m ≢ a = alone m le other in
            let byte : rewritten.disk ip.dev (addr_of ip rewritten m) (o % bsize)
                ≡ s.disk ip.dev (addr_of ip s m) (o % bsize) =
              ap (λ n. rewritten.disk ip.dev n (o % bsize)) now ∙ ground arith in
            ground arith
      ]

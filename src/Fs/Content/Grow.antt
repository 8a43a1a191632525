-- ===== src/Fs/Content/Grow.antt =====
-- writei of fs.c, with the size that grows, and reading back what it wrote.
use cpp.Prelude.{
  ℕ, ◌+◌, ◌-◌, ◌*◌, ◌/◌, ◌%◌, ◌<◌, ◌≡◌, ◌≢◌, refl, sym, ap, subst, ◌∙◌, false, not, ltb, ◌==◌, ◌&&◌,
  if◌then◌else◌, List, [], ◌∷◌, get_or, arith, inl, inr, some, modify_at, get_elem?-modify_at_self,
  Bool-cases,
}
use cpp.Strings.{Bytes}
use cpp.Kalloc.{load, store}
use cpp.Fs.{Inode, Fs, bsize}
use cpp.Fs.Bitmap.{AreBytes}
use cpp.Fs.Mounted.{is_free, last_meta}
use cpp.Fs.Icache.{iblock, dinode_at, store_words, encode, iupdate}
use cpp.Fs.Content.{max_size, grow}
use cpp.Fs.Content.Slots.{
  put, is_free-put, IsMounted-core, IsMounted-put, addr_of, slot, content, IsFile,
}
use cpp.Fs.Content.Bmap.{eq_or_ne}
use cpp.Fs.Content.Entry.{store-AreBytes}

store_words-AreBytes :
    (ws : List ℕ) (b : Bytes) (o : ℕ) → AreBytes b → AreBytes (store_words ws b o)
unfolding store_words
store_words-AreBytes [] b o v = v
store_words-AreBytes (w ∷ ws) b o v =
    store_words-AreBytes ws (store b o w) (o + 4) (store-AreBytes b o w v)

encode-AreBytes : (ip : Inode) (b : Bytes) (o : ℕ) → AreBytes b → AreBytes (encode ip b o)
unfolding encode
encode-AreBytes ip b o v =
    store_words-AreBytes ip.addrs _ (o + 12)
      (store-AreBytes _ (o + 8) ip.size (λ i. ground (arith, v i)))

-- A block in front of the bitmap gets new contents: no file notices.
module _ (i : ℕ) (s : Fs) (ip : Inode) (n : ℕ) (b : Bytes) (f : IsFile i s ip) (other : n ≢ 1)
    (front : n < s.sb.bmapstart) (bytes : AreBytes b) where
  behind : (k : ℕ) → k < 141 → addr_of ip s k ≢ 0 → addr_of ip s k ≢ n
  behind k lt ne e = omega (arith, (f.held k lt ne).0)

  meta_slots : (k : ℕ) → k < 141 → addr_of ip (put ip.dev n b s) k ≡ addr_of ip s k
  unfolding addr_of
  meta_slots k lt = elim (Bool-cases (get_or ip.addrs 12 0 == 0)) [
    | inl none_yet ↦ ground arith
    | inr there ↦
        let apart : get_or ip.addrs 12 0 ≢ n = behind 12 (omega arith) (ground arith) in
        let same : (put ip.dev n b s).disk ip.dev (get_or ip.addrs 12 0)
            ≡ s.disk ip.dev (get_or ip.addrs 12 0) =
          ground arith in
        ground (arith, ap (λ c. load c (4 * (k - 13))) same)
  ]

  meta-IsFile : IsFile i (put ip.dev n b s) ip
  meta-IsFile = record {
    at = f.at;
    mounted = IsMounted-put ip.dev n b s f.mounted other (inl front) bytes;
    all = f.all;
    held = λ k lt ne. held_lem k lt (λ z. ne (meta_slots k lt ∙ z));
    distinct = λ m k lm lk ne nz e.
        f.distinct m k lm lk ne (λ z. nz (meta_slots m lm ∙ z))
          (sym (meta_slots m lm) ∙ e ∙ meta_slots k lk);
  }
    where
      held_lem :
          (k : ℕ)
          → k < 141
          → addr_of ip s k ≢ 0
          → (last_meta s.sb < addr_of ip (put ip.dev n b s) k)
            × (addr_of ip (put ip.dev n b s) k < s.sb.size)
            × (is_free ip.dev (put ip.dev n b s) (addr_of ip (put ip.dev n b s) k) ≡ false)
      held_lem k lt ne =
          let (p, q, r) = f.held k lt ne in
          subst
            (λ x.
              (last_meta s.sb < x)
              × (x < s.sb.size)
              × (is_free ip.dev (put ip.dev n b s) x ≡ false))
            (sym (meta_slots k lt))
            (p, q, is_free-put ip.dev n b s f.mounted other (inl front) (addr_of ip s k) q ∙ r)

  meta-content : (o : ℕ) → o < max_size → content ip (put ip.dev n b s) o ≡ content ip s o
  unfolding content
  meta-content o lt =
      let m : ℕ = slot (o / bsize) in
      let le : m < 141 = ground arith in
      let now : addr_of ip (put ip.dev n b s) m ≡ addr_of ip s m = meta_slots m le in
      elim (eq_or_ne (addr_of ip s m) 0) [
        | inl hole ↦ ground arith
        | inr there ↦
            let apart : addr_of ip s m ≢ n = behind m le there in
            let byte : (put ip.dev n b s).disk ip.dev (addr_of ip (put ip.dev n b s) m) (o % bsize)
                ≡ s.disk ip.dev (addr_of ip s m) (o % bsize) =
              ap (λ k. (put ip.dev n b s).disk ip.dev k (o % bsize)) now ∙ ground arith in
            ground arith
      ]

abbrev pub resize : ℕ → Inode → Inode
resize e ip = record ip { size = e }

abbrev resized : (i e : ℕ) → Fs → Fs
resized i e s = record s { icache = modify_at (resize e) s.icache i }

resized-IsFile :
    (i e : ℕ) (s : Fs) (ip : Inode) → IsFile i s ip → IsFile i (resized i e s) (resize e ip)
unfolding addr_of
resized-IsFile i e s ip f = record {
  at = get_elem?-modify_at_self (resize e) s.icache i f.at;
  mounted = IsMounted-core ip.dev s (modify_at (resize e) s.icache i) s.mem f.mounted;
  all = f.all;
  held = f.held;
  distinct = f.distinct;
}

resized-slots :
    (i e : ℕ) (s : Fs) (ip : Inode) (k : ℕ)
    → addr_of (resize e ip) (resized i e s) k ≡ addr_of ip s k
unfolding addr_of
resized-slots i e s ip k = refl

resized-content :
    (i e : ℕ) (s : Fs) (ip : Inode) (o : ℕ)
    → content (resize e ip) (resized i e s) o ≡ content ip s o
unfolding content addr_of
resized-content i e s ip o = refl

-- What growing leaves as it was.
pub record Grown (i : ℕ) (s : Fs) (ip : Inode) (size : ℕ) (s' : Fs) (ip' : Inode) : Type 0 where
  pub file : IsFile i s' ip'
  pub reads : (o : ℕ) → o < max_size → content ip' s' o ≡ content ip s o
  pub slots : (k : ℕ) → k < 141 → addr_of ip' s' k ≡ addr_of ip s k
  pub shape : ip' ≡ resize size ip
  pub same_sb : s'.sb ≡ s.sb
  pub memory : s'.mem ≡ s.mem

-- The block of the inode is in front of the bitmap, and not the superblock.
abbrev pub HasPlace : Fs → Inode → Type 0
HasPlace s ip = (iblock ip.inum s.sb ≢ 1) × (iblock ip.inum s.sb < s.sb.bmapstart)

pub grow_lem :
    (i end n : ℕ) (s : Fs) (ip : Inode)
    → IsFile i s ip
    → HasPlace s ip
    → (s' : Fs) × (ip' : Inode) × (grow i end n s ≡ some (tt, s'))
      × Grown i s ip (if (not (n == 0)) && ltb ip.size end then end else ip.size) s' ip'
unfolding grow iupdate
grow_lem i end n s ip f (other, front) = elim (Bool-cases (not (n == 0) && ltb ip.size end)) [
  | inr stays ↦ (
    s,
    ip,
    ground (arith, f.at),
    record {
      file = f;
      reads = λ o lt. refl;
      slots = λ k lt. refl;
      shape = ground arith;
      same_sb = refl;
      memory = refl;
    },
  )
  | inl grows ↦
      let s₁ : Fs = resized i end s in
      let jp : Inode = resize end ip in
      let f₁ = resized-IsFile i end s ip f in
      let b : Bytes = encode jp (s₁.disk ip.dev (iblock ip.inum s.sb)) (dinode_at ip.inum) in
      let v =
        encode-AreBytes jp (s₁.disk ip.dev (iblock ip.inum s.sb)) (dinode_at ip.inum)
          (f₁.mounted.bytes (iblock ip.inum s.sb)) in
      (
        put ip.dev (iblock ip.inum s.sb) b s₁,
        jp,
        ground (arith, f.at, f₁.at),
        record {
          file = meta-IsFile i s₁ jp (iblock ip.inum s.sb) b f₁ other front v;
          reads = λ o lt.
              meta-content i s₁ jp (iblock ip.inum s.sb) b f₁ other front v o lt
              ∙ resized-content i end s ip o;
          slots = λ k lt.
              meta_slots i s₁ jp (iblock ip.inum s.sb) b f₁ other front v k lt
              ∙ resized-slots i end s ip k;
          shape = ground arith;
          same_sb = refl;
          memory = refl;
        },
      )
]

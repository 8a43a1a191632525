-- ===== src/Fs/Icache/Update.antt =====
-- iupdate of fs.c and the inodes of the disk.
use cpp.Prelude.{
  ℕ, zero, suc, ◌+◌, ◌*◌, ◌≤◌, ◌<◌, ◌≡◌, ◌≢◌, ◌⊎◌, refl, sym, ap, ap₂, subst, ◌∙◌, true, ◌==◌, ◌&&◌,
  if◌then◌else◌, ◌∷◌, arith, inl, inr, some, get_elem?, trichotomy,
}
use cpp.Strings.{Bytes}
use cpp.Fs.{Inode, Fs}
use cpp.Fs.Icache.{load_half, load_words, encode, decode, iblock, dinode_at, iupdate}
use cpp.Fs.Icache.Dinode.{load-ext, FitsDisk, decode-encode, encode-frame}

load_words-ext :
    (n : ℕ) (b c : Bytes) (o : ℕ)
    → ((k : ℕ) → k < 4 * n → b (o + k) ≡ c (o + k))
    → load_words n b o ≡ load_words n c o
unfolding load_words
load_words-ext zero b c o same = refl
load_words-ext (suc n) b c o same = ap₂ ◌∷◌ (load-ext b c o (λ k lt. same k (omega arith))) (
    load_words-ext n b c (o + 4) (λ k lt.
      let at : o + (4 + k) ≡ o + 4 + k = omega arith in
      subst (λ p. b p ≡ c p) at (same (4 + k) (omega arith))))

decode-ext :
    (b c : Bytes) (o : ℕ) (jp : Inode)
    → ((k : ℕ) → k < 64 → b (o + k) ≡ c (o + k))
    → decode b o jp ≡ decode c o jp
unfolding decode
decode-ext b c o jp same =
    let first : b o ≡ c o =
      let at : o + 0 ≡ o = omega arith in subst (λ p. b p ≡ c p) at (same 0 (omega arith)) in
    let half : (k : ℕ) → k + 1 < 64 → load_half b (o + k) ≡ load_half c (o + k) = λ k lt.
      let at : o + (k + 1) ≡ o + k + 1 = omega arith in
      omega (arith, same k (omega arith), subst (λ p. b p ≡ c p) at (same (k + 1) lt)) in
    let word : (k n : ℕ) → k + 4 * n ≤ 64 → (j : ℕ) → j < 4 * n → b (o + k + j) ≡ c (o + k + j) =
      λ k n le j lt.
        let at : o + (k + j) ≡ o + k + j = omega arith in
        subst (λ p. b p ≡ c p) at (same (k + j) (omega arith)) in
    ground (
      arith,
      first,
      same 1 (omega arith),
      half 2 (omega arith),
      half 4 (omega arith),
      half 6 (omega arith),
      load-ext b c (o + 8) (word 8 1 (omega arith)),
      load_words-ext 13 b c (o + 12) (word 12 13 (omega arith)),
    )

-- iupdate of an inode whose fields fit, where log_write takes the block, puts them on the disk, where its number says, and changes no
-- other inode of the disk; the cache and the other blocks stay.
pub iupdate_lem :
    (i : ℕ) (s : Fs) {ip : Inode}
    → get_elem? s.icache i ≡ some ip
    → FitsDisk ip
    → s.logs ≡ true
    → (s' : Fs) × (iupdate i s ≡ some (tt, s'))
      × (s'.icache ≡ s.icache)
      × (s'.sb ≡ s.sb)
      × ((jp : Inode)
          → decode (s'.disk ip.dev (iblock ip.inum s.sb)) (dinode_at ip.inum) jp ≡ record ip {
            dev = jp.dev;
            inum = jp.inum;
            ref = jp.ref;
            locked = jp.locked;
            valid = true;
          })
      × ((n : ℕ) (jp : Inode)
          → n ≢ ip.inum
          → decode (s'.disk ip.dev (iblock n s.sb)) (dinode_at n) jp
            ≡ decode (s.disk ip.dev (iblock n s.sb)) (dinode_at n) jp)
      × ((n : ℕ) → n ≢ iblock ip.inum s.sb → s'.disk ip.dev n ≡ s.disk ip.dev n)
unfolding iupdate
iupdate_lem i s {ip} at fits logs = (
  s',
  ground arith,
  refl,
  refl,
  λ jp.
      ap (λ c. decode c (dinode_at ip.inum) jp) written
      ∙ decode-encode ip b (dinode_at ip.inum) fits jp,
  λ n jp ne.
      decode-ext (s'.disk ip.dev (iblock n s.sb)) (s.disk ip.dev (iblock n s.sb)) (dinode_at n) jp
        (other n ne),
  λ n ne. ground arith,
)
  where
    b : Bytes
    b = s.disk ip.dev (iblock ip.inum s.sb)

    s' : Fs
    s' = record s {
      disk = λ d n.
          if (d == ip.dev) && (n == iblock ip.inum s.sb)
          then encode ip b (dinode_at ip.inum)
          else s.disk d n;
    }

    written : s'.disk ip.dev (iblock ip.inum s.sb) ≡ encode ip b (dinode_at ip.inum)
    written = ground arith

    other :
        (n : ℕ)
        → n ≢ ip.inum
        → (k : ℕ) → k < 64
        → s'.disk ip.dev (iblock n s.sb) (dinode_at n + k)
          ≡ s.disk ip.dev (iblock n s.sb) (dinode_at n + k)
    other n ne k lt = elim (trichotomy (iblock n s.sb) (iblock ip.inum s.sb)) [
      | inl before ↦ ground arith
      | inr (inl same) ↦
          let a : ℕ = dinode_at n + k in
          let apart : (a < dinode_at ip.inum) ⊎ (dinode_at ip.inum + 64 ≤ a) = ground arith in
          ap (λ m. s'.disk ip.dev m a) same
          ∙ ap (λ c. c a) written
          ∙ encode-frame ip b (dinode_at ip.inum) fits a apart
          ∙ ap (λ m. s.disk ip.dev m a) (sym same)
      | inr (inr behind) ↦ ground arith
    ]

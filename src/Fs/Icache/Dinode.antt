-- ===== src/Fs/Icache/Dinode.antt =====
-- The inodes on the disk: what iupdate writes is what ilock reads.
use cpp.Prelude.{
  ℕ, ◌+◌, ◌*◌, ◌^◌, ◌≤◌, ◌<◌, ◌≡◌, ◌⊎◌, refl, ap₂, subst, ◌∙◌, true, List, [], ◌∷◌, length, arith,
  inl,
}
use cpp.Strings.{Bytes}
use cpp.Kalloc.{load, store}
use cpp.Fs.{Inode}
use cpp.Fs.Icache.{load_half, store_half, load_words, store_words, encode, decode}

pub load-store : (b : Bytes) (o w : ℕ) → w < 2 ^ 32 → load (store b o w) o ≡ w
unfolding load store
load-store b o w lt = ground arith

pub store-frame : (b : Bytes) (o w a : ℕ) → (a < o) ⊎ (o + 4 ≤ a) → store b o w a ≡ b a
unfolding store
store-frame b o w a h = ground arith

pub load-ext :
    (b c : Bytes) (o : ℕ) → ((k : ℕ) → k < 4 → b (o + k) ≡ c (o + k)) → load b o ≡ load c o
unfolding load
load-ext b c o same =
    let e : b (o + 0) ≡ c (o + 0) = same 0 (omega arith) in
    let at : o + 0 ≡ o = omega arith in
    omega (
      arith,
      subst (λ p. b p ≡ c p) at e,
      same 1 (omega arith),
      same 2 (omega arith),
      same 3 (omega arith),
    )

pub store_words-frame :
    (ws : List ℕ) (b : Bytes) (o a : ℕ)
    → (a < o) ⊎ (o + 4 * length ws ≤ a)
    → store_words ws b o a ≡ b a
unfolding store_words
store_words-frame [] b o a h = refl
store_words-frame (w ∷ ws) b o a h =
    store_words-frame ws (store b o w) (o + 4) a (ground arith) ∙ store-frame b o w a (ground arith)

abbrev pub AllWords : List ℕ → Type 0
AllWords [] = Unit
AllWords (w ∷ ws) = (w < 2 ^ 32) × AllWords ws

pub load_words-store_words :
    (ws : List ℕ) (b : Bytes) (o : ℕ)
    → AllWords ws
    → load_words (length ws) (store_words ws b o) o ≡ ws
unfolding load_words store_words
load_words-store_words [] b o small = refl
load_words-store_words (w ∷ ws) b o (lt, small) =
    ap₂ ◌∷◌
      (load-ext (store_words ws (store b o w) (o + 4)) (store b o w) o
          (λ k le. store_words-frame ws (store b o w) (o + 4) (o + k) (inl (omega arith)))
        ∙ load-store b o w lt)
      (load_words-store_words ws (store b o w) (o + 4) small)

-- The fields fit into those of the disk.
pub record FitsDisk (ip : Inode) : Type 0 where
  pub type : ip.type < 2 ^ 16
  pub major : ip.major < 2 ^ 16
  pub minor : ip.minor < 2 ^ 16
  pub nlink : ip.nlink < 2 ^ 16
  pub size : ip.size < 2 ^ 32
  pub words : AllWords ip.addrs
  pub all : length ip.addrs ≡ 13

abbrev shorts : Inode → Bytes → ℕ → Bytes
shorts ip b o =
    store_half (store_half (store_half (store_half b o ip.type) (o + 2) ip.major) (o + 4) ip.minor)
      (o + 6) ip.nlink

module _ (ip : Inode) (b : Bytes) (o : ℕ) (fits : FitsDisk ip) where
  shorts_lem :
      (load_half (shorts ip b o) o ≡ ip.type)
      × (load_half (shorts ip b o) (o + 2) ≡ ip.major)
      × (load_half (shorts ip b o) (o + 4) ≡ ip.minor)
      × (load_half (shorts ip b o) (o + 6) ≡ ip.nlink)
  shorts_lem = (
    ground (arith, fits.type),
    ground (arith, fits.major),
    ground (arith, fits.minor),
    ground (arith, fits.nlink),
  )

  header : (a : ℕ) → a < o + 8 → encode ip b o a ≡ shorts ip b o a
  unfolding encode
  header a lt =
      store_words-frame ip.addrs (store (shorts ip b o) (o + 8) ip.size) (o + 12) a
        (inl (omega arith))
      ∙ store-frame (shorts ip b o) (o + 8) ip.size a (inl lt)

  half_lem :
      (k : ℕ) → k + 1 < 8 → load_half (encode ip b o) (o + k) ≡ load_half (shorts ip b o) (o + k)
  half_lem k lt = omega (arith, header (o + k) (omega arith), header (o + k + 1) (omega arith))

  size_lem : load (encode ip b o) (o + 8) ≡ ip.size
  unfolding encode
  size_lem =
      load-ext (encode ip b o) (store (shorts ip b o) (o + 8) ip.size) (o + 8) (λ k lt.
        store_words-frame ip.addrs (store (shorts ip b o) (o + 8) ip.size) (o + 12) (o + 8 + k)
          (inl (omega arith)))
      ∙ load-store (shorts ip b o) (o + 8) ip.size fits.size

  addrs_lem : load_words 13 (encode ip b o) (o + 12) ≡ ip.addrs
  unfolding encode
  addrs_lem =
      subst (λ n. load_words n (encode ip b o) (o + 12) ≡ ip.addrs) fits.all
        (load_words-store_words ip.addrs (store (shorts ip b o) (o + 8) ip.size) (o + 12)
          fits.words)

  first_half : load_half (encode ip b o) o ≡ ip.type
  first_half = omega (arith, header o (omega arith), header (o + 1) (omega arith), shorts_lem.0)

  -- An inode whose fields fit is read from the disk as iupdate writes it, into any entry of the
  -- cache, which keeps its device, its number and its references.
  pub decode-encode :
      (jp : Inode)
      → decode (encode ip b o) o jp
        ≡ record ip { dev = jp.dev; inum = jp.inum; ref = jp.ref; locked = jp.locked; valid = true }
  unfolding decode
  decode-encode jp = ground (
    arith,
    first_half,
    half_lem 2 (omega arith) ∙ shorts_lem.1,
    half_lem 4 (omega arith) ∙ shorts_lem.2,
    half_lem 6 (omega arith) ∙ shorts_lem.3,
    size_lem,
    addrs_lem,
  )

  -- The other inodes of the block stay.
  pub encode-frame : (a : ℕ) → (a < o) ⊎ (o + 64 ≤ a) → encode ip b o a ≡ b a
  unfolding encode
  encode-frame a out =
      store_words-frame ip.addrs (store (shorts ip b o) (o + 8) ip.size) (o + 12) a
        (ground (arith, fits.all))
      ∙ store-frame (shorts ip b o) (o + 8) ip.size a (ground arith)
      ∙ ground arith

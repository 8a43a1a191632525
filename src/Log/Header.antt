-- ===== src/Log/Header.antt =====
-- The header block of the log, and `write_log` in full.
use cpp.Prelude.{
  ℕ, zero, suc, ◌+◌, ◌-◌, ◌≤◌, ◌<◌, ◌≡◌, ◌≢◌, refl, ap, ap₂, ◌∙◌, subst, true, false, ◌==◌,
  if◌then◌else◌, List, [], ◌∷◌, length, some, get_elem?, ne→==, eq→==, arith,
}
use cpp.Blocks.{Block, Store, bread, bwrite}
use cpp.Log.{Log, set_words, get_words, write_head, write_log_from}
use cpp.Log.Install.{Logged, AllHome, write_log_from-frame}

set_words-below : (i : ℕ) (ws : List ℕ) (b : Block) (j : ℕ) → j < i → set_words i ws b j ≡ b j
unfolding set_words
set_words-below i [] b j h = refl
set_words-below i (w ∷ ws) b j h =
    ground (arith, set_words-below (i + 1) ws (λ j. if j == i then w else b j) j (omega arith))

get_words-set_words :
    (i : ℕ) (ws : List ℕ) (b : Block) → get_words i (length ws) (set_words i ws b) ≡ ws
unfolding set_words get_words
get_words-set_words i [] b = refl
get_words-set_words i (w ∷ ws) b =
    let b' : Block = λ j. if j == i then w else b j in
    ap₂ ◌∷◌ (ground (arith, set_words-below (i + 1) ws b' i (omega arith)))
      (get_words-set_words (i + 1) ws b')

-- The entries that a header block names.
abbrev pub entries : Block → List ℕ
entries b = get_words 1 (b 0) b

-- A header that is written is read back.
pub entries-set_words :
    (bs : List ℕ) (b : Block)
    → (set_words 0 (length bs ∷ bs) b 0 ≡ length bs)
      × (entries (set_words 0 (length bs ∷ bs) b) ≡ bs)
unfolding set_words
entries-set_words bs b =
    let b' : Block = λ j. if j == 0 then length bs else b j in
    let first : set_words 1 bs b' 0 ≡ length bs = set_words-below 1 bs b' 0 (omega arith) in
    (first, rw first (get_words-set_words 1 bs b'))

-- `write_head` writes the header block, if the machine still runs, and no other.
pub write_head_lem :
    (l : Log) (s : Store)
    → let s' : Store = write_head l s in
      ((n : ℕ) → n ≢ l.start → (s'.disk n ≡ s.disk n) × (s'.view n ≡ s.view n))
      × (s.power ≡ 0 → s'.disk ≡ s.disk)
      × (0 < s.power
          → (s'.disk l.start 0 ≡ length l.blocks) × (entries (s'.disk l.start) ≡ l.blocks))
      × (s'.power ≡ s.power - 1)
unfolding write_head bwrite
write_head_lem l s = (
  λ n ne. (ground arith, ground arith),
  λ off. ground arith,
  λ on.
      rw (ne→== s.power 0 (λ x. omega arith), eq→== l.start l.start refl)
        (entries-set_words l.blocks (bread l.start s)),
  refl,
)

Logged-cons :
    (f : ℕ → Block) (start tail b : ℕ) (bs : List ℕ) (new : ℕ → Block)
    → f (start + tail + 1) ≡ new b
    → Logged f start (tail + 1) bs new
    → Logged f start tail (b ∷ bs) new
Logged-cons f start tail b bs new first rest zero c e =
    let same : b ≡ c = ground arith in subst (λ n. f n ≡ new c) (omega arith) (first ∙ ap new same)
Logged-cons f start tail b bs new first rest (suc i) c e =
    subst (λ n. f n ≡ new c) (omega arith) (rest i c e)

module _ (start size : ℕ) (new : ℕ → Block) where
  -- With power for all of it, `write_log` puts the new contents of every block into the log.
  pub write_log_from-Logged :
      (tail : ℕ) (bs : List ℕ) (s : Store)
      → tail + length bs < size
      → AllHome start size bs
      → length bs ≤ s.power
      → ((i b : ℕ) → get_elem? bs i ≡ some b → s.view b ≡ new b)
      → let s' : Store = write_log_from start tail bs s in
        Logged s'.disk start tail bs new × Logged s'.view start tail bs new
  unfolding write_log_from bwrite bread
  write_log_from-Logged tail [] s room home p now = (λ i b e. cc, λ i b e. cc)
  write_log_from-Logged tail (b ∷ bs) s room home p now =
      let s' : Store = bwrite (start + tail + 1) (bread b s) s in
      let (d, v) =
        write_log_from-Logged (tail + 1) bs s' (omega arith) (λ i c e. home (suc i) c e)
          (omega arith)
          (λ i c e.
            rw (ne→== c (start + tail + 1) (λ x. omega (arith, home (suc i) c e)))
              (now (suc i) c e)) in
      let (d', v') = write_log_from-frame start (tail + 1) bs s' (start + tail + 1) (omega arith) in
      let on : (s.power == 0) ≡ false = ne→== s.power 0 (λ x. omega arith) in
      let here : (start + tail + 1 == start + tail + 1) ≡ true =
        eq→== (start + tail + 1) (start + tail + 1) refl in
      let first : s.view b ≡ new b = now 0 b refl in
      (
        Logged-cons (write_log_from start tail (b ∷ bs) s).disk start tail b bs new
            (d' ∙ rw (on, here) first) d,
        Logged-cons (write_log_from start tail (b ∷ bs) s).view start tail b bs new
            (v' ∙ rw here first) v,
      )

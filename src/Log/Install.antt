-- ===== src/Log/Install.antt =====
-- The two copying loops of the log, wherever the machine stops.
use cpp.Prelude.{
  subst, lt_length_of_get_elem?, ne→==, ℕ, suc, ◌+◌, ◌-◌, ◌≤◌, ◌<◌, ◌≡◌, ◌≢◌, ◌⊎◌, refl, inl, inr,
  true, false, List, [], ◌∷◌, length, some, get_elem?, arith, Bool-cases,
}
use cpp.Blocks.{Block, Store, bread, bwrite, put_block}
use cpp.Log.{install_from, write_log_from, has}

-- Block `start + 1 + tail + i` holds the new contents of the `i`-th block of the list.
abbrev pub Logged : (ℕ → Block) → ℕ → ℕ → List ℕ → (ℕ → Block) → Type 0
Logged f start tail bs new = (i b : ℕ) → get_elem? bs i ≡ some b → f (start + tail + 1 + i) ≡ new b

-- Outside the log: neither the header nor one of the `size - 1` blocks behind it.
abbrev pub IsHome : ℕ → ℕ → ℕ → Type 0
IsHome start size a = (a < start) ⊎ (start + size ≤ a)

abbrev pub AllHome : ℕ → ℕ → List ℕ → Type 0
AllHome start size bs = (i b : ℕ) → get_elem? bs i ≡ some b → IsHome start size b

module _ (start size : ℕ) (new : ℕ → Block) where
  -- A write to a home block leaves the rest of the log as it is.
  shifted :
      (tail b : ℕ) (bs : List ℕ) (f : ℕ → Block) (c : Block)
      → tail + length (b ∷ bs) < size
      → IsHome start size b
      → Logged f start tail (b ∷ bs) new
      → Logged (put_block f b c) start (tail + 1) bs new
  shifted tail b bs f c room home logged i d e =
      let inside = lt_length_of_get_elem? bs i e in
      let apart : (start + (tail + 1) + 1 + i) ≢ b = λ same. omega (arith, inside, home) in
      rw (ne→== _ b apart) (subst (λ n. f n ≡ new d) (omega arith) (logged (suc i) d e))

  -- After any part of `install_trans` a block holds what it held, or is in the list and holds its
  -- new contents; and after all of it, the blocks of the list hold those.
  pub install_from-disk :
      (tail : ℕ) (bs : List ℕ) (s : Store) (a : ℕ)
      → tail + length bs < size
      → AllHome start size bs
      → Logged s.view start tail bs new
      → ((install_from start tail bs s).disk a ≡ s.disk a)
        ⊎ ((has a bs ≡ true) × ((install_from start tail bs s).disk a ≡ new a))
  unfolding install_from bwrite bread
  install_from-disk tail [] s a room home logged = inl refl
  install_from-disk tail (b ∷ bs) s a room home logged =
      let s' : Store = bwrite b (bread (start + tail + 1) s) s in
      let here : s.view (start + tail + 1) ≡ new b =
        subst (λ n. s.view n ≡ new b) (omega arith) (logged 0 b refl) in
      let logged' : Logged s'.view start (tail + 1) bs new =
        shifted tail b bs s.view _ room (home 0 b refl) logged in
      elim (install_from-disk (tail + 1) bs s' a (omega arith) (λ i c e. home (suc i) c e)
        logged') [ inl same ↦ ground (arith, here) | inr (there, e) ↦ inr (ground arith, e) ]

  -- With power for all of it, the loop installs the whole list.
  pub install_from-all :
      (tail : ℕ) (bs : List ℕ) (s : Store) (a : ℕ)
      → tail + length bs < size
      → AllHome start size bs
      → Logged s.view start tail bs new
      → length bs ≤ s.power
      → has a bs ≡ true
      → (install_from start tail bs s).disk a ≡ new a
  unfolding install_from bwrite bread
  install_from-all tail [] s a room home logged p there = cc
  install_from-all tail (b ∷ bs) s a room home logged p there =
      let s' : Store = bwrite b (bread (start + tail + 1) s) s in
      let here : s.view (start + tail + 1) ≡ new b =
        subst (λ n. s.view n ≡ new b) (omega arith) (logged 0 b refl) in
      let logged' : Logged s'.view start (tail + 1) bs new =
        shifted tail b bs s.view _ room (home 0 b refl) logged in
      elim (Bool-cases (has a bs)) [
        | inl later ↦
            install_from-all (tail + 1) bs s' a (omega arith) (λ i c e. home (suc i) c e) logged'
              (omega arith) later
        | inr now ↦
            elim (install_from-disk (tail + 1) bs s' a (omega arith) (λ i c e. home (suc i) c e)
              logged') [ inl same ↦ ground (arith, here) | inr h ↦ h.1 ]
      ]

pub power-install_from :
    (start tail : ℕ) (bs : List ℕ) (s : Store)
    → (install_from start tail bs s).power ≡ s.power - length bs
unfolding install_from bwrite bread
power-install_from start tail [] s = omega arith
power-install_from start tail (b ∷ bs) s =
    omega (arith, power-install_from start (tail + 1) bs (bwrite b (bread (start + tail + 1) s) s))

-- A block that is not in the list keeps its contents, on the disk and in the cache.
pub install_from-frame :
    (start tail : ℕ) (bs : List ℕ) (s : Store) (a : ℕ)
    → has a bs ≡ false
    → ((install_from start tail bs s).disk a ≡ s.disk a)
      × ((install_from start tail bs s).view a ≡ s.view a)
unfolding install_from bwrite bread
install_from-frame start tail [] s a out = (refl, refl)
install_from-frame start tail (b ∷ bs) s a out =
    ground
      (arith, install_from-frame start (tail + 1) bs (bwrite b (bread (start + tail + 1) s) s) a)

pub power-write_log_from :
    (start tail : ℕ) (bs : List ℕ) (s : Store)
    → (write_log_from start tail bs s).power ≡ s.power - length bs
unfolding write_log_from bwrite bread
power-write_log_from start tail [] s = omega arith
power-write_log_from start tail (b ∷ bs) s =
    omega
      (arith, power-write_log_from start (tail + 1) bs (bwrite (start + tail + 1) (bread b s) s))

-- `write_log` writes the log blocks behind the header, and nothing else.
pub write_log_from-frame :
    (start tail : ℕ) (bs : List ℕ) (s : Store) (a : ℕ)
    → (a < start + tail + 1) ⊎ (start + tail + length bs < a)
    → ((write_log_from start tail bs s).disk a ≡ s.disk a)
      × ((write_log_from start tail bs s).view a ≡ s.view a)
unfolding write_log_from bwrite bread
write_log_from-frame start tail [] s a out = (refl, refl)
write_log_from-frame start tail (b ∷ bs) s a out = ground (
  arith,
  write_log_from-frame start (tail + 1) bs (bwrite (start + tail + 1) (bread b s) s) a
      (omega arith),
)

-- Nothing reaches the disk of a machine that has stopped.
pub install_from-off :
    (start tail : ℕ) (bs : List ℕ) (s : Store)
    → s.power ≡ 0
    → (install_from start tail bs s).disk ≡ s.disk
unfolding install_from bwrite bread
install_from-off start tail [] s off = refl
install_from-off start tail (b ∷ bs) s off = ground (
  arith,
  install_from-off start (tail + 1) bs (bwrite b (bread (start + tail + 1) s) s) (omega arith),
)

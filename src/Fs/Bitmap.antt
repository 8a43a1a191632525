-- ===== src/Fs/Bitmap.antt =====
-- The bitmap of the free blocks in fs.c: single bits, and what balloc and bfree do to the set of
-- free blocks.
use Prim.Native.Nat.{bit_and, bit_or}
use cpp.Prelude.{
  ℕ, zero, suc, ◌-◌, ◌/◌, ◌%◌, ◌^◌, ◌<◌, ◌≡◌, refl, sym, Bool, true, false, ltb, ◌==◌, ◌&&◌,
  if◌then◌else◌, arith,
}
use cpp.Strings.{Bytes}
use cpp.Fs.{is_clear, set_bit, clear_bit}

-- The test holds of each number below the bound.
passes : (ℕ → Bool) → ℕ → Bool
passes test zero = true
passes test (suc k) = test k && passes test k

passes_below : (test : ℕ → Bool) (k i : ℕ) → i < k → passes test k ≡ true → test i ≡ true
unfolding passes
passes_below test zero i below all = absurd (omega arith)
passes_below test (suc k) i below all = ground (arith, passes_below test k i)

bool_eq : Bool → Bool → Bool
bool_eq true b = b
bool_eq false true = false
bool_eq false false = true

bool_eq_sound : (a b : Bool) → bool_eq a b ≡ true → a ≡ b
unfolding bool_eq
bool_eq_sound true b h = sym h
bool_eq_sound false true h = cc
bool_eq_sound false false h = refl

bit_clear : (x k : ℕ) → Bool
bit_clear x k = bit_and x (2 ^ k) == 0

-- All bytes, and all pairs of places: bit `k` is set, or cleared.
bit_row : (x k j : ℕ) → Bool
unfolding bool_eq bit_clear
bit_row x k j =
    bool_eq (bit_clear (bit_or x (2 ^ k)) j) (if j == k then false else bit_clear x j)
    && bool_eq (bit_clear (bit_and x (2 ^ 32 - 1 - 2 ^ k)) j)
        (if j == k then true else bit_clear x j)
    && ltb (bit_or x (2 ^ k)) 256
    && ltb (bit_and x (2 ^ 32 - 1 - 2 ^ k)) 256

-- All bytes, and all pairs of places: bit `k` is set, or cleared.
bit_table : passes (λ x. passes (λ k. passes (λ j. bit_row x k j) 8) 8) 256 ≡ true
unfolding passes bit_row
bit_table = refl

bit_laws :
    (x k j : ℕ)
    → x < 256
    → k < 8
    → j < 8
    → (bit_clear (bit_or x (2 ^ k)) j ≡ (if j == k then false else bit_clear x j))
      × (bit_clear (bit_and x (2 ^ 32 - 1 - 2 ^ k)) j ≡ (if j == k then true else bit_clear x j))
      × (bit_or x (2 ^ k) < 256)
      × (bit_and x (2 ^ 32 - 1 - 2 ^ k) < 256)
unfolding bit_row
bit_laws x k j hx hk hj =
    let row : bit_row x k j ≡ true =
      passes_below (bit_row x k) 8 j hj
        (passes_below _ 8 k hk (passes_below _ 256 x hx bit_table)) in
    (
      bool_eq_sound _ _ (ground (arith, row)),
      bool_eq_sound _ _ (ground (arith, row)),
      ground (arith, row),
      ground (arith, row),
    )

abbrev pub AreBytes : Bytes → Type 0
AreBytes b = (i : ℕ) → b i < 256

module _ (b : Bytes) (v : AreBytes b) (bi : ℕ) where
  pub is_clear-set_bit :
      (bj : ℕ) → is_clear (set_bit b bi) bj ≡ (if bj == bi then false else is_clear b bj)
  unfolding is_clear set_bit bit_clear
  is_clear-set_bit bj =
      ground
        (arith, bit_laws (b (bi / 8)) (bi % 8) (bj % 8) (v (bi / 8)) (omega arith) (omega arith))

  pub is_clear-clear_bit :
      (bj : ℕ) → is_clear (clear_bit b bi) bj ≡ (if bj == bi then true else is_clear b bj)
  unfolding is_clear clear_bit bit_clear
  is_clear-clear_bit bj =
      ground
        (arith, bit_laws (b (bi / 8)) (bi % 8) (bj % 8) (v (bi / 8)) (omega arith) (omega arith))

  pub set_bit-AreBytes : AreBytes (set_bit b bi)
  unfolding set_bit
  set_bit-AreBytes i =
      ground (arith, v i, bit_laws (b (bi / 8)) (bi % 8) 0 (v (bi / 8)) (omega arith) (omega arith))

  pub clear_bit-AreBytes : AreBytes (clear_bit b bi)
  unfolding clear_bit
  clear_bit-AreBytes i =
      ground (arith, v i, bit_laws (b (bi / 8)) (bi % 8) 0 (v (bi / 8)) (omega arith) (omega arith))

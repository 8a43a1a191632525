-- ===== src/Strings/Memory.antt =====
-- The functions of string.c that take a length: memset, memcmp and memmove.
use cpp.Prelude.{
  ◌^◌, ◌↔◌, ℕ, zero, suc, ◌+◌, ◌-◌, ◌*◌, ◌/◌, ◌%◌, ◌≤◌, ◌<◌, ◌≡◌, refl, ◌⊎◌, ◌&&◌, ltb, leb, ◌==◌,
  if◌then◌else◌, arith,
}
use cpp.Prelude.Int.{pos, sub_ℕ-eq_zero}
use cpp.Strings.{Bytes, stosb, stosl, splat, memset, memcmp, copy_up, copy_down, memmove, poke}

stosb_lem :
    (m : Bytes) (d c n a : ℕ)
    → stosb m d c n a ≡ (if leb d a && ltb a (d + n) then c % 256 else m a)
unfolding stosb
stosb_lem m d c zero a = ground arith
stosb_lem m d c (suc n) a =
    ground (arith, stosb_lem (λ b. if b == d then c % 256 else m b) (d + 1) c n a)

copy_up_lem :
    (m : Bytes) (d s n a : ℕ)
    → (d ≤ s) ⊎ (s + n ≤ d)
    → copy_up m d s n a ≡ (if leb d a && ltb a (d + n) then m (s + (a - d)) else m a)
unfolding copy_up
copy_up_lem m d s zero a h = ground arith
copy_up_lem m d s (suc n) a h =
    ground (arith, copy_up_lem (λ b. if b == d then m s else m b) (d + 1) (s + 1) n a)

copy_down_lem :
    (m : Bytes) (d s n a : ℕ)
    → s < d
    → copy_down m (d + n) (s + n) n a ≡ (if leb d a && ltb a (d + n) then m (s + (a - d)) else m a)
unfolding copy_down
copy_down_lem m d s zero a h = ground arith
copy_down_lem m d s (suc n) a h =
    ground (arith, copy_down_lem (λ b. if b == d + n then m (s + n) else m b) d s n a)

-- Four bytes at a time, from the word that holds the byte `c` four times.
stosl_lem :
    (m : Bytes) (d c n a : ℕ)
    → c < 256
    → stosl m d (splat c) n a ≡ (if leb d a && ltb a (d + 4 * n) then c else m a)
unfolding stosl splat
stosl_lem m d c zero a h = ground arith
stosl_lem m d c (suc n) a h = ground (
  arith,
  stosl_lem
      (poke
        (poke (poke (poke m d (splat c % 256)) (d + 1) (splat c / 2 ^ 8 % 256)) (d + 2)
          (splat c / 2 ^ 16 % 256))
        (d + 3) (splat c / 2 ^ 24 % 256))
      (d + 4) c n a,
)

-- `memset`, by words or by bytes, sets the bytes of its range to the low byte of `c`, and writes
-- nowhere else.
pub memset_lem :
    (m : Bytes) (dst c n a : ℕ)
    → memset m dst c n a ≡ (if leb dst a && ltb a (dst + n) then c % 256 else m a)
unfolding memset
memset_lem m dst c n a =
    ground (arith, stosb_lem m dst c n a, stosl_lem m dst (c % 256) (n / 4) a (omega arith))

-- `memmove` leaves in the destination what the source held before the call, overlap or not, and
-- writes nowhere else.
pub memmove_lem :
    (m : Bytes) (dst src n a : ℕ)
    → memmove m dst src n a ≡ (if leb dst a && ltb a (dst + n) then m (src + (a - dst)) else m a)
unfolding memmove
memmove_lem m dst src n a = ground (arith, copy_up_lem m dst src n a, copy_down_lem m dst src n a)

equal_of_memcmp : (m : Bytes) (p q n i : ℕ) → memcmp m p q n ≡ pos 0 → i < n → m (p + i) ≡ m (q + i)
unfolding memcmp
equal_of_memcmp m p q zero i e h = elim h [ ]
equal_of_memcmp m p q (suc n) zero e h = ground (arith, sub_ℕ-eq_zero (m p) (m q))
equal_of_memcmp m p q (suc n) (suc i) e h =
    ground (arith, equal_of_memcmp m (p + 1) (q + 1) n i, sub_ℕ-eq_zero (m p) (m q))

memcmp_of_equal :
    (m : Bytes) (p q n : ℕ) → ((i : ℕ) → i < n → m (p + i) ≡ m (q + i)) → memcmp m p q n ≡ pos 0
unfolding memcmp
memcmp_of_equal m p q zero h = refl
memcmp_of_equal m p q (suc n) h =
    ground (arith, h 0, memcmp_of_equal m (p + 1) (q + 1) n (λ i l. ground (arith, h (suc i))))

-- `memcmp` returns 0 exactly when the two ranges hold the same bytes.
pub memcmp_iff :
    (m : Bytes) (v1 v2 n : ℕ)
    → (memcmp m v1 v2 n ≡ pos 0) ↔ ((i : ℕ) → i < n → m (v1 + i) ≡ m (v2 + i))
memcmp_iff m v1 v2 n = (λ e i. equal_of_memcmp m v1 v2 n i e, memcmp_of_equal m v1 v2 n)

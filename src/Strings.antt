-- ===== src/Strings.antt =====
-- OperatingSystem/HW5/string.c over a flat byte memory. An address is a number, and the ranges are
-- those that do not wrap round the top of the address space. A function that writes returns the
-- new memory; the pointer that it returns is its first argument.
pub mod Memory
pub mod Text
mod Tests
use cpp.Prelude.{
  ℕ, zero, suc, ◌+◌, ◌-◌, ◌*◌, ◌/◌, ◌%◌, ◌^◌, ◌&&◌, ltb, ◌==◌, if◌then◌else◌, not, Option, none,
  some,
}
use cpp.Prelude.Int.{ℤ, pos, negsuc, sub_ℕ}

abbrev pub Bytes : Type 0
Bytes = ℕ → ℕ

abbrev pub poke : Bytes → ℕ → ℕ → Bytes
poke m a v = λ b. if b == a then v else m b

-- `rep stosb`: the low byte of `c`, `cnt` times.
pub stosb : Bytes → (addr c cnt : ℕ) → Bytes
stosb m addr c zero = m
stosb m addr c (suc k) = stosb (poke m addr (c % 256)) (addr + 1) c k

-- `rep stosl`: the four bytes of the word `w`, the least significant first, `cnt` times.
pub stosl : Bytes → (addr w cnt : ℕ) → Bytes
stosl m addr w zero = m
stosl m addr w (suc k) =
    stosl
      (poke
        (poke (poke (poke m addr (w % 256)) (addr + 1) (w / 2 ^ 8 % 256)) (addr + 2)
          (w / 2 ^ 16 % 256))
        (addr + 3) (w / 2 ^ 24 % 256))
      (addr + 4) w k

-- The shifted copies of a byte have no bit in common, so `|` is a sum.
pub splat : ℕ → ℕ
splat c = c * 2 ^ 24 + c * 2 ^ 16 + c * 2 ^ 8 + c

pub memset : Bytes → (dst c n : ℕ) → Bytes
memset m dst c n =
    if (dst % 4 == 0) && (n % 4 == 0)
    then stosl m dst (splat (c % 256)) (n / 4)
    else stosb m dst c n

pub memcmp : Bytes → (v1 v2 n : ℕ) → ℤ
memcmp m v1 v2 zero = pos 0
memcmp m v1 v2 (suc n) =
    if not (m v1 == m v2) then sub_ℕ (m v1) (m v2) else memcmp m (v1 + 1) (v2 + 1) n

-- `while(n-- > 0) *d++ = *s++`
pub copy_up : Bytes → (d s n : ℕ) → Bytes
copy_up m d s zero = m
copy_up m d s (suc n) = copy_up (poke m d (m s)) (d + 1) (s + 1) n

-- `while(n-- > 0) *--d = *--s`
pub copy_down : Bytes → (d s n : ℕ) → Bytes
copy_down m d s zero = m
copy_down m d s (suc n) = copy_down (poke m (d - 1) (m (s - 1))) (d - 1) (s - 1) n

pub memmove : Bytes → (dst src n : ℕ) → Bytes
memmove m dst src n =
    if ltb src dst && ltb dst (src + n)
    then copy_down m (dst + n) (src + n) n
    else copy_up m dst src n

pub memcpy : Bytes → (dst src n : ℕ) → Bytes
unfolding memmove
memcpy m dst src n = memmove m dst src n

pub strncmp : Bytes → (p q n : ℕ) → ℤ
strncmp m p q zero = pos 0
strncmp m p q (suc n) =
    if not (m p == 0) && (m p == m q) then strncmp m (p + 1) (q + 1) n else sub_ℕ (m p) (m q)

-- `while(n-- > 0) *s++ = 0`
pub pad : Bytes → (s n : ℕ) → Bytes
pad m s zero = m
pad m s (suc n) = pad (poke m s 0) (s + 1) n

-- The loop that copies and, from the NUL on, the loop that pads.
pub strncpy_loop : Bytes → (s t n : ℕ) → Bytes
strncpy_loop m s t zero = m
strncpy_loop m s t (suc n) =
    if m t == 0
    then pad (poke m s (m t)) (s + 1) n
    else strncpy_loop (poke m s (m t)) (s + 1) (t + 1) n

pub strncpy : Bytes → (s t : ℕ) → ℤ → Bytes
unfolding strncpy_loop
strncpy m s t (pos n) = strncpy_loop m s t n
strncpy m s t (negsuc n) = m

-- The loop of `safestrcpy`, with the value of `n` after `--n`, and the write behind it.
pub safestrcpy_loop : Bytes → (s t n : ℕ) → Bytes
safestrcpy_loop m s t zero = poke m s 0
safestrcpy_loop m s t (suc n) =
    let rest = safestrcpy_loop (poke m s (m t)) (s + 1) (t + 1) n in
    if m t == 0 then poke (poke m s (m t)) (s + 1) 0 else rest

pub safestrcpy : Bytes → (s t : ℕ) → ℤ → Bytes
unfolding safestrcpy_loop
safestrcpy m s t (pos zero) = m
safestrcpy m s t (pos (suc n)) = safestrcpy_loop m s t n
safestrcpy m s t (negsuc n) = m

-- On fuel: without a NUL the loop of the source runs on.
pub strlen_loop : ℕ → Bytes → (s n : ℕ) → Option ℕ
strlen_loop zero m s n = none
strlen_loop (suc f) m s n =
    let rest = strlen_loop f m s (n + 1) in if m (s + n) == 0 then some n else rest

pub strlen : ℕ → Bytes → ℕ → Option ℕ
unfolding strlen_loop
strlen f m s = strlen_loop f m s 0

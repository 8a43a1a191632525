-- ===== src/Ulib.antt =====
-- The library of the user programs in OperatingSystem/HW5: strings and numbers in ulib.c, and the
-- printing of a number in printf.c. A loop that looks for the end of a string is on fuel: `none` says
-- that it is used up, where the source reads on.
pub mod Print
mod Tests
use cpp.Prelude.{
  ℕ, zero, suc, Bool, true, false, ◌+◌, ◌-◌, ◌*◌, ◌/◌, ◌%◌, ◌^◌, ltb, leb, ◌==◌, ◌&&◌,
  if◌then◌else◌, Option, none, some, List, [], ◌∷◌,
}
use cpp.Prelude.Int.{ℤ, pos, negsuc}
use cpp.Strings.{Bytes, poke}

pub strcpy : (fuel : ℕ) → Bytes → (s t : ℕ) → Option Bytes
strcpy zero m s t = none
strcpy (suc fuel) m s t =
    let m' : Bytes = poke m s (m t) in
    let rest : Option Bytes = strcpy fuel m' (s + 1) (t + 1) in if m t == 0 then some m' else rest

-- The difference of two bytes.
pub minus_byte : ℕ → ℕ → ℤ
minus_byte a b = if leb b a then pos (a - b) else negsuc (b - a - 1)

pub strcmp : (fuel : ℕ) → Bytes → (p q : ℕ) → Option ℤ
unfolding minus_byte
strcmp zero m p q = none
strcmp (suc fuel) m p q =
    let rest : Option ℤ = strcmp fuel m (p + 1) (q + 1) in
    if m p == 0
    then some (minus_byte (m p) (m q))
    else if m p == m q
    then rest
    else some (minus_byte (m p) (m q))

-- The address of the first byte `c`, 0 if there is none.
pub strchr : (fuel : ℕ) → Bytes → (s c : ℕ) → Option ℕ
strchr zero m s c = none
strchr (suc fuel) m s c =
    let rest : Option ℕ = strchr fuel m (s + 1) c in
    if m s == 0 then some 0 else if m s == c then some s else rest

-- `memmove` for `n` bytes; it copies upwards whatever the overlap.
pub move : Bytes → (dst src n : ℕ) → Bytes
move m dst src zero = m
move m dst src (suc n) = move (poke m dst (m src)) (dst + 1) (src + 1) n

-- `'0' <= c && c <= '9'`
abbrev pub is_digit : ℕ → Bool
is_digit c = leb b'0' c && leb c b'9'

-- The loop of `atoi`, with the bits of the int `n`.
pub atoi_from : (fuel : ℕ) → Bytes → (s n : ℕ) → Option ℕ
atoi_from zero m s n = none
atoi_from (suc fuel) m s n =
    let rest : Option ℕ = atoi_from fuel m (s + 1) ((n * 10 + m s - b'0') % 2 ^ 32) in
    if is_digit (m s) then rest else some n

pub atoi : (fuel : ℕ) → Bytes → (s : ℕ) → Option ℕ
atoi fuel m s = atoi_from fuel m s 0

-- `digits[d]`, of "0123456789ABCDEF"
abbrev pub digit : ℕ → ℕ
digit d = if ltb d 10 then b'0' + d else b'A' + (d - 10)

-- The first loop of `printint`, at most `fuel` rounds; `buf` has the last byte first, which is the order
-- in which the second loop writes it.
pub digits_from : (fuel base x : ℕ) → (buf : List ℕ) → List ℕ
digits_from zero base x buf = buf
digits_from (suc fuel) base x buf =
    let rest : List ℕ = digits_from fuel base (x / base) (digit (x % base) ∷ buf) in
    if x / base == 0 then digit (x % base) ∷ buf else rest

-- The bytes that `printint` writes. A round makes `x` smaller, so that `x + 1` rounds are enough.
pub printint : ℤ → (base : ℕ) → (sgn : Bool) → List ℕ
printint (pos x) base sgn = digits_from (x + 1) base x []
printint (negsuc n) base true = b'-' ∷ digits_from (n + 2) base (n + 1) []
printint (negsuc n) base false = digits_from (2 ^ 32) base (2 ^ 32 - 1 - n) []

-- ===== src/Strings/Text.antt =====
-- The functions of string.c that stop at a NUL: strncmp, strncpy, safestrcpy and strlen.
use cpp.Prelude.{
  ◌||◌, min, ◌↔◌, ℕ, zero, suc, ◌+◌, ◌-◌, ◌≤◌, ◌<◌, ◌≡◌, ◌≢◌, refl, ◌⊎◌, ◌&&◌, ltb, leb, ◌==◌,
  if◌then◌else◌, arith, trichotomy, inl, inr, Bool-cases, some,
}
use cpp.Prelude.Int.{pos, sub_ℕ-eq_zero}
use cpp.Strings.{
  Bytes, poke, strncmp, pad, strncpy_loop, strncpy, safestrcpy_loop, safestrcpy, strlen_loop,
  strlen,
}

-- The string at `s` has length `k`: its first NUL is the byte `s + k`.
abbrev pub Terminated : Bytes → (s k : ℕ) → Type 0
Terminated m s k = (m (s + k) ≡ 0) × ((i : ℕ) → i < k → m (s + i) ≢ 0)

strlen_loop_lem :
    (f : ℕ) (m : Bytes) (s n k : ℕ)
    → m (s + (n + k)) ≡ 0
    → ((i : ℕ) → i < k → m (s + (n + i)) ≢ 0)
    → k < f
    → strlen_loop f m s n ≡ some (n + k)
unfolding strlen_loop
strlen_loop_lem zero m s n k e h l = elim l [ ]
strlen_loop_lem (suc f) m s n zero e h l = ground arith
strlen_loop_lem (suc f) m s n (suc k) e h l =
    ground (
      arith,
      h 0,
      strlen_loop_lem f m s (n + 1) k (ground arith) (λ i b. ground (arith, h (suc i))),
    )

-- `strlen` returns the length of a terminated string, given more fuel than the length.
pub strlen_lem : (f : ℕ) (m : Bytes) (s k : ℕ) → Terminated m s k → k < f → strlen f m s ≡ some k
unfolding strlen
strlen_lem f m s k t l =
    ground (arith, strlen_loop_lem f m s 0 k (ground arith) (λ i b. ground (arith, t.1 i)))

strncmp_prefix :
    (m : Bytes) (p q n i : ℕ)
    → strncmp m p q n ≡ pos 0
    → i < n
    → ((j : ℕ) → j < i → m (p + j) ≢ 0)
    → m (p + i) ≡ m (q + i)
unfolding strncmp
strncmp_prefix m p q zero i e h b = elim h [ ]
strncmp_prefix m p q (suc n) zero e h b = ground (arith, sub_ℕ-eq_zero (m p) (m q))
strncmp_prefix m p q (suc n) (suc i) e h b = ground (
  arith,
  sub_ℕ-eq_zero (m p) (m q),
  b 0,
  strncmp_prefix m (p + 1) (q + 1) n i _ _ (λ j l. ground (arith, b (suc j))),
)

strncmp_of_prefix :
    (m : Bytes) (p q n : ℕ)
    → ((i : ℕ) → i < n → ((j : ℕ) → j < i → m (p + j) ≢ 0) → m (p + i) ≡ m (q + i))
    → strncmp m p q n ≡ pos 0
unfolding strncmp
strncmp_of_prefix m p q zero h = refl
strncmp_of_prefix m p q (suc n) h = elim (Bool-cases (m p == 0)) [
  | inl e ↦ ground (arith, first)
  | inr ne ↦ ground (
    arith,
    first,
    strncmp_of_prefix m (p + 1) (q + 1) n λ i l b. ground (
      arith,
      h (suc i) (omega arith) (λ j k.
          elim j as (λ j. j < suc i → m (p + j) ≢ 0) [
            | zero ↦ λ _. ground arith
            | suc j ↦ λ k. ground (arith, b j)
          ]
            k),
    ),
  )
]
  where
    first : m p ≡ m q
    first = ground (arith, h 0 (omega arith) (λ j l. elim l [ ]))

-- `strncmp` returns 0 exactly when the strings agree on the first `n` bytes, or up to and at a NUL
-- that comes before.
pub strncmp_iff :
    (m : Bytes) (p q n : ℕ)
    → (strncmp m p q n ≡ pos 0)
      ↔ ((i : ℕ) → i < n → ((j : ℕ) → j < i → m (p + j) ≢ 0) → m (p + i) ≡ m (q + i))
strncmp_iff m p q n = (λ e i. strncmp_prefix m p q n i e, strncmp_of_prefix m p q n)

pad_lem : (m : Bytes) (s n a : ℕ) → pad m s n a ≡ (if leb s a && ltb a (s + n) then 0 else m a)
unfolding pad
pad_lem m s zero a = ground arith
pad_lem m s (suc n) a = ground (arith, pad_lem (poke m s 0) (s + 1) n a)

module _ (m₀ : Bytes) where
  -- Past the string's NUL, or at it, the copy holds 0.
  strncpy_copy :
      (m : Bytes) (s t n k i : ℕ)
      → ((j : ℕ) → j ≤ k → m (t + j) ≡ m₀ (t + j))
      → Terminated m₀ t k
      → (s + n ≤ t) ⊎ (t + k < s)
      → strncpy_loop m s t n i ≡ (
          if leb s i && ltb i (s + n) then (if ltb (i - s) k then m₀ (t + (i - s)) else 0) else m i)
  unfolding strncpy_loop
  strncpy_copy m s t zero k i same e apart = ground arith
  strncpy_copy m s t (suc n) zero i same e apart =
      ground (arith, same 0, pad_lem (poke m s (m t)) (s + 1) n i)
  strncpy_copy m s t (suc n) (suc k) i same e apart = ground (
    arith,
    same 0,
    e.1 0,
    strncpy_copy (poke m s (m t)) (s + 1) (t + 1) n k i (λ j l. ground (arith, same (suc j)))
        (ground arith, λ j l. ground (arith, e.1 (suc j))) (omega arith),
  )

-- `strncpy` writes the `n` bytes at `s` and no others: the string at `t`, then zeros. The string's
-- bytes, its NUL included, lie apart from the buffer.
pub strncpy_lem :
    (m : Bytes) (s t n k a : ℕ)
    → Terminated m t k
    → (s + n ≤ t) ⊎ (t + k < s)
    → strncpy m s t (pos n) a
      ≡ (if leb s a && ltb a (s + n) then (if ltb (a - s) k then m (t + (a - s)) else 0) else m a)
unfolding strncpy
strncpy_lem m s t n k a e apart = strncpy_copy m m s t n k a (λ j l. refl) e apart

module _ (m₀ : Bytes) where
  safestrcpy_copy :
      (m : Bytes) (s t n k a : ℕ)
      → ((j : ℕ) → j ≤ k → m (t + j) ≡ m₀ (t + j))
      → Terminated m₀ t k
      → (s + n < t) ⊎ (t + k < s)
      → safestrcpy_loop m s t n a ≡ (
          if ltb a s
          then m a
          else if ltb (a - s) (min n k)
          then m₀ (t + (a - s))
          else if (a == s + min n k) || ltb k n && (a == s + k + 1)
          then 0
          else m a)
  unfolding safestrcpy_loop
  safestrcpy_copy m s t zero k a same e apart = ground arith
  safestrcpy_copy m s t (suc n) zero a same e apart = ground (arith, same 0)
  safestrcpy_copy m s t (suc n) (suc k) a same e apart =
      let m' : Bytes = poke m s (m t) in
      let rest =
        safestrcpy_copy m' (s + 1) (t + 1) n k a (λ j l. ground (arith, same (suc j)))
          (ground arith, λ j l. ground (arith, e.1 (suc j))) (omega arith) in
      elim (trichotomy a s) [
        | inl below ↦ ground (arith, e.1 0, same 0)
        | inr (inl at) ↦ ground (arith, e.1 0, same 0)
        | inr (inr above) ↦ ground (arith, e.1 0, same 0)
      ]

-- `safestrcpy` into `n + 1` bytes copies the first `n` bytes of the string or, if it is shorter,
-- all of it, puts a NUL behind them (two where there is room), and writes nowhere else. The
-- string's bytes, its NUL included, lie apart from the buffer.
pub safestrcpy_lem :
    (m : Bytes) (s t n k a : ℕ)
    → Terminated m t k
    → (s + n < t) ⊎ (t + k < s)
    → safestrcpy m s t (pos (suc n)) a ≡ (
        if ltb a s
        then m a
        else if ltb (a - s) (min n k)
        then m (t + (a - s))
        else if (a == s + min n k) || ltb k n && (a == s + k + 1)
        then 0
        else m a)
unfolding safestrcpy
safestrcpy_lem m s t n k a e apart = safestrcpy_copy m m s t n k a (λ j l. refl) e apart

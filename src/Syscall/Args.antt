-- ===== src/Syscall/Args.antt =====
-- What the checks of the arguments guarantee.
use cpp.Prelude.{
  ℕ, zero, suc, ◌+◌, ◌-◌, ◌^◌, ◌≤◌, ◌<◌, ◌≡◌, ◌≢◌, ◌⊎◌, ◌↔◌, refl, subst, inl, inr, leb, ◌==◌, none,
  some, arith, Bool-cases, Option-cases,
}
use cpp.Prelude.Int.{pos, negsuc}
use cpp.Strings.{Bytes}
use cpp.Syscall.{User, scan_string, fetchstr, argint, argptr, argstr}

-- A string of length `len` that ends within the memory of the process.
abbrev pub StringAt : User → (addr len : ℕ) → Type 0
StringAt u addr len =
    (addr + len < u.sz) × (u.mem (addr + len) ≡ 0) × ((j : ℕ) → j < len → u.mem (addr + j) ≢ 0)

scan_string_lem :
    (m : Bytes) (s n len : ℕ)
    → ((d : ℕ) × (scan_string m s n len ≡ some (len + d))
        × (d < n)
        × (m (s + d) ≡ 0)
        × ((j : ℕ) → j < d → m (s + j) ≢ 0))
      ⊎ ((scan_string m s n len ≡ none) × ((j : ℕ) → j < n → m (s + j) ≢ 0))
unfolding scan_string
scan_string_lem m s zero len = inr (refl, λ j h. absurd (omega arith))
scan_string_lem m s (suc n) len = elim (Bool-cases (m s == 0)) [
  | inl ends ↦ inl (0, ground arith, omega arith, ground arith, λ j h. absurd (omega arith))
  | inr on ↦
      let first : m s ≢ 0 = ground arith in
      elim (scan_string_lem m (s + 1) n (len + 1)) [
        | inl (d, e, lt, at, before) ↦ inl (
          suc d,
          ground arith,
          omega arith,
          subst (λ a. m a ≡ 0) (omega arith) at,
          earlier first d before,
        )
        | inr (e, none_there) ↦ inr (ground arith, earlier first n none_there)
      ]
]
  where
    earlier :
        m s ≢ 0
        → (d : ℕ) → ((j : ℕ) → j < d → m (s + 1 + j) ≢ 0)
        → (j : ℕ) → j < suc d
        → m (s + j) ≢ 0
    earlier first d before j h = elim (Bool-cases (j == 0)) [
      | inl now ↦ subst (λ a. m a ≢ 0) (ground arith) first
      | inr later ↦ subst (λ a. m a ≢ 0) (ground arith) (before (j - 1) (ground arith))
    ]

-- `fetchstr` finds the string at an address, which ends within the memory of the process, or fails
-- if there is none.
pub fetchstr_lem :
    (u : User) (addr : ℕ)
    → ((len : ℕ) × (fetchstr u addr ≡ some len) × StringAt u addr len)
      ⊎ ((fetchstr u addr ≡ none) × ((j : ℕ) → addr + j < u.sz → u.mem (addr + j) ≢ 0))
unfolding fetchstr
fetchstr_lem u addr = elim (Bool-cases (leb u.sz addr)) [
  | inl beyond ↦ inr (ground arith, λ j h. absurd (ground arith))
  | inr inside ↦ elim (scan_string_lem u.mem addr (u.sz - addr) 0) [
    | inl (d, e, lt, at, before) ↦ inl (d, ground arith, (ground arith, at, before))
    | inr (e, none_there) ↦ inr (ground arith, λ j h. none_there j (omega (arith, h)))
  ]
]

-- Where the memory of the process ends below the kernel, for a size that is not negative `argptr`
-- gives a pointer exactly when it is the argument and the whole block lies in that memory; and for
-- a negative size it gives none.
pub argptr_lem :
    (u : User) (n size i m : ℕ)
    → u.sz ≤ 2 ^ 31
    → size < 2 ^ 31
    → ((argptr u n (pos size) ≡ some i) ↔ ((argint u n ≡ some i) × (i < u.sz) × (i + size ≤ u.sz)))
      × (argptr u n (negsuc m) ≡ none)
unfolding argptr
argptr_lem u n size i m user small = elim (Option-cases (argint u n)) [
  | inl bad ↦ ((λ e. absurd (ground arith), λ (got, lt, le). absurd (ground arith)), ground arith)
  | inr (a, got) ↦ (
    (
      λ e.
          let inside : a < u.sz = ground arith in
          let same : a ≡ i = ground arith in
          (ground arith, omega (arith, inside, same), ground arith),
      λ (got', lt, le). ground arith,
    ),
    ground arith,
  )
]

-- `argstr` gives a pointer only to a string that ends within the memory of the process.
argstr_lem :
    (u : User) (n : ℕ) {addr len : ℕ}
    → argstr u n ≡ some (addr, len)
    → (argint u n ≡ some addr) × StringAt u addr len
unfolding argstr
argstr_lem u n {addr} {len} e = elim (Option-cases (argint u n)) [
  | inl bad ↦ absurd (ground arith)
  | inr (a, got) ↦ elim (fetchstr_lem u a) [
    | inr (f, absent) ↦ absurd (ground arith)
    | inl (l, f, there) ↦
        let same_addr : a ≡ addr = ground arith in
        let same_len : l ≡ len = ground arith in
        (
          ground arith,
          subst (λ x. StringAt u x len) same_addr (subst (StringAt u a) same_len there),
        )
  ]
]

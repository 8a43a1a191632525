-- ===== src/Sysfile/Exec.antt =====
-- sys_exec in OperatingSystem/HW5/sysfile.c: the path and the vector of arguments in the memory of
-- the process. exec is a parameter.
use cpp.Prelude.{
  ℕ, zero, suc, ◌+◌, ◌%◌, ◌^◌, ◌≡◌, ◌≢◌, ◌<◌, ◌↔◌, inl, inr, subst, ◌==◌, if◌then◌else◌, Option,
  none, some, List, [], ◌∷◌, length, arith, Option-cases,
}
use cpp.Prelude.Int.{ℤ, minus_one}
use cpp.File.{F, pure}
use cpp.Sysfile.{Sys}
use cpp.Syscall.{User, fetchint, fetchstr, argint, argstr}
use cpp.Syscall.Args.{StringAt, fetchstr_lem}

abbrev pub maxarg : ℕ
maxarg = 32

-- The loop of `sys_exec` with room for `n` pointers more, where `a` is `uargv + 4 * i`: the pointers
-- in front of the null pointer.
pub argv_from : (n : ℕ) → User → (a : ℕ) → Option (List ℕ)
argv_from zero u a = none
argv_from (suc n) u a =
    let rest : Option (List ℕ) = argv_from n u (a + 4) in
    elim (fetchint u (a % 2 ^ 32)) [
      | none ↦ none
      | some w ↦ if w == 0 then some [] else elim (fetchstr u w) [
        | none ↦ none
        | some len ↦ elim rest [ none ↦ none | some ws ↦ some (w ∷ ws) ]
      ]
    ]

unfoldable pub sys_exec : ((path : ℕ) → List ℕ → F Sys ℤ) → User → F Sys ℤ
sys_exec exec u = elim (argstr u 0) [
  | none ↦ pure minus_one
  | some (path, len) ↦ elim (argint u 1) [
    | none ↦ pure minus_one
    | some uargv ↦ elim (argv_from maxarg u uargv) [
      | none ↦ pure minus_one
      | some argv ↦ exec path argv
    ]
  ]
]

-- The words from `a` on in the memory of the process are the pointers `ws` and a null pointer; they
-- point to strings that end in its memory.
pub IsVector : User → (a : ℕ) → List ℕ → Type 0
IsVector u a [] = fetchint u (a % 2 ^ 32) ≡ some 0
IsVector u a (w ∷ ws) =
    (fetchint u (a % 2 ^ 32) ≡ some w)
    × (w ≢ 0)
    × ((len : ℕ) × StringAt u w len)
    × IsVector u (a + 4) ws

string-fetchstr : (u : User) (w len : ℕ) → StringAt u w len → (l : ℕ) × (fetchstr u w ≡ some l)
string-fetchstr u w len s = elim (fetchstr_lem u w) [
  | inl (l, e, at) ↦ (l, e)
  | inr (e, absent) ↦ absurd (absent len s.0 s.1)
]

fetchstr-string : (u : User) (w l : ℕ) → fetchstr u w ≡ some l → (len : ℕ) × StringAt u w len
fetchstr-string u w l f = elim (fetchstr_lem u w) [
  | inl (len, e, at) ↦ (len, at)
  | inr (e, absent) ↦ absurd (ground arith)
]

argv-parts :
    (n : ℕ) (u : User) (a w : ℕ) (ws : List ℕ)
    → argv_from (suc n) u a ≡ some (w ∷ ws)
    → (fetchint u (a % 2 ^ 32) ≡ some w)
      × (w ≢ 0)
      × ((l : ℕ) × (fetchstr u w ≡ some l))
      × (argv_from n u (a + 4) ≡ some ws)
unfolding argv_from
argv-parts n u a w ws e = elim (Option-cases (fetchint u (a % 2 ^ 32))) [
  | inl bad ↦ absurd (ground arith)
  | inr (w', got) ↦ elim (Option-cases (argv_from n u (a + 4))) [
    | inl bad ↦ absurd (ground arith)
    | inr (ws', rest) ↦ elim (Option-cases (fetchstr u w')) [
      | inl bad ↦ absurd (ground arith)
      | inr (l, f) ↦
          let same : w' ≡ w = ground arith in
          (ground arith, ground arith, (l, subst (λ x. fetchstr u x ≡ some l) same f), ground arith)
    ]
  ]
]

argv-IsVector :
    (n : ℕ) (u : User) (a : ℕ) (ws : List ℕ)
    → argv_from n u a ≡ some ws
    → (length ws < n) × IsVector u a ws
unfolding argv_from IsVector
argv-IsVector zero u a ws e = absurd (ground arith)
argv-IsVector (suc n) u a [] e = (omega arith, ground arith)
argv-IsVector (suc n) u a (w ∷ ws) e =
    let parts = argv-parts n u a w ws e in
    let rest = argv-IsVector n u (a + 4) ws parts.3 in
    (ground arith, (parts.0, parts.1, fetchstr-string u w parts.2.0 parts.2.1, rest.1))

IsVector-argv :
    (n : ℕ) (u : User) (a : ℕ) (ws : List ℕ)
    → length ws < n
    → IsVector u a ws
    → argv_from n u a ≡ some ws
unfolding argv_from IsVector
IsVector-argv zero u a ws l h = absurd (omega arith)
IsVector-argv (suc n) u a [] l h = ground arith
IsVector-argv (suc n) u a (w ∷ ws) l h =
    let found = string-fetchstr u w h.2.0 h.2.1 in
    let rest = IsVector-argv n u (a + 4) ws (ground arith) h.3 in ground arith

-- The loop of `sys_exec` succeeds with the pointers `ws` exactly where they are fewer than 32, the words
-- at the address of the vector are these and then a null pointer, all inside the memory of the process,
-- and each points to a string that ends in that memory.
pub argv_lem :
    (u : User) (uargv : ℕ) (ws : List ℕ)
    → (argv_from maxarg u uargv ≡ some ws) ↔ ((length ws < maxarg) × IsVector u uargv ws)
argv_lem u uargv ws =
    (λ e. argv-IsVector maxarg u uargv ws e, λ h. IsVector-argv maxarg u uargv ws h.0 h.1)

-- ===== src/Fs/Path/Elements.antt =====
-- skipelem of fs.c takes the first element off a path.
use cpp.Prelude.{
  ℕ, zero, suc, ◌+◌, ◌-◌, ◌≤◌, ◌<◌, ◌≡◌, ◌≢◌, ◌⊎◌, refl, sym, ap, subst, ◌∙◌, leb, ◌==◌,
  if◌then◌else◌, List, [], ◌∷◌, length, get_or, arith, Bool-cases, ==→eq, inl, inr, some, none,
}
use cpp.Strings.{Bytes}
use cpp.Strings.Memory.{memmove_lem}
use cpp.Fs.Dir.{dirsiz}
use cpp.Fs.Path.{skip_slashes, skip_name, put_name, skipelem}

-- The string at `p`, without its NUL.
abbrev pub Holds : Bytes → ℕ → List ℕ → Type 0
Holds m p [] = m p ≡ 0
Holds m p (c ∷ cs) = (m p ≡ c) × (c ≢ 0) × Holds m (p + 1) cs

-- The text behind the slashes at the front, the first name, and the text behind it.
pub drop_slashes : List ℕ → List ℕ
drop_slashes [] = []
drop_slashes (c ∷ cs) = let rest = drop_slashes cs in if c == b'/' then rest else c ∷ cs

pub take_name : List ℕ → List ℕ
take_name [] = []
take_name (c ∷ cs) = let rest = take_name cs in if c == b'/' then [] else c ∷ rest

pub drop_name : List ℕ → List ℕ
drop_name [] = []
drop_name (c ∷ cs) = let rest = drop_name cs in if c == b'/' then c ∷ cs else rest

abbrev Ends : Bytes → (p : ℕ) → List ℕ → (q : ℕ) → List ℕ → Type 0
Ends m p cs q rest = Holds m q rest × (q + length rest ≡ p + length cs)

skip_slashes_lem :
    (fuel : ℕ) (m : Bytes) (p : ℕ) (cs : List ℕ)
    → Holds m p cs
    → length cs < fuel
    → (q : ℕ) × (skip_slashes fuel m p ≡ some q) × Ends m p cs q (drop_slashes cs)
unfolding skip_slashes drop_slashes
skip_slashes_lem zero m p cs h enough = absurd (omega arith)
skip_slashes_lem (suc fuel) m p [] h enough = (p, ground arith, (h, refl))
skip_slashes_lem (suc fuel) m p (c ∷ cs) h enough = elim (Bool-cases (c == b'/')) [
  | inl slash ↦
      let (q, e, ends) = skip_slashes_lem fuel m (p + 1) cs h.2 (omega arith) in
      (q, ground (arith, e), rw slash (ends.0, omega (arith, ends.1)))
  | inr other ↦ (p, ground arith, rw other (h, refl))
]

skip_name_lem :
    (fuel : ℕ) (m : Bytes) (p : ℕ) (cs : List ℕ)
    → Holds m p cs
    → length cs < fuel
    → (q : ℕ) × (skip_name fuel m p ≡ some q)
      × Ends m p cs q (drop_name cs)
      × (p + length (take_name cs) ≡ q)
      × ((j : ℕ) → j < length (take_name cs) → m (p + j) ≡ get_or (take_name cs) j 0)
unfolding skip_name drop_name take_name
skip_name_lem zero m p cs h enough = absurd (omega arith)
skip_name_lem (suc fuel) m p [] h enough =
    (p, ground arith, (h, refl), omega arith, λ j lt. absurd (omega arith))
skip_name_lem (suc fuel) m p (c ∷ cs) h enough = elim (Bool-cases (c == b'/')) [
  | inl slash ↦ (
    p,
    ground arith,
    rw slash (h, refl),
    rw slash (omega arith),
    rw slash (λ j lt. absurd (omega arith)),
  )
  | inr other ↦
      let (q, e, ends, len, bytes) = skip_name_lem fuel m (p + 1) cs h.2 (omega arith) in
      (
        q,
        ground (arith, e),
        rw other (ends.0, omega (arith, ends.1)),
        rw other (omega (arith, len)),
        rw other (λ j. named j h.0 bytes),
      )
]
  where
    named :
        (j : ℕ)
        → m p ≡ c
        → ((j : ℕ) → j < length (take_name cs) → m (p + 1 + j) ≡ get_or (take_name cs) j 0)
        → j < length (c ∷ take_name cs)
        → m (p + j) ≡ get_or (c ∷ take_name cs) j 0
    named zero e bytes lt = let at : p + 0 ≡ p = omega arith in ap m at ∙ e
    named (suc j) e bytes lt =
        let at : p + suc j ≡ p + 1 + j = omega arith in ap m at ∙ bytes j (omega arith)

Holds-frame :
    (m m' : Bytes) (p : ℕ) (cs : List ℕ)
    → ((a : ℕ) → p ≤ a → a ≤ p + length cs → m' a ≡ m a)
    → Holds m p cs
    → Holds m' p cs
Holds-frame m m' p [] same h = same p (omega arith) (omega arith) ∙ h
Holds-frame m m' p (c ∷ cs) same h = (
  same p (omega arith) (omega arith) ∙ h.0,
  h.1,
  Holds-frame m m' (p + 1) cs (λ a lo hi. same a (omega arith) (omega arith)) h.2,
)

get_or_end : (xs : List ℕ) → get_or xs (length xs) 0 ≡ 0
get_or_end [] = refl
get_or_end (x ∷ xs) = get_or_end xs

put_name_frame :
    (m : Bytes) (name s len a : ℕ)
    → (a < name) ⊎ (name + dirsiz ≤ a)
    → put_name m name s len a ≡ m a
unfolding put_name
put_name_frame m name s len a out =
    ground (arith, memmove_lem m name s dirsiz a, memmove_lem m name s len a)

put_name_lem :
    (m : Bytes) (name s : ℕ) (elem : List ℕ)
    → ((j : ℕ) → j < length elem → m (s + j) ≡ get_or elem j 0)
    → (j : ℕ) → j < dirsiz
    → j ≤ length elem
    → put_name m name s (length elem) (name + j) ≡ get_or elem j 0
unfolding put_name
put_name_lem m name s elem bytes j short le =
    let place : s + (name + j - name) ≡ s + j = omega arith in
    elim (Bool-cases (leb dirsiz (length elem))) [
      | inl long ↦
          let copied = memmove_lem m name s dirsiz (name + j) in
          ground (arith, copied, ap m place, bytes j (ground arith))
      | inr fits ↦ elim (Bool-cases (j == length elem)) [
        | inl end ↦
            ground (arith, ap (λ k. get_or elem k 0) (==→eq j (length elem) end), get_or_end elem)
        | inr inside ↦
            let copied = memmove_lem m name s (length elem) (name + j) in
            ground (arith, copied, ap m place, bytes j (ground arith))
      ]
    ]

take_drop : (cs : List ℕ) → length (take_name cs) + length (drop_name cs) ≡ length cs
unfolding take_name drop_name
take_drop [] = refl
take_drop (c ∷ cs) = ground (arith, take_drop cs)

drop_slashes_le : (cs : List ℕ) → length (drop_slashes cs) ≤ length cs
unfolding drop_slashes
drop_slashes_le [] = omega arith
drop_slashes_le (c ∷ cs) = ground (arith, drop_slashes_le cs)

-- Behind the slashes a name stands, or the end.
drop_slashes-name :
    (cs : List ℕ) → (drop_slashes cs ≡ []) ⊎ (0 < length (take_name (drop_slashes cs)))
unfolding drop_slashes take_name
drop_slashes-name [] = inl refl
drop_slashes-name (c ∷ cs) = elim (Bool-cases (c == b'/')) [
  | inl slash ↦ rw slash (drop_slashes-name cs)
  | inr other ↦ inr (rw (other, other) (omega arith))
]

Holds-head : (m : Bytes) (p : ℕ) (cs : List ℕ) → Holds m p cs → cs ≢ [] → m p ≢ 0
Holds-head m p [] h ne z = ne refl
Holds-head m p (c ∷ cs) h ne z = h.1 (sym h.0 ∙ z)

skipelem_step :
    (fuel : ℕ) (m : Bytes) (path name s e p : ℕ)
    → skip_slashes fuel m path ≡ some s
    → m s ≢ 0
    → skip_name fuel m s ≡ some e
    → skip_slashes fuel (put_name m name s (e - s)) e ≡ some p
    → skipelem fuel m path name ≡ some (some p, put_name m name s (e - s))
unfolding skipelem
skipelem_step fuel m path name s e p a b c d = ground arith

skipelem_end :
    (fuel : ℕ) (m : Bytes) (path name s : ℕ)
    → skip_slashes fuel m path ≡ some s
    → m s ≡ 0
    → skipelem fuel m path name ≡ some (none, m)
unfolding skipelem
skipelem_end fuel m path name s a b = ground arith

-- The path that skipelem leaves: it holds what stands behind the first name, and the array holds
-- the name, cut off behind 14 bytes or ended with NUL.
pub record Took (m : Bytes) (path name : ℕ) (cs : List ℕ) (p : ℕ) (m' : Bytes) : Type 0 where
  pub rest : Holds m' p (drop_slashes (drop_name (drop_slashes cs)))
  pub shorter : length (drop_slashes (drop_name (drop_slashes cs))) < length cs
  pub elem :
      (j : ℕ)
      → j < dirsiz
      → j ≤ length (take_name (drop_slashes cs))
      → m' (name + j) ≡ get_or (take_name (drop_slashes cs)) j 0
  pub frame : (a : ℕ) → (a < name) ⊎ (name + dirsiz ≤ a) → m' a ≡ m a

-- With a round for each byte of the path, skipelem ends. Where the path has a name, it returns what
-- stands behind the name and the slashes after it, which is shorter than the path, and the array,
-- which does not overlap the path, holds the name; no other byte changes. Where the path has none,
-- it returns 0 and changes nothing.
pub skipelem_lem :
    (fuel : ℕ) (m : Bytes) (path name : ℕ) (cs : List ℕ)
    → Holds m path cs
    → length cs < fuel
    → (name + dirsiz ≤ path) ⊎ (path + length cs < name)
    → ((drop_slashes cs ≡ []) × (skipelem fuel m path name ≡ some (none, m)))
      ⊎ ((p : ℕ) × (m' : Bytes) × (skipelem fuel m path name ≡ some (some p, m'))
          × Took m path name cs p m')
skipelem_lem fuel m path name cs h enough apart =
    let (s, e, (h', len)) = skip_slashes_lem fuel m path cs h enough in
    let short = drop_slashes_le cs in
    elim (drop_slashes-name cs) [
      | inl nothing ↦
          inl (nothing, skipelem_end fuel m path name s e (subst (λ t. Holds m s t) nothing h'))
      | inr named ↦
          let ds : List ℕ = drop_slashes cs in
          let (q, e', (h'', len'), width, bytes) =
            skip_name_lem fuel m s ds h' (omega (arith, short)) in
          let w : q - s ≡ length (take_name ds) = omega (arith, width) in
          let m' : Bytes = put_name m name s (q - s) in
          let both = take_drop ds in
          let kept : Holds m' q (drop_name ds) =
            Holds-frame m m' q (drop_name ds)
              (λ a lo hi. put_name_frame m name s (q - s) a (ground arith)) h'' in
          let (p, e'', (h₃, len₃)) =
            skip_slashes_lem fuel m' q (drop_name ds) kept (omega (arith, both, short)) in
          let some_byte : ds ≢ [] = λ z. omega (arith, both, ap length z) in
          inr (
            p,
            m',
            skipelem_step fuel m path name s q p e (Holds-head m s ds h' some_byte) e' e'',
            record {
              rest = h₃;
              shorter = omega (arith, drop_slashes_le (drop_name ds), both, short);
              elem = λ j lt le.
                  subst (λ n. put_name m name s n (name + j) ≡ get_or (take_name ds) j 0) (sym w)
                    (put_name_lem m name s (take_name ds) bytes j lt le);
              frame = λ a out. put_name_frame m name s (q - s) a out;
            },
          )
    ]

-- ===== src/Ulib/Print.antt =====
-- What printint of OperatingSystem/HW5/printf.c writes, atoi of ulib.c reads.
use cpp.Prelude.{
  ℕ, zero, suc, ◌+◌, ◌-◌, ◌*◌, ◌/◌, ◌%◌, ◌^◌, ◌≡◌, ◌≤◌, ◌<◌, sym, ap, subst, true, false, Bool,
  ◌==◌, some, List, [], ◌∷◌, length, arith, ◌∙◌, Bool-cases, inl, inr,
}
use cpp.Prelude.Int.{pos}
use cpp.Strings.{Bytes}
use cpp.Ulib.{digit, is_digit, digits_from, printint, atoi_from, atoi}

-- The bytes `ds` stand at `s`, and behind them is one that is no digit.
unfoldable pub IsAt : Bytes → (s : ℕ) → List ℕ → Type 0
IsAt m s [] = is_digit (m s) ≡ false
IsAt m s (d ∷ ds) = (m s ≡ d) × IsAt m (s + 1) ds

AllDigits : List ℕ → Type 0
AllDigits [] = Unit
AllDigits (d ∷ ds) = (is_digit d ≡ true) × AllDigits ds

-- The number that digits behind `n` make.
value : ℕ → List ℕ → ℕ
value n [] = n
value n (d ∷ ds) = value (n * 10 + d - 48) ds

value-grows : (n : ℕ) (ds : List ℕ) → AllDigits ds → n ≤ value n ds
unfolding value AllDigits
value-grows n [] h = omega arith
value-grows n (d ∷ ds) h = let rest = value-grows (n * 10 + d - 48) ds h.1 in ground (arith, h.0)

last_digit : (x : ℕ) → (is_digit (digit (x % 10)) ≡ true) × (digit (x % 10) ≡ 48 + x % 10)
last_digit x = (ground arith, ground arith)

digit-AllDigits : (x : ℕ) (buf : List ℕ) → AllDigits buf → AllDigits (digit (x % 10) ∷ buf)
unfolding AllDigits
digit-AllDigits x buf h = ((last_digit x).0, h)

value-cons :
    (n x : ℕ) (buf : List ℕ)
    → n * 10 + digit (x % 10) - 48 ≡ x
    → value n (digit (x % 10) ∷ buf) ≡ value x buf
unfolding value
value-cons n x buf e = ap (λ y. value y buf) e

digits_from-last :
    (f x : ℕ) (buf : List ℕ)
    → (x / 10 == 0) ≡ true
    → digits_from (suc f) 10 x buf ≡ digit (x % 10) ∷ buf
unfolding digits_from
digits_from-last f x buf e = ground arith

digits_from-next :
    (f x : ℕ) (buf : List ℕ)
    → (x / 10 == 0) ≡ false
    → digits_from (suc f) 10 x buf ≡ digits_from f 10 (x / 10) (digit (x % 10) ∷ buf)
unfolding digits_from
digits_from-next f x buf e = ground arith

digits_from-digits : (f x : ℕ) (buf : List ℕ) → AllDigits buf → AllDigits (digits_from f 10 x buf)
unfolding digits_from
digits_from-digits zero x buf h = h
digits_from-digits (suc f) x buf h =
    let h' : AllDigits (digit (x % 10) ∷ buf) = digit-AllDigits x buf h in
    elim (Bool-cases (x / 10 == 0)) [
      | inl e ↦ subst AllDigits (sym (digits_from-last f x buf e)) h'
      | inr e ↦
          subst AllDigits (sym (digits_from-next f x buf e))
            (digits_from-digits f (x / 10) (digit (x % 10) ∷ buf) h')
    ]

digits_from-value :
    (f x : ℕ) (buf : List ℕ) → x < f → value 0 (digits_from f 10 x buf) ≡ value x buf
digits_from-value zero x buf l = absurd (omega arith)
digits_from-value (suc f) x buf l = elim (Bool-cases (x / 10 == 0)) [
  | inl e ↦
      ap (value 0) (digits_from-last f x buf e)
      ∙ value-cons 0 x buf (ground (arith, (last_digit x).1))
  | inr e ↦
      ap (value 0) (digits_from-next f x buf e)
      ∙ digits_from-value f (x / 10) (digit (x % 10) ∷ buf) (ground arith)
      ∙ value-cons (x / 10) x buf (ground (arith, (last_digit x).1))
]

atoi_from_lem :
    (m : Bytes) (s n : ℕ) (ds : List ℕ)
    → AllDigits ds
    → IsAt m s ds
    → value n ds < 2 ^ 32
    → atoi_from (suc (length ds)) m s n ≡ some (value n ds)
unfolding atoi_from value AllDigits IsAt
atoi_from_lem m s n [] h at l = ground (arith, at)
atoi_from_lem m s n (d ∷ ds) h at l =
    let grows = value-grows (n * 10 + d - 48) ds h.1 in
    let rest = atoi_from_lem m (s + 1) (n * 10 + d - 48) ds h.1 at.1 l in ground (arith, at.0, h.0)

-- Let the bytes that `printint` writes for a number from 0 to 2 ^ 31 - 1, in base 10, stand in the
-- memory, and no digit behind them. Then `atoi` reads the number back, and reads no byte behind the
-- first that is no digit.
pub atoi-printint :
    (m : Bytes) (s x : ℕ) (sgn : Bool)
    → x < 2 ^ 31
    → IsAt m s (printint (pos x) 10 sgn)
    → atoi (suc (length (printint (pos x) 10 sgn))) m s ≡ some x
unfolding printint atoi value AllDigits
atoi-printint m s x sgn l at =
    let ds : List ℕ = digits_from (x + 1) 10 x [] in
    let v : value 0 ds ≡ x = digits_from-value (x + 1) x [] (omega arith) in
    atoi_from_lem m s 0 ds (digits_from-digits (x + 1) x [] tt) at
      (subst (λ y. y < 2 ^ 32) (sym v) (omega arith))
    ∙ ap some v

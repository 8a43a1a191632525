-- ===== src/Ulib/Tests.antt =====
-- Strings and numbers of ulib.c and printf.c in OperatingSystem/HW5.
use cpp.Prelude.{suc, ◌≡◌, ◌==◌, refl, true, false, if◌then◌else◌, some, [], ◌∷◌, length, arith}
use cpp.Prelude.Int.{pos, negsuc}
use cpp.Strings.{Bytes}
use cpp.Ulib.{digits_from, printint, atoi, strcmp, minus_byte}
use cpp.Ulib.Print.{IsAt, atoi-printint}

-- The string "42" at 0, and "4" at 8.
abbrev mem : Bytes
mem = λ a. if a == 0 then b'4' else if a == 1 then b'2' else if a == 8 then b'4' else 0

printint_negative : printint (negsuc 41) 10 true ≡ b'-' ∷ b'4' ∷ b'2' ∷ []
unfolding printint digits_from
printint_negative = refl

printint_hex : printint (pos 190) 16 false ≡ b'B' ∷ b'E' ∷ []
unfolding printint digits_from
printint_hex = refl

strcmp_prefix : strcmp 4 mem 8 0 ≡ some (negsuc 49)
unfolding strcmp minus_byte
strcmp_prefix = refl

mem-IsAt : IsAt mem 0 (printint (pos 42) 10 true)
unfolding IsAt printint digits_from
mem-IsAt = (refl, (refl, refl))

atoi-printint_example : atoi (suc (length (printint (pos 42) 10 true))) mem 0 ≡ some 42
atoi-printint_example = atoi-printint mem 0 42 true (omega arith) mem-IsAt

-- ===== src/Strings/Tests.antt =====
-- Runs of string.c on small memories, and the theorems at such inputs.
use cpp.Prelude.{◌≡◌, refl, ◌==◌, if◌then◌else◌, arith}
use cpp.Prelude.Int.{pos}
use cpp.Strings.{Bytes, memset, stosl, splat, memcmp, memmove, copy_up, copy_down, safestrcpy}
use cpp.Strings.Text.{Terminated}

-- "hello" at 100, and 0xff elsewhere.
abbrev hello : Bytes
hello a =
    if a == 100
    then b'h'
    else if a == 101
    then b'e'
    else if a == 102
    then b'l'
    else if a == 103
    then b'l'
    else if a == 104
    then b'o'
    else if a == 105
    then 0
    else 0xff

hello-Terminated : Terminated hello 100 5
hello-Terminated = (refl, λ i h. ground arith)

memset_words : memset hello 100 0x141 8 107 ≡ 0x41
unfolding memset stosl splat
memset_words = refl

memmove_overlap : memmove hello 102 100 4 105 ≡ b'l'
unfolding memmove copy_down copy_up
memmove_overlap = refl

memcmp_difference : memcmp hello 100 101 2 ≡ pos 3
unfolding memcmp
memcmp_difference = refl

safestrcpy_ends : safestrcpy hello 200 100 (pos 3) 202 ≡ 0
unfolding safestrcpy
safestrcpy_ends = refl

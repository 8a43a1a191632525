-- ===== src/Bio/Tests.antt =====
-- A cache of two buffers, and the theorems there.
use cpp.Prelude.{ℕ, zero, suc, ◌+◌, ◌≡◌, ◌≢◌, refl, true, false, some, [], ◌∷◌, get_elem?, arith}
use cpp.Blocks.{Block}
use cpp.Bio.{Buf, Cache, update, find, find_last, bget}
use cpp.Bio.Order.{IsOrder}
use cpp.Bio.Get.{IsValid, recycled, bget-IsValid}

-- Block `n` of the disk `d` is full of their sum.
abbrev disk : ℕ → ℕ → Block
disk d n i = d + n

-- Buffer 0 is in use, and buffer 1 is free.
abbrev used : Buf
used = record { valid = true; dirty = false; dev = 1; blockno = 7; refcnt = 1; contents = λ i. 9 }

abbrev idle : Buf
idle = record { valid = true; dirty = false; dev = 1; blockno = 8; refcnt = 0; contents = λ i. 9 }

abbrev cache : Cache
cache = record { bufs = used ∷ idle ∷ []; order = 0 ∷ 1 ∷ []; disk = disk; disksize = 20 }

cache-IsOrder : IsOrder (0 ∷ 1 ∷ []) 2
cache-IsOrder i = ground arith

cache-IsValid : IsValid cache
cache-IsValid = record { order = cache-IsOrder; one_each = unique }
  where
    unique :
        (i j : ℕ) (x y : Buf)
        → get_elem? cache.bufs i ≡ some x
        → get_elem? cache.bufs j ≡ some y
        → x.dev ≢ 0
        → x.dev ≡ y.dev
        → x.blockno ≡ y.blockno
        → i ≡ j
    unique zero zero x y a b d e n = refl
    unique zero (suc zero) x y a b d e n = ground arith
    unique (suc zero) zero x y a b d e n = ground arith
    unique (suc zero) (suc zero) x y a b d e n = refl
    unique (suc (suc i)) j x y a b d e n = ground arith
    unique i (suc (suc j)) x y a b d e n = ground arith

-- Block 9 takes the buffer of block 8.
bget_recycles : bget 1 9 cache ≡ some (1, update cache 1 (recycled 1 9))
unfolding bget find find_last
bget_recycles = refl

bget-IsValid_example : IsValid (update cache 1 (recycled 1 9))
bget-IsValid_example = bget-IsValid 1 9 cache bget_recycles cache-IsValid

-- ===== src/Vm/Copy.antt =====
-- The functions of OperatingSystem/HW5/vm.c that work on the pages of a process.
use cpp.Prelude.{
  ℕ, zero, suc, ◌+◌, ◌-◌, ◌*◌, ◌/◌, ◌%◌, ◌^◌, Bool, false, ltb, leb, ◌==◌, ◌&&◌, if◌then◌else◌,
}
use cpp.Prelude.Int.{ℤ, pos, negsuc, minus_one}
use cpp.Kalloc.{pgsize, kernbase, pgroundup}
use cpp.Vm.{
  V, ◌>>=◌, ◌>>◌, pure, panic, load_word, store_word, new_page, free_page, clear_page, move, v2p,
  p2v, pte_addr, pte_flags, is_present, is_user, pte_w_u, pgrounddown, is_negative, walkpgdir,
  mappages, deallocuvm, freevm, setupkvm,
}

abbrev is_count : ℤ → ℕ → Bool
is_count (pos m) n = m == n
is_count (negsuc m) n = false

abbrev page_part : (rest : ℕ) → ℕ
page_part rest = if ltb rest pgsize then rest else pgsize

-- The loop of `loaduvm`, where `rest` is sz - i, for `fuel` pages at most. `read` is readi of the
-- inode.
pub load_from : (fuel : ℕ) → ((dst off n : ℕ) → V ℤ) → (pgdir addr off rest : ℕ) → V ℤ
load_from zero read pgdir addr off rest = pure (pos 0)
load_from (suc fuel) read pgdir addr off rest =
    let next : V ℤ =
      load_from fuel read pgdir ((addr + pgsize) % 2 ^ 32) ((off + pgsize) % 2 ^ 32)
        (rest - pgsize) in
    (if rest == 0 then pure (pos 0) else (do
      pte ← walkpgdir pgdir addr false
      (if pte == 0 then panic else (do
        w ← load_word pte
        n ← read (p2v (pte_addr w)) off (page_part rest)
        (if is_count n (page_part rest) then next else pure minus_one)))))

pub loaduvm : ((dst off n : ℕ) → V ℤ) → (pgdir addr off sz : ℕ) → V ℤ
unfolding load_from
loaduvm read pgdir addr off sz =
    if addr % pgsize == 0 then load_from (sz / pgsize + 1) read pgdir addr off sz else panic

-- The loop of `allocuvm`, for `fuel` pages at most.
pub alloc_from : (fuel pgdir a oldsz newsz : ℕ) → V ℕ
alloc_from zero pgdir a oldsz newsz = pure newsz
alloc_from (suc fuel) pgdir a oldsz newsz =
    let next : V ℕ = alloc_from fuel pgdir (a + pgsize) oldsz newsz in
    (if ltb a newsz
      then (do
        mem ← new_page
        (if mem == 0 then (do deallocuvm pgdir newsz oldsz; pure 0) else (do
          clear_page mem
          e ← mappages pgdir a pgsize (v2p mem) pte_w_u
          (if is_negative e
              then (do deallocuvm pgdir newsz oldsz; free_page mem; pure 0)
              else next))))
      else pure newsz)

pub allocuvm : (pgdir oldsz newsz : ℕ) → V ℕ
unfolding alloc_from
allocuvm pgdir oldsz newsz =
    if leb kernbase newsz
    then pure 0
    else if ltb newsz oldsz
    then pure oldsz
    else alloc_from (newsz / pgsize + 1) pgdir (pgroundup oldsz) oldsz newsz

pub clearpteu : (pgdir uva : ℕ) → V (Unit {0})
clearpteu pgdir uva = do
  pte ← walkpgdir pgdir uva false
  (if pte == 0 then panic else (do w ← load_word pte; store_word pte (w - w / 4 % 2 * 4)))

-- `goto bad`; the page that was allocated last is not freed where it is not mapped.
pub give_up : ℕ → V ℕ
give_up d = do freevm d; pure 0

-- The loop of `copyuvm` from the page `i` on, for `fuel` pages at most.
pub copy_from : (fuel pgdir d i sz : ℕ) → V ℕ
unfolding give_up
copy_from zero pgdir d i sz = pure d
copy_from (suc fuel) pgdir d i sz =
    let next : V ℕ = copy_from fuel pgdir d (i + pgsize) sz in
    (if ltb i sz
      then (do
        pte ← walkpgdir pgdir i false
        (if pte == 0 then panic else (do
          w ← load_word pte
          (if is_present w
              then (do
                mem ← new_page
                (if mem == 0 then give_up d else (do
                  move mem (p2v (pte_addr w)) pgsize
                  e ← mappages d i pgsize (v2p mem) (pte_flags w)
                  (if is_negative e then give_up d else next))))
              else panic))))
      else pure d)

pub copyuvm : (dat pgdir sz : ℕ) → V ℕ
unfolding copy_from
copyuvm dat pgdir sz = do
  d ← setupkvm dat
  (if d == 0 then pure 0 else copy_from (sz / pgsize + 1) pgdir d 0 sz)

-- As in the source, a null pointer of walkpgdir is read through.
pub uva2ka : (pgdir uva : ℕ) → V ℕ
uva2ka pgdir uva = do
  pte ← walkpgdir pgdir uva false
  w ← load_word pte
  pure (if is_present w && is_user w then p2v (pte_addr w) else 0)

-- The loop of `copyout`: each round copies a byte at least.
pub copyout_from : (fuel pgdir va buf len : ℕ) → V ℤ
unfolding uva2ka
copyout_from zero pgdir va buf len = pure (pos 0)
copyout_from (suc fuel) pgdir va buf len =
    let va0 : ℕ = pgrounddown va in
    let n : ℕ = if ltb len (pgsize - (va - va0)) then len else pgsize - (va - va0) in
    let next : V ℤ = copyout_from fuel pgdir ((va0 + pgsize) % 2 ^ 32) (buf + n) (len - n) in
    (if len == 0 then pure (pos 0) else (do
      pa0 ← uva2ka pgdir va0
      (if pa0 == 0 then pure minus_one else (do move (pa0 + (va - va0)) buf n; next))))

pub copyout : (pgdir va buf len : ℕ) → V ℤ
unfolding copyout_from
copyout pgdir va buf len = copyout_from len pgdir va buf len

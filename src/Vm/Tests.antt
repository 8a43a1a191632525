-- ===== src/Vm/Tests.antt =====
-- An empty directory, two free pages, and the theorems there.
use cpp.Prelude.{
  ℕ, zero, suc, ◌+◌, ◌*◌, ◌%◌, ◌^◌, ◌≤◌, ◌<◌, ◌≡◌, refl, true, false, ◌/◌, ◌≢◌, leb, ◌==◌,
  if◌then◌else◌, [], ◌∷◌, some, none, arith,
}
use cpp.Strings.{Bytes}
use cpp.Kalloc.{Kmem, pgroundup, load}
use cpp.Vm.{is_present, with_flags, mappages, dealloc_from, deallocuvm}
use cpp.Vm.Space.{pde_at}
use cpp.Vm.Translate.{Ready}
use cpp.Vm.Range.{Outcome}
use cpp.Vm.Mappages.{mappages_lem}
use cpp.Vm.Dealloc.{deallocuvm_ends}

abbrev memory : Bytes
memory a =
    if a == 0x80401001
    then 0x20
    else if a == 0x80401002
    then 0x40
    else if a == 0x80401003
    then 0x80
    else 0

abbrev kernel : Kmem
kernel = record { mem = memory; freelist = 0x80401000; end = 0x80400000; use_lock = true }

abbrev directory : ℕ
directory = 0x80400000

directory-empty : (d : ℕ) → d < 1024 → pde_at memory directory d ≡ 0
unfolding load
directory-empty d lt = ground arith

not_there : (d : ℕ) → d < 1024 → is_present (pde_at memory directory d) ≡ true → ⊥
not_there d lt h = ground (arith, directory-empty d lt)

kernel-Ready : Ready kernel directory (0x80401000 ∷ 0x80402000 ∷ [])
unfolding load
kernel-Ready = (
  record {
    aligned = refl;
    dir_used = refl;
    used = λ d lt h. absurd (not_there d lt h);
    not_dir = λ d lt h. absurd (not_there d lt h);
    not_null = λ d lt h. absurd (not_there d lt h);
    apart = λ d e ld le ne h k. absurd (not_there d ld h);
  },
  (refl, refl, omega arith, omega arith, refl, (refl, refl, omega arith, omega arith, refl, refl)),
)

two_words : (j : ℕ) → j ≤ 1 → with_flags (0x500000 + j * 4096) 6 < 2 ^ 32
two_words zero le = omega arith
two_words (suc zero) le = omega arith
two_words (suc (suc j)) le = absurd (omega arith)

-- Two pages at the start of the address space.
mappages_lem_example :
    Outcome kernel directory 0 1 0x500000 6 (mappages directory 0 (suc 1 * 4096) 0x500000 6 kernel)
mappages_lem_example =
    mappages_lem directory 0 1 0x500000 6 kernel (0x80401000 ∷ 0x80402000 ∷ []) kernel-Ready
      (refl, omega arith) (omega arith) (omega arith) two_words

deallocuvm_ends_example :
    ((k' : Kmem)
      → 100 < 8192
      → dealloc_from (8192 / 4096 + 2) directory (pgroundup 100 % 2 ^ 32) 8192 kernel
        ≢ some (false, k'))
    × (deallocuvm directory 8192 100 kernel ≡ (
        if leb 8192 100
        then some (8192, kernel)
        else elim (dealloc_from 20 directory (pgroundup 100 % 2 ^ 32) 8192 kernel) [
          | none ↦ none
          | some (_, k') ↦ some (100, k')
        ]))
deallocuvm_ends_example = deallocuvm_ends 20 directory 8192 100 kernel (omega arith) (omega arith)

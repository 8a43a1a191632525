-- ===== src/Vm/Space.antt =====
-- The tables of an address space in vm.c, which the free pages are apart from.
use cpp.Prelude.{
  ℕ, ◌+◌, ◌*◌, ◌%◌, ◌≤◌, ◌<◌, ◌≡◌, ◌≢◌, ◌⊎◌, sym, subst, true, false, if◌then◌else◌, List, [], ◌∷◌,
  arith,
}
use cpp.Strings.{Bytes}
use cpp.Kalloc.{pgsize, load}
use cpp.Kalloc.Free.{contains, Chain}
use cpp.Vm.{p2v, pte_addr, is_present}

-- The entry `d` of the directory, and the table that it names.
abbrev pub pde_at : Bytes → (pgdir d : ℕ) → ℕ
pde_at m pgdir d = load m (pgdir + 4 * d)

abbrev pub table_at : Bytes → (pgdir d : ℕ) → ℕ
table_at m pgdir d = p2v (pte_addr (pde_at m pgdir d))

-- What the processor finds for the page `t` of the table `d`; 0 is no entry.
unfoldable pub entry : Bytes → (pgdir d t : ℕ) → ℕ
entry m pgdir d t = if is_present (pde_at m pgdir d) then load m (table_at m pgdir d + 4 * t) else 0

-- The tables are pages of their own and not null, and neither they nor the directory are free.
pub record IsSpace (m : Bytes) (pgdir : ℕ) (ps : List ℕ) : Type 0 where
  pub aligned : pgdir % pgsize ≡ 0
  pub dir_used : contains pgdir ps ≡ false
  pub used :
      (d : ℕ)
      → d < 1024
      → is_present (pde_at m pgdir d) ≡ true
      → contains (table_at m pgdir d) ps ≡ false
  pub not_dir :
      (d : ℕ) → d < 1024 → is_present (pde_at m pgdir d) ≡ true → table_at m pgdir d ≢ pgdir
  pub not_null : (d : ℕ) → d < 1024 → is_present (pde_at m pgdir d) ≡ true → table_at m pgdir d ≢ 0
  pub apart :
      (d e : ℕ)
      → d < 1024
      → e < 1024
      → d ≢ e
      → is_present (pde_at m pgdir d) ≡ true
      → is_present (pde_at m pgdir e) ≡ true
      → table_at m pgdir d ≢ table_at m pgdir e

-- Nothing outside the page changes.
abbrev pub WithinPage : (m m' : Bytes) (p : ℕ) → Type 0
WithinPage m m' p = (a : ℕ) → (a < p) ⊎ (p + pgsize ≤ a) → m' a ≡ m a

pub load-WithinPage :
    (m m' : Bytes) (p q t : ℕ)
    → WithinPage m m' p
    → p % pgsize ≡ 0
    → q % pgsize ≡ 0
    → p ≢ q
    → t < 1024
    → load m' (q + 4 * t) ≡ load m (q + 4 * t)
unfolding load
load-WithinPage m m' p q t w hp hq ne lt =
    let same : (i : ℕ) → i < 4 → m' (q + 4 * t + i) ≡ m (q + 4 * t + i) =
      λ i h. w (q + 4 * t + i) (omega arith) in
    ground (arith, same 0, same 1, same 2, same 3)

pub Chain-WithinPage :
    (m m' : Bytes) (v p : ℕ) (qs : List ℕ)
    → WithinPage m m' v
    → v % pgsize ≡ 0
    → contains v qs ≡ false
    → Chain m p qs
    → Chain m' p qs
Chain-WithinPage m m' v p [] w hv out c = c
Chain-WithinPage m m' v p (q ∷ qs) w hv out (e, aligned, pos, range, once, rest) =
    let next : load m' q ≡ load m q =
      let at : q + 4 * 0 ≡ q = omega arith in
      subst (λ a. load m' a ≡ load m a) at
        (load-WithinPage m m' v q 0 w hv aligned (ground arith) (omega arith)) in
    (
      e,
      aligned,
      pos,
      range,
      once,
      subst (λ a. Chain m' a qs) (sym next)
          (Chain-WithinPage m m' v (load m q) qs w hv (ground arith) rest),
    )

pub table_aligned : (m : Bytes) (pgdir d : ℕ) → table_at m pgdir d % pgsize ≡ 0
table_aligned m pgdir d = omega arith

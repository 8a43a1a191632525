-- ===== src/Vm/Table.antt =====
-- walkpgdir of vm.c adds a table to an address space: no entry changes.
use cpp.Prelude.{
  ℕ, ◌+◌, ◌*◌, ◌%◌, ◌^◌, ◌<◌, ◌≡◌, ◌≢◌, ◌⊎◌, sym, ap, subst, ◌∙◌, true, false, List, ◌∷◌, arith,
  inl, inr, Bool-cases,
}
use cpp.Strings.{Bytes, memset}
use cpp.Strings.Memory.{memset_lem}
use cpp.Kalloc.{pgsize, load, store}
use cpp.Kalloc.Free.{contains, Chain, load-store_self, store-outside}
use cpp.Vm.{p2v, v2p, pte_addr, is_present, with_all}
use cpp.Vm.Space.{
  pde_at, table_at, entry, IsSpace, WithinPage, load-WithinPage, Chain-WithinPage, table_aligned,
}
use cpp.Vm.Map.{word_outside}

pub eq_or_ne : (a b : ℕ) → (a ≡ b) ⊎ (a ≢ b)
eq_or_ne a b = ground arith

load-zero : (m : Bytes) (a : ℕ) → ((i : ℕ) → i < 4 → m (a + i) ≡ 0) → load m a ≡ 0
unfolding load
load-zero m a zeros =
    let at : a + 0 ≡ a = omega arith in
    let first : m a ≡ 0 = subst (λ b. m b ≡ 0) at (zeros 0 (omega arith)) in
    ground (arith, first, zeros 1, zeros 2, zeros 3)

module _ (m : Bytes) (pgdir v : ℕ) (qs : List ℕ) (s : IsSpace m pgdir (v ∷ qs)) (d : ℕ)
    (ld : d < 1024) (missing : is_present (pde_at m pgdir d) ≡ false) (aligned : v % pgsize ≡ 0)
    (range : v < 2 ^ 32) (once : contains v qs ≡ false) (pos_v : 0 < v) where
  abbrev pub cleared : Bytes
  cleared = memset m v 0 pgsize

  abbrev pub tabled : Bytes
  tabled = store cleared (pgdir + 4 * d) (with_all (v2p v))

  cleared-WithinPage : WithinPage m cleared v
  cleared-WithinPage a out = ground (arith, memset_lem m v 0 pgsize a)

  not_dir : v ≢ pgdir
  not_dir = ground (arith, s.dir_used)

  dir_free : contains pgdir qs ≡ false
  dir_free = ground (arith, s.dir_used)

  stored-WithinPage : WithinPage cleared tabled pgdir
  stored-WithinPage a out =
      store-outside cleared (pgdir + 4 * d) (with_all (v2p v)) a (ground (arith, s.aligned))

  pde_here : pde_at tabled pgdir d ≡ with_all (v2p v)
  pde_here = load-store_self cleared (pgdir + 4 * d) (with_all (v2p v)) (omega arith)

  pub here_present : is_present (pde_at tabled pgdir d) ≡ true
  here_present = ground (arith, pde_here)

  pub here_table : table_at tabled pgdir d ≡ v
  here_table = ap (λ w. p2v (pte_addr w)) pde_here ∙ back
    where
      back : p2v (pte_addr (with_all (v2p v))) ≡ v
      back = omega arith

  other_pde : (e : ℕ) → e < 1024 → e ≢ d → pde_at tabled pgdir e ≡ pde_at m pgdir e
  other_pde e le ne =
      word_outside cleared (pgdir + 4 * d) (with_all (v2p v)) (pgdir + 4 * e) (ground arith)
      ∙ load-WithinPage m cleared v pgdir e cleared-WithinPage aligned s.aligned not_dir le

  other_table : (e : ℕ) → e < 1024 → e ≢ d → table_at tabled pgdir e ≡ table_at m pgdir e
  other_table e le ne = ap (λ w. p2v (pte_addr w)) (other_pde e le ne)

  other_present :
      (e : ℕ)
      → e < 1024
      → e ≢ d
      → is_present (pde_at tabled pgdir e) ≡ true
      → is_present (pde_at m pgdir e) ≡ true
  other_present e le ne h = ap is_present (sym (other_pde e le ne)) ∙ h

  not_new : (e : ℕ) → e < 1024 → is_present (pde_at m pgdir e) ≡ true → table_at m pgdir e ≢ v
  not_new e le h q = ground (arith, s.used e le h)

  pub tabled-Chain : (p : ℕ) → Chain m p qs → Chain tabled p qs
  tabled-Chain p c =
      Chain-WithinPage cleared tabled pgdir p qs stored-WithinPage s.aligned dir_free
        (Chain-WithinPage m cleared v p qs cleared-WithinPage aligned once c)

  pub tabled-IsSpace : IsSpace tabled pgdir qs
  tabled-IsSpace = record {
    aligned = s.aligned;
    dir_used = dir_free;
    used = used;
    not_dir = not_dir_lem;
    not_null = not_null;
    apart = apart;
  }
    where
      used :
          (e : ℕ)
          → e < 1024
          → is_present (pde_at tabled pgdir e) ≡ true
          → contains (table_at tabled pgdir e) qs ≡ false
      used e le h = elim (eq_or_ne e d) [
        | inl same ↦
            subst (λ x. contains x qs ≡ false) (sym (ap (table_at tabled pgdir) same ∙ here_table))
              once
        | inr other ↦
            subst (λ x. contains x qs ≡ false) (sym (other_table e le other))
              (ground (arith, s.used e le (other_present e le other h)))
      ]

      not_dir_lem :
          (e : ℕ)
          → e < 1024
          → is_present (pde_at tabled pgdir e) ≡ true
          → table_at tabled pgdir e ≢ pgdir
      not_dir_lem e le h q = elim (eq_or_ne e d) [
        | inl same ↦ not_dir (sym here_table ∙ ap (table_at tabled pgdir) (sym same) ∙ q)
        | inr other ↦ s.not_dir e le (other_present e le other h) (sym (other_table e le other) ∙ q)
      ]

      not_null :
          (e : ℕ)
          → e < 1024
          → is_present (pde_at tabled pgdir e) ≡ true
          → table_at tabled pgdir e ≢ 0
      not_null e le h q = elim (eq_or_ne e d) [
        | inl same ↦ omega (arith, sym (ap (table_at tabled pgdir) same ∙ here_table) ∙ q)
        | inr other ↦
            s.not_null e le (other_present e le other h) (sym (other_table e le other) ∙ q)
      ]

      apart :
          (e f : ℕ)
          → e < 1024
          → f < 1024
          → e ≢ f
          → is_present (pde_at tabled pgdir e) ≡ true
          → is_present (pde_at tabled pgdir f) ≡ true
          → table_at tabled pgdir e ≢ table_at tabled pgdir f
      apart e f le lf ne he hf q = elim (eq_or_ne e d) [
        | inl same ↦
            let other : f ≢ d = omega arith in
            not_new f lf (other_present f lf other hf)
              (sym (other_table f lf other) ∙ sym q ∙ ap (table_at tabled pgdir) same ∙ here_table)
        | inr other ↦ elim (eq_or_ne f d) [
          | inl same ↦
              not_new e le (other_present e le other he)
                (sym (other_table e le other) ∙ q ∙ ap (table_at tabled pgdir) same ∙ here_table)
          | inr other' ↦
              s.apart e f le lf ne (other_present e le other he) (other_present f lf other' hf)
                (sym (other_table e le other) ∙ q ∙ other_table f lf other')
        ]
      ]

  pub tabled-entry : (e u : ℕ) → e < 1024 → u < 1024 → entry tabled pgdir e u ≡ entry m pgdir e u
  unfolding entry
  tabled-entry e u le lu = elim (eq_or_ne e d) [
    | inl same ↦
        let zero_word : load tabled (table_at tabled pgdir e + 4 * u) ≡ 0 =
          ap (λ x. load tabled (x + 4 * u)) (ap (table_at tabled pgdir) same ∙ here_table)
          ∙ new_word in
        ground (arith, ap (λ x. is_present (pde_at m pgdir x)) same)
    | inr other ↦ elim (Bool-cases (is_present (pde_at m pgdir e))) [
      | inr absent ↦ ground (arith, ap is_present (other_pde e le other))
      | inl present ↦
          let now : load tabled (table_at tabled pgdir e + 4 * u)
              ≡ load m (table_at m pgdir e + 4 * u) =
            ap (λ x. load tabled (x + 4 * u)) (other_table e le other)
            ∙ load-WithinPage cleared tabled pgdir (table_at m pgdir e) u stored-WithinPage
                s.aligned (table_aligned m pgdir e) (λ q. s.not_dir e le present (sym q)) lu
            ∙ load-WithinPage m cleared v (table_at m pgdir e) u cleared-WithinPage aligned
                (table_aligned m pgdir e) (λ q. not_new e le present (sym q)) lu in
          ground (arith, ap is_present (other_pde e le other))
    ]
  ]
    where
      new_word : load tabled (v + 4 * u) ≡ 0
      new_word =
          load-WithinPage cleared tabled pgdir v u stored-WithinPage s.aligned aligned
            (λ q. not_dir (sym q)) lu
          ∙ load-zero cleared (v + 4 * u) (λ i lt. zero_byte i lt)
        where
          zero_byte : (i : ℕ) → i < 4 → cleared (v + 4 * u + i) ≡ 0
          zero_byte i lt = ground (arith, memset_lem m v 0 pgsize (v + 4 * u + i))

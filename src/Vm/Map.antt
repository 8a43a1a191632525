-- ===== src/Vm/Map.antt =====
-- A store into a table, and a new table, change one entry of the address space, and none.
use cpp.Prelude.{
  ℕ, ◌+◌, ◌*◌, ◌^◌, ◌≤◌, ◌<◌, ◌≡◌, ◌≢◌, ◌⊎◌, sym, ap, subst, ◌∙◌, true, false, List, arith, inl,
  inr, Bool-cases, trichotomy,
}
use cpp.Strings.{Bytes}
use cpp.Kalloc.{load, store}
use cpp.Kalloc.Free.{contains, Chain, load-store_self, store-outside}
use cpp.Vm.{p2v, pte_addr, is_present}
use cpp.Vm.Space.{
  pde_at, table_at, entry, IsSpace, WithinPage, load-WithinPage, Chain-WithinPage, table_aligned,
}

pub word_outside :
    (m : Bytes) (a w b : ℕ) → (b + 4 ≤ a) ⊎ (a + 4 ≤ b) → load (store m a w) b ≡ load m b
unfolding load
word_outside m a w b out =
    let same : (i : ℕ) → i < 4 → store m a w (b + i) ≡ m (b + i) =
      λ i h. store-outside m a w (b + i) (omega arith) in
    let first : store m a w b ≡ m b = store-outside m a w b (omega arith) in
    ground (arith, first, same 1, same 2, same 3)

-- A space whose directory does not change.
keep-IsSpace :
    (m m' : Bytes) (pgdir : ℕ) (ps : List ℕ)
    → IsSpace m pgdir ps
    → ((d : ℕ) → d < 1024 → pde_at m' pgdir d ≡ pde_at m pgdir d)
    → IsSpace m' pgdir ps
keep-IsSpace m m' pgdir ps s same = record {
  aligned = s.aligned;
  dir_used = s.dir_used;
  used = λ d lt h.
      subst (λ w. contains (p2v (pte_addr w)) ps ≡ false) (sym (same d lt))
        (s.used d lt (old d lt h));
  not_dir = λ d lt h.
      subst (λ w. p2v (pte_addr w) ≢ pgdir) (sym (same d lt)) (s.not_dir d lt (old d lt h));
  not_null =
      λ d lt h. subst (λ w. p2v (pte_addr w) ≢ 0) (sym (same d lt)) (s.not_null d lt (old d lt h));
  apart = λ d e ld le ne h k q.
      s.apart d e ld le ne (old d ld h) (old e le k)
        (ap (λ w. p2v (pte_addr w)) (sym (same d ld)) ∙ q ∙ ap (λ w. p2v (pte_addr w)) (same e le));
}
  where
    old :
        (d : ℕ)
        → d < 1024
        → is_present (pde_at m' pgdir d) ≡ true
        → is_present (pde_at m pgdir d) ≡ true
    old d lt h = ap is_present (sym (same d lt)) ∙ h

module _ (m : Bytes) (pgdir : ℕ) (ps : List ℕ) (s : IsSpace m pgdir ps) (d t w : ℕ) (ld : d < 1024)
    (lt : t < 1024) (there : is_present (pde_at m pgdir d) ≡ true) (word : w < 2 ^ 32) where
  abbrev pub stored : Bytes
  stored = store m (table_at m pgdir d + 4 * t) w

  stored-WithinPage : WithinPage m stored (table_at m pgdir d)
  stored-WithinPage a out = store-outside m (table_at m pgdir d + 4 * t) w a (ground arith)

  pub same_pde : (e : ℕ) → e < 1024 → pde_at stored pgdir e ≡ pde_at m pgdir e
  same_pde e le =
      load-WithinPage m stored (table_at m pgdir d) pgdir e stored-WithinPage
        (table_aligned m pgdir d) s.aligned (s.not_dir d ld there) le

  pub stored-IsSpace : IsSpace stored pgdir ps
  stored-IsSpace = keep-IsSpace m stored pgdir ps s same_pde

  pub stored-Chain : (p : ℕ) → Chain m p ps → Chain stored p ps
  stored-Chain p c =
      Chain-WithinPage m stored (table_at m pgdir d) p ps stored-WithinPage
        (table_aligned m pgdir d) (s.used d ld there) c

  pub same_table : (e : ℕ) → e < 1024 → table_at stored pgdir e ≡ table_at m pgdir e
  same_table e le = ap (λ x. p2v (pte_addr x)) (same_pde e le)

  pub stored_here : entry stored pgdir d t ≡ w
  unfolding entry
  stored_here =
      let now : load stored (table_at stored pgdir d + 4 * t) ≡ w =
        ap (λ x. load stored (x + 4 * t)) (same_table d ld)
        ∙ load-store_self m (table_at m pgdir d + 4 * t) w word in
      ground (arith, ap is_present (same_pde d ld))

  pub stored_elsewhere :
      (e u : ℕ)
      → e < 1024
      → u < 1024
      → (e ≢ d) ⊎ (u ≢ t)
      → entry stored pgdir e u ≡ entry m pgdir e u
  unfolding entry
  stored_elsewhere e u le lu other = elim (Bool-cases (is_present (pde_at m pgdir e))) [
    | inr missing ↦ ground (arith, ap is_present (same_pde e le))
    | inl present ↦
        let now : load stored (table_at stored pgdir e + 4 * u)
            ≡ load m (table_at m pgdir e + 4 * u) =
          ap (λ x. load stored (x + 4 * u)) (same_table e le) ∙ same_word e u le lu other present in
        ground (arith, ap is_present (same_pde e le))
  ]
    where
      same_word :
          (e u : ℕ)
          → e < 1024
          → u < 1024
          → (e ≢ d) ⊎ (u ≢ t)
          → is_present (pde_at m pgdir e) ≡ true
          → load stored (table_at m pgdir e + 4 * u) ≡ load m (table_at m pgdir e + 4 * u)
      same_word e u le lu other present = elim (trichotomy e d) [
        | inl before ↦ far (omega arith)
        | inr (inl same) ↦
            let ne : u ≢ t = λ q. elim other [ inl a ↦ a same | inr b ↦ b q ] in
            let here : table_at m pgdir e ≡ table_at m pgdir d = ap (table_at m pgdir) same in
            ap (λ x. load stored (x + 4 * u)) here
            ∙ word_outside m (table_at m pgdir d + 4 * t) w (table_at m pgdir d + 4 * u)
                (ground arith)
            ∙ ap (λ x. load m (x + 4 * u)) (sym here)
        | inr (inr behind) ↦ far (omega arith)
      ]
        where
          far :
              e ≢ d → load stored (table_at m pgdir e + 4 * u) ≡ load m (table_at m pgdir e + 4 * u)
          far ne =
              load-WithinPage m stored (table_at m pgdir d) (table_at m pgdir e) u stored-WithinPage
                (table_aligned m pgdir d) (table_aligned m pgdir e)
                (s.apart d e ld le (λ q. ne (sym q)) there present) lu

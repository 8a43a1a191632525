-- ===== src/Proc/Exit/Wait.antt =====
-- `wait`: which child it reaps, and that it misses no exit.
use cpp.Prelude.{
  ℕ, zero, suc, ◌+◌, ◌≡◌, ◌≢◌, ◌⊎◌, refl, subst, inl, inr, Bool, true, false, ◌&&◌, ◌||◌, none,
  some, List, [], ◌∷◌, get_elem?, get_elem?-map, get_elem?-modify_at_self, ◌==◌, arith, Bool-cases,
  Option-cases,
}
use cpp.Proc.Table.{is_zombie, zombie, Proc, Table, nproc, proc_addr, wake, wakeup1}
use cpp.Proc.Exit.{find_zombie, become_zombie}
use cpp.Proc.Exit.Reparent.{reparent-Moved}

-- A child of the process at address `self`.
abbrev pub IsChild : ℕ → List Proc → ℕ → Proc → Type 0
IsChild self ps i p = (get_elem? ps i ≡ some p) × (p.parent ≡ self)

find_zombie-found :
    (self : ℕ) (ps : List Proc) (j : ℕ) (kids : Bool) {i : ℕ}
    → (find_zombie self ps j kids).0 ≡ some i
    → (d : ℕ) × (p : Proc) × (i ≡ j + d) × IsChild self ps d p × (is_zombie p.state ≡ true)
unfolding find_zombie
find_zombie-found self [] j kids e = cc
find_zombie-found self (p ∷ ps) j kids {i} e = elim (Bool-cases (p.parent == self)) [
  | inl child ↦ elim (Bool-cases (is_zombie p.state)) [
    | inl dead ↦ (0, p, ground arith, (refl, ground arith), dead)
    | inr alive ↦
        let (d, q, at, c, z) =
          find_zombie-found self ps (j + 1) (kids || (p.parent == self)) {i = i} (ground arith) in
        (suc d, q, omega arith, c, z)
  ]
  | inr other ↦
      let (d, q, at, c, z) =
        find_zombie-found self ps (j + 1) (kids || (p.parent == self)) {i = i} (ground arith) in
      (suc d, q, omega arith, c, z)
]

find_zombie_complete :
    (self : ℕ) (ps : List Proc) (j : ℕ) (kids : Bool) (d : ℕ) {p : Proc}
    → get_elem? ps d ≡ some p
    → p.parent ≡ self
    → is_zombie p.state ≡ true
    → (i : ℕ) × ((find_zombie self ps j kids).0 ≡ some i)
unfolding find_zombie
find_zombie_complete self [] j kids d at c z = cc
find_zombie_complete self (q ∷ ps) j kids zero {p} at c z = (j, ground arith)
find_zombie_complete self (q ∷ ps) j kids (suc d) at c z =
    let (i, e) = find_zombie_complete self ps (j + 1) (kids || (q.parent == self)) d at c z in
    elim (Bool-cases ((q.parent == self) && is_zombie q.state)) [
      | inl hit ↦ (j, ground arith)
      | inr miss ↦ (i, ground arith)
    ]

find_zombie-kids :
    (self : ℕ) (ps : List Proc) (j : ℕ) (kids : Bool)
    → (find_zombie self ps j kids).1 ≡ false
    → (kids ≡ false) × ((d : ℕ) (p : Proc) → get_elem? ps d ≡ some p → p.parent ≢ self)
unfolding find_zombie
find_zombie-kids self [] j kids e = (e, λ d p at. cc)
find_zombie-kids self (q ∷ ps) j kids e =
    let (no_kids, rest) =
      find_zombie-kids self ps (j + 1) (kids || (q.parent == self)) (ground arith) in
    (
      ground arith,
      λ d. elim d as (λ d. (p : Proc) → get_elem? (q ∷ ps) d ≡ some p → p.parent ≢ self) [
        | zero ↦ λ p at. ground arith
        | suc d ↦ rest d
      ],
    )

-- A scan of `wait` finds a zombie child; or there is none, and then the scan says that there is no
-- child only if no slot has the process as parent.
pub find_zombie_lem :
    (self : ℕ) (ps : List Proc)
    → ((i : ℕ) × (p : Proc) × ((find_zombie self ps 0 false).0 ≡ some i)
        × IsChild self ps i p
        × (is_zombie p.state ≡ true))
      ⊎ (((find_zombie self ps 0 false).0 ≡ none)
          × ((d : ℕ) (p : Proc)
              → get_elem? ps d ≡ some p
              → p.parent ≡ self
              → is_zombie p.state ≡ false)
          × ((find_zombie self ps 0 false).1 ≡ false
              → (d : ℕ) (p : Proc) → get_elem? ps d ≡ some p
              → p.parent ≢ self))
find_zombie_lem self ps = elim (Option-cases (find_zombie self ps 0 false).0) [
  | inl e ↦ inr (
    e,
    λ d p at c. elim (Bool-cases (is_zombie p.state)) [
      | inl z ↦ let (i, f) = find_zombie_complete self ps 0 false d at c z in ground arith
      | inr n ↦ n
    ],
    λ f. (find_zombie-kids self ps 0 false f).1,
  )
  | inr (i, e) ↦
      let (d, p, at, c, z) = find_zombie-found self ps 0 false e in
      let same : d ≡ i = omega arith in inl (i, p, e, subst (λ k. IsChild self ps k p) same c, z)
]

-- When a process that is not init, nor its own parent, has exited, the next scan of its parent's
-- `wait` finds a zombie child.
pub exit-find_zombie :
    (t : Table) (cur : ℕ) {p : Proc}
    → t.initproc ≢ proc_addr t cur
    → get_elem? t.procs cur ≡ some p
    → p.parent ≢ proc_addr t cur
    → (i : ℕ) × ((find_zombie p.parent (become_zombie cur p.parent t).procs 0 false).0 ≡ some i)
unfolding become_zombie wakeup1
exit-find_zombie t cur {p} not_init at ne =
    let (q, got, m) =
      reparent-Moved (proc_addr t cur) nproc 0 cur (wakeup1 p.parent t) not_init
        (get_elem?-map (wake p.parent) t.procs cur at) in
    find_zombie_complete p.parent _ 0 false cur
      (get_elem?-modify_at_self (λ q. record q { state = zombie }) _ cur got) (ground arith) refl

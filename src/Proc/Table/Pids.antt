-- ===== src/Proc/Table/Pids.antt =====
-- Process ids: each live process has its own.
use cpp.Prelude.{
  ℕ, zero, suc, ◌<◌, ◌≡◌, ◌≢◌, refl, inl, inr, true, false, ◌==◌, some, List, [], ◌∷◌, map,
  get_elem?, get_elem?-map_inv, get_elem?-modify_at_inv, modify_at, ◌⊎◌, Bool-cases, arith, sym,
  subst,
}
use cpp.Prelude.Int.{ℤ}
use cpp.Proc.Table.{is_unused, Proc, Table, kill_proc, kill_loop, chpr_loop}

-- The process in slot `i` is `p`, and its slot is in use.
pub record Live (ps : List Proc) (i : ℕ) (p : Proc) : Type 0 where
  pub at : get_elem? ps i ≡ some p
  pub in_use : is_unused p.state ≡ false

-- A live process has a positive id below `nextpid`, and no two have the same.
pub record IsValid (t : Table) : Type 0 where
  pub counter : 0 < t.nextpid
  pub bound : (i : ℕ) (p : Proc) → Live t.procs i p → (0 < p.pid) × (p.pid < t.nextpid)
  pub distinct :
      (i j : ℕ) (p q : Proc) → Live t.procs i p → Live t.procs j q → i ≢ j → p.pid ≢ q.pid

-- Each live process of `qs` was live in `ps`, in the same slot with the same id.
abbrev pub NoNewPids : List Proc → List Proc → Type 0
NoNewPids ps qs = (i : ℕ) (q : Proc) → Live qs i q → (p : Proc) × Live ps i p × (p.pid ≡ q.pid)

-- `f` makes no process live, and leaves the id of one that it leaves live.
abbrev pub KeepsPid : (Proc → Proc) → Proc → Type 0
KeepsPid f p = is_unused (f p).state ≡ false → (is_unused p.state ≡ false) × ((f p).pid ≡ p.pid)

pub IsValid-of_NoNewPids :
    {t t' : Table} → t'.nextpid ≡ t.nextpid → NoNewPids t.procs t'.procs → IsValid t → IsValid t'
IsValid-of_NoNewPids {t} {t'} e sub v = record {
  counter = omega (arith, e, v.counter);
  bound = λ i q l. let (p, was, same) = sub i q l in omega (arith, v.bound i p was, same, e);
  distinct = λ i j p q l m ne.
      let (p', was, same) = sub i p l in
      let (q', was', same') = sub j q m in λ eq. v.distinct i j p' q' was was' ne (omega arith);
}

pub NoNewPids-map :
    (f : Proc → Proc) (ps : List Proc) → ((p : Proc) → KeepsPid f p) → NoNewPids ps (map f ps)
NoNewPids-map f ps k i q l =
    let (p, at, e) = get_elem?-map_inv f ps i l.at in
    (p, record { at = at; in_use = ground (arith, k p) }, ground (arith, k p))

pub NoNewPids-modify_at :
    (f : Proc → Proc) (ps : List Proc) (j : ℕ)
    → ((p : Proc) → get_elem? ps j ≡ some p → KeepsPid f p)
    → NoNewPids ps (modify_at f ps j)
NoNewPids-modify_at f ps j k i q l =
    let (p, at, how) = get_elem?-modify_at_inv f ps j i l.at in
    elim how [
      | inl (same, e) ↦
          let keeps = k p (subst (λ n. get_elem? ps n ≡ some p) (sym same) at) in
          (p, record { at = at; in_use = ground (arith, keeps) }, ground (arith, keeps))
      | inr (other, e) ↦ (p, record { at = at; in_use = ground arith }, ground arith)
    ]

-- `kill_loop` is an update of the one slot that it finds.
pub kill_loop_lem :
    (pid : ℕ) (ps : List Proc)
    → ((kill_loop pid ps ≡ (false, ps))
        × ((i : ℕ) (p : Proc) → get_elem? ps i ≡ some p → p.pid ≢ pid))
      ⊎ ((i : ℕ) × (p : Proc) × (get_elem? ps i ≡ some p)
          × (p.pid ≡ pid)
          × (kill_loop pid ps ≡ (true, modify_at kill_proc ps i)))
unfolding kill_loop
kill_loop_lem pid [] = inl (refl, λ i p e. cc)
kill_loop_lem pid (p ∷ ps) = elim (Bool-cases (p.pid == pid)) [
  | inl hit ↦ inr (0, p, refl, ground arith, rw hit)
  | inr miss ↦ elim (kill_loop_lem pid ps) [
    | inl none_there ↦ inl (
      ground arith,
      λ i. elim i as (λ i. (q : Proc) → get_elem? (p ∷ ps) i ≡ some q → q.pid ≢ pid) [
        | zero ↦ λ q e. ground arith
        | suc i ↦ none_there.1 i
      ],
    )
    | inr (i, q, at, is, e) ↦ inr (suc i, q, at, is, ground arith)
  ]
]

pub chpr_loop_lem :
    (pid : ℕ) (pr : ℤ) (ps : List Proc)
    → (chpr_loop pid pr ps ≡ ps)
      ⊎ ((i : ℕ) × (chpr_loop pid pr ps ≡ modify_at (λ p. record p { priority = pr }) ps i))
unfolding chpr_loop
chpr_loop_lem pid pr [] = inl refl
chpr_loop_lem pid pr (p ∷ ps) = elim (Bool-cases (p.pid == pid)) [
  | inl hit ↦ inr (0, rw hit)
  | inr miss ↦ elim (chpr_loop_lem pid pr ps) [
    | inl same ↦ inl (rw (miss, same))
    | inr (i, e) ↦ inr (suc i, rw (miss, e))
  ]
]

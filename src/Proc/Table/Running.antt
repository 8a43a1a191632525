-- ===== src/Proc/Table/Running.antt =====
-- Which slots hold a RUNNING process, before and after an operation.
use cpp.Prelude.{
  ℕ, ◌≡◌, ◌≢◌, ◌↔◌, inl, inr, true, false, some, List, map, get_elem?, get_elem?-map,
  get_elem?-map_inv, get_elem?-modify_at_inv, get_elem?-modify_at_self, get_elem?-modify_at_ne,
  modify_at, arith, ◌==◌, ==→eq, Bool-cases,
}
use cpp.Proc.Table.{is_running, Proc}

abbrev pub RunningAt : List Proc → ℕ → Type 0
RunningAt ps i = (p : Proc) × (get_elem? ps i ≡ some p) × (is_running p.state ≡ true)

abbrev pub SameRunning : List Proc → List Proc → Type 0
SameRunning ps qs = (i : ℕ) → RunningAt ps i ↔ RunningAt qs i

pub SameRunning-refl : (ps : List Proc) → SameRunning ps ps
SameRunning-refl ps i = (λ r. r, λ r. r)

pub SameRunning-map :
    (f : Proc → Proc) (ps : List Proc)
    → ((p : Proc) → is_running (f p).state ≡ is_running p.state)
    → SameRunning ps (map f ps)
SameRunning-map f ps same i = (
  λ (p, at, r). (f p, get_elem?-map f ps i at, ground (arith, same p)),
  λ (q, at, r). let (p, was, e) = get_elem?-map_inv f ps i at in (p, was, ground (arith, same p)),
)

-- An update of another slot.
pub RunningAt-modify_at_ne :
    (f : Proc → Proc) (ps : List Proc) (j i : ℕ)
    → j ≢ i
    → RunningAt ps i ↔ RunningAt (modify_at f ps j) i
RunningAt-modify_at_ne f ps j i ne = (
  λ (p, at, r). (p, rw (get_elem?-modify_at_ne f ps j i ne) at, r),
  λ (p, at, r). (p, rw (get_elem?-modify_at_ne f ps j i ne) at at, r),
)

pub SameRunning-modify_at :
    (f : Proc → Proc) (ps : List Proc) (j : ℕ)
    → ((p : Proc) → get_elem? ps j ≡ some p → is_running (f p).state ≡ is_running p.state)
    → SameRunning ps (modify_at f ps j)
SameRunning-modify_at f ps j same i = elim (Bool-cases (j == i)) [
  | inl e ↦ rw (← ==→eq j i e) (
    λ (p, at, r). (f p, get_elem?-modify_at_self f ps j at, ground (arith, same p at)),
    λ (q, at, r).
        let (p, was, how) = get_elem?-modify_at_inv f ps j j at in
        (p, was, ground (arith, same p was)),
  )
  | inr ne ↦ RunningAt-modify_at_ne f ps j i (ground arith)
]

-- A slot that is made something else than RUNNING.
pub not-RunningAt-modify_at :
    (f : Proc → Proc) (ps : List Proc) (j : ℕ)
    → ((p : Proc) → is_running (f p).state ≡ false)
    → ¬ RunningAt (modify_at f ps j) j
not-RunningAt-modify_at f ps j stop (q, at, r) =
    let (p, was, how) = get_elem?-modify_at_inv f ps j j at in ground (arith, stop p)

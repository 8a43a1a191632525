-- ===== src/Proc/Exit/Reparent.antt =====
-- The loop of `exit` that passes abandoned children to init.
use cpp.Prelude.{
  ℕ, zero, suc, ◌+◌, ◌≡◌, ◌≢◌, ◌⊎◌, refl, inl, inr, Bool, true, false, ◌&&◌, ◌||◌, some, List,
  get_elem?, get_elem?-map, get_elem?-modify_at_self, get_elem?-modify_at_ne, modify_at, ltb, leb,
  ◌==◌, if◌then◌else◌, arith, ==→eq, Bool-cases, Option-cases,
}
use cpp.Proc.Table.{sleeping, runnable, is_zombie, Proc, Table, wake, wakeup1}
use cpp.Proc.Table.Ops.{Quiet, Quiet-refl, Quiet-trans, wakeup1-Quiet, update-Quiet}
use cpp.Proc.Exit.{reparent_one, reparent}

reparent_one-Quiet : (self i : ℕ) (t : Table) → Quiet t (reparent_one self i t)
unfolding reparent_one
reparent_one-Quiet self i t = elim (Option-cases (get_elem? t.procs i)) [
  | inl e ↦ rw (e, reparent_one) (Quiet-refl t)
  | inr (p, e) ↦
      rw (e, reparent_one)
        (elim (Bool-cases (p.parent == self)) [
          | inr other ↦ rw other (Quiet-refl t)
          | inl child ↦
              let moved =
                update-Quiet t i (λ q. record q { parent = t.initproc }) (λ q a h. ground arith)
                  (λ q a. refl) in
              rw child (elim (Bool-cases (is_zombie p.state)) [
                | inr no_zombie ↦ rw no_zombie moved
                | inl yes_zombie ↦ rw yes_zombie (Quiet-trans moved (wakeup1-Quiet t.initproc _))
              ])
        ])
]

pub reparent-Quiet : (self n i : ℕ) (t : Table) → Quiet t (reparent self n i t)
unfolding reparent
reparent-Quiet self zero i t = Quiet-refl t
reparent-Quiet self (suc n) i t =
    Quiet-trans (reparent_one-Quiet self i t)
      (reparent-Quiet self n (i + 1) (reparent_one self i t))

-- What becomes of a process: `hit` says whether its slot has been visited.
pub record Moved (self init : ℕ) (hit : Bool) (p q : Proc) : Type 0 where
  pub parent : q.parent ≡ (if hit && (p.parent == self) then init else p.parent)
  pub pid : q.pid ≡ p.pid
  pub chan : q.chan ≡ p.chan
  pub state : (q.state ≡ p.state) ⊎ ((p.state ≡ sleeping) × (q.state ≡ runnable))

Moved-refl : (self init : ℕ) (p : Proc) → Moved self init false p p
Moved-refl self init p = ground arith

Moved-trans :
    {self init : ℕ} {h k : Bool} {p q r : Proc}
    → init ≢ self
    → Moved self init h p q
    → Moved self init k q r
    → Moved self init (h || k) p r
Moved-trans ne m n = ground arith

Moved-wake : (self init chan : ℕ) (p : Proc) → Moved self init false p (wake chan p)
Moved-wake self init chan p = ground arith

pub initproc-reparent_one : (self i : ℕ) (t : Table) → (reparent_one self i t).initproc ≡ t.initproc
unfolding reparent_one wakeup1
initproc-reparent_one self i t = ground arith

-- The slots after `ptable.proc[i].parent = initproc`.
pub Moved-adopt :
    (self init i k : ℕ) (ps : List Proc) {c p : Proc}
    → get_elem? ps i ≡ some c
    → (c.parent == self) ≡ true
    → get_elem? ps k ≡ some p
    → (q : Proc) × (get_elem? (modify_at (λ q. record q { parent = init }) ps i) k ≡ some q)
      × Moved self init (i == k) p q
Moved-adopt self init i k ps {c} {p} at child e = elim (Bool-cases (i == k)) [
  | inl eq ↦
      let there : get_elem? ps i ≡ some p = rw (==→eq i k eq) e in
      (
        record p { parent = init },
        rw (← ==→eq i k eq) (get_elem?-modify_at_self (λ q. record q { parent = init }) ps i there),
        ground arith,
      )
  | inr ne ↦ (
    p,
    rw (get_elem?-modify_at_ne (λ q. record q { parent = init }) ps i k (ground arith)) e,
    ground arith,
  )
]

pub reparent_one-Moved :
    (self i k : ℕ) (t : Table) {p : Proc}
    → t.initproc ≢ self
    → get_elem? t.procs k ≡ some p
    → (q : Proc) × (get_elem? (reparent_one self i t).procs k ≡ some q)
      × Moved self t.initproc (i == k) p q
unfolding reparent_one wakeup1
reparent_one-Moved self i k t {p} ne e = elim (Option-cases (get_elem? t.procs i)) [
  | inl out ↦ (p, rw (out, reparent_one) e, ground arith)
  | inr (c, at) ↦ elim (Bool-cases (c.parent == self)) [
    | inr other ↦ (p, rw (at, reparent_one, other) e, ground arith)
    | inl child ↦
        let (q, got, m) = Moved-adopt self t.initproc i k t.procs at child e in
        elim (Bool-cases (is_zombie c.state)) [
          | inr f ↦ (q, rw (at, reparent_one, child, f) got, m)
          | inl z ↦ (
            wake t.initproc q,
            rw (at, reparent_one, child, z) (get_elem?-map (wake t.initproc) _ k got),
            ground arith,
          )
        ]
  ]
]

-- The loop visits the slots from `i` to `i + n`.
pub reparent-Moved :
    (self n i k : ℕ) (t : Table) {p : Proc}
    → t.initproc ≢ self
    → get_elem? t.procs k ≡ some p
    → (q : Proc) × (get_elem? (reparent self n i t).procs k ≡ some q)
      × Moved self t.initproc (leb i k && ltb k (i + n)) p q
unfolding reparent
reparent-Moved self zero i k t {p} ne e = (p, e, ground arith)
reparent-Moved self (suc n) i k t {p} ne e =
    let (q, at, m) = reparent_one-Moved self i k t ne e in
    let same = initproc-reparent_one self i t in
    let (r, at', m') =
      reparent-Moved self n (i + 1) k (reparent_one self i t) (ground (arith, same)) at in
    (r, at', ground (arith, same))

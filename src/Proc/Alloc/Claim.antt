-- ===== src/Proc/Alloc/Claim.antt =====
-- The slot that allocproc takes, and its new process id.
use cpp.Prelude.{
  ◌⊎◌, ℕ, ◌+◌, ◌<◌, ◌^◌, ◌≡◌, ◌≢◌, sym, subst, inl, inr, true, some, get_elem?, modify_at,
  get_elem?-modify_at_inv, arith, Option-cases,
}
use cpp.Prelude.Int.{pos}
use cpp.Proc.Table.{next_pid, embryo, is_unused, Proc, Table, update, find_unused}
use cpp.Proc.Table.Pids.{Live, IsValid}
use cpp.Proc.Table.Running.{SameRunning, SameRunning-modify_at}
use cpp.Proc.Table.Ops.{find_unused-is_unused}
use cpp.Proc.Alloc.{claim}

-- What `allocproc` writes into its slot under the lock.
abbrev pub claimed : ℕ → Proc → Proc
claimed pid p = record p { state = embryo; pid = pid; priority = pos 10 }

pub record Claim (t : Table) (i : ℕ) (t' : Table) : Type 0 where
  pub old : Proc
  pub at : get_elem? t.procs i ≡ some old
  pub free : is_unused old.state ≡ true
  pub result : t' ≡ record (update t i (claimed t.nextpid)) { nextpid = next_pid t.nextpid }

pub claim_lem : (t : Table) {i : ℕ} {t' : Table} → claim t ≡ some (i, t') → Claim t i t'
unfolding claim
claim_lem t {i} {t'} e = elim (Option-cases (find_unused t.procs 0)) [
  | inl nothing ↦ absurd (ground arith)
  | inr (j, found) ↦
      let (d, p, at, got, free) = find_unused-is_unused t.procs 0 found in
      let same : d ≡ i = ground arith in
      record {
        old = p;
        at = subst (λ k. get_elem? t.procs k ≡ some p) same got;
        free = free;
        result = ground arith;
      }
]

claimed_pid :
    (t : Table) (i k : ℕ) {old q : Proc}
    → get_elem? t.procs i ≡ some old
    → IsValid t
    → Live (modify_at (claimed t.nextpid) t.procs i) k q
    → ((k ≡ i) × (q.pid ≡ t.nextpid)) ⊎ ((k ≢ i) × Live t.procs k q)
claimed_pid t i k at v l =
    let (p, was, how) = get_elem?-modify_at_inv (claimed t.nextpid) t.procs i k l.at in
    elim how [
      | inl h ↦ inl (sym h.0, ground arith)
      | inr h ↦ inr (ground arith, record { at = ground arith; in_use = l.in_use })
    ]

fresh-IsValid :
    (t : Table) (i : ℕ) {old : Proc}
    → get_elem? t.procs i ≡ some old
    → IsValid t
    → t.nextpid + 1 < 2 ^ 32
    → IsValid (record (update t i (claimed t.nextpid)) { nextpid = next_pid t.nextpid })
fresh-IsValid t i at v room = record {
  counter = omega arith;
  bound = λ k q l. elim (claimed_pid t i k at v l) [
    | inl h ↦ omega (arith, h.1, v.counter)
    | inr h ↦ omega (arith, v.bound k q h.1, v.counter)
  ];
  distinct = λ j k p q l m ne. elim (claimed_pid t i j at v l) [
    | inl h ↦ elim (claimed_pid t i k at v m) [
      | inl h' ↦ absurd (ne (omega (arith, h.0, h'.0)))
      | inr h' ↦ omega (arith, h.1, v.bound k q h'.1)
    ]
    | inr h ↦ elim (claimed_pid t i k at v m) [
      | inl h' ↦ omega (arith, h'.1, v.bound j p h.1)
      | inr h' ↦ v.distinct j k p q h.1 h'.1 ne
    ]
  ];
}

-- Where process ids are below `nextpid`, each live process has one of its own, and `nextpid` does not
-- wrap around, the same is so after `allocproc` has taken a slot and an id.
pub claim-IsValid :
    (t : Table) {i : ℕ} {t' : Table}
    → claim t ≡ some (i, t')
    → t.nextpid + 1 < 2 ^ 32
    → IsValid t
    → IsValid t'
claim-IsValid t {i} e room v =
    let c = claim_lem t e in subst IsValid (sym c.result) (fresh-IsValid t i c.at v room)

pub claim-SameRunning :
    (t : Table) {i : ℕ} {t' : Table} → claim t ≡ some (i, t') → SameRunning t.procs t'.procs
claim-SameRunning t {i} e =
    let c = claim_lem t e in
    subst (λ u. SameRunning t.procs u.procs) (sym c.result)
      (SameRunning-modify_at (claimed t.nextpid) t.procs i λ p a. ground (arith, c.at, c.free))

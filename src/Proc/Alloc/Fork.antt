-- ===== src/Proc/Alloc/Fork.antt =====
-- What `fork` makes: the child's slot, where every call succeeds.
use cpp.Prelude.{
  ◌∙◌, subst, ℕ, ◌≡◌, ◌≢◌, ◌⊎◌, refl, true, false, ◌==◌, if◌then◌else◌, some, List, [], ◌∷◌,
  get_elem?, get_elem?-modify_at_self, get_elem?-modify_at_ne, arith, Bool-cases, inl, inr,
}
use cpp.Proc.Table.{next_pid, pid_int, is_unused, runnable, Proc, Table, proc_addr, update}
use cpp.Proc.Kernel.{Kernel, Callees}
use cpp.Proc.Alloc.{
  dup_files, clear_eax, copy_name, fork_into, fork, allocproc, claim, stack_setup, trap_frame_at,
  context_at,
}
use cpp.Proc.Alloc.Claim.{claimed, claim_lem}

-- The child's descriptors: the parent's, and its own where the parent has none.
abbrev pub inherit : List ℕ → List ℕ → List ℕ
inherit (f ∷ fs) (g ∷ gs) = (if f == 0 then g else f) ∷ inherit fs gs
inherit _ gs = gs

-- The child as `fork_into` leaves it.
abbrev pub child_of : Table → ℕ → ℕ → Proc → Proc → Proc
child_of t cur pgdir p child = record child {
  pgdir = pgdir;
  sz = p.sz;
  parent = proc_addr t cur;
  frame = clear_eax p.frame;
  ofile = inherit p.ofile child.ofile;
  cwd = p.cwd;
  name = copy_name p.name child.name;
  state = runnable;
}

dup_files_skip :
    {W : Type 0} (c : Callees W) (f g : ℕ) (fs gs r : List ℕ) (k k' : Kernel W)
    → (f == 0) ≡ true
    → dup_files c fs gs k ≡ some (r, k')
    → dup_files c (f ∷ fs) (g ∷ gs) k ≡ some (g ∷ r, k')
unfolding dup_files
dup_files_skip c f g fs gs r k k' zero_f e = ground arith

dup_files_dup :
    {W : Type 0} (c : Callees W) (f g : ℕ) (fs gs r : List ℕ) (k k' : Kernel W) {w : W}
    → (f == 0) ≡ false
    → c.filedup f k.world ≡ some (tt, w)
    → dup_files c fs gs (record k { world = w }) ≡ some (r, k')
    → dup_files c (f ∷ fs) (g ∷ gs) k ≡ some (f ∷ r, k')
unfolding dup_files
dup_files_dup c f g fs gs r k k' used d e = ground arith

dup_files_nil :
    {W : Type 0} (c : Callees W) (fs gs : List ℕ) (k : Kernel W)
    → (fs ≡ []) ⊎ (gs ≡ [])
    → dup_files c fs gs k ≡ some (gs, k)
unfolding dup_files
dup_files_nil c [] gs k h = refl
dup_files_nil c (f ∷ fs) [] k h = refl
dup_files_nil c (f ∷ fs) (g ∷ gs) k h = ground arith

-- Each descriptor in use has a file that is open.
abbrev pub AllOpen : {W : Type 0} → (ℕ → W → Type 0) → List ℕ → W → Type 0
AllOpen is_open [] w = Unit
AllOpen is_open (f ∷ fs) w = (f ≢ 0 → is_open f w) × AllOpen is_open fs w

-- `filedup` of a file that is open succeeds, and files that are open stay so.
abbrev pub DupsOpen : {W : Type 0} → Callees W → (ℕ → W → Type 0) → Type 0
DupsOpen {W} c is_open =
    (f : ℕ) (w : W)
    → is_open f w
    → (w' : W) × (c.filedup f w ≡ some (tt, w')) × ((g : ℕ) → is_open g w → is_open g w')

AllOpen-keeps :
    {W : Type 0} (is_open : ℕ → W → Type 0) (fs : List ℕ) {w w' : W}
    → ((g : ℕ) → is_open g w → is_open g w')
    → AllOpen is_open fs w
    → AllOpen is_open fs w'
AllOpen-keeps is_open [] keeps h = tt
AllOpen-keeps is_open (f ∷ fs) keeps h =
    (λ ne. keeps f (h.0 ne), AllOpen-keeps is_open fs keeps h.1)

module _ {W : Type 0} (c : Callees W) (is_open : ℕ → W → Type 0) (dups : DupsOpen c is_open)
    (idups : (i : ℕ) (w : W) → (w' : W) × (c.idup i w ≡ some (tt, w'))) where
  dup_files_lem :
      (fs gs : List ℕ) (k : Kernel W)
      → AllOpen is_open fs k.world
      → (w : W) × (dup_files c fs gs k ≡ some (inherit fs gs, record k { world = w }))
  dup_files_lem [] gs k h = (k.world, dup_files_nil c [] gs k (inl refl))
  dup_files_lem (f ∷ fs) [] k h = (k.world, dup_files_nil c (f ∷ fs) [] k (inr refl))
  dup_files_lem (f ∷ fs) (g ∷ gs) k h = elim (Bool-cases (f == 0)) [
    | inl unused ↦
        let (w, e) = dup_files_lem fs gs k h.1 in
        (w, rw unused (dup_files_skip c f g fs gs _ k _ unused e))
    | inr used ↦
        let (w, e, keeps) = dups f k.world (h.0 (ground arith)) in
        let (w', e') =
          dup_files_lem fs gs (record k { world = w }) (AllOpen-keeps is_open fs keeps h.1) in
        (w', rw used (dup_files_dup c f g fs gs _ k _ used e e'))
  ]

  fork_into_lem :
      (cur np pgdir : ℕ) (k : Kernel W) {p child : Proc} {w : W}
      → get_elem? k.table.procs cur ≡ some p
      → get_elem? k.table.procs np ≡ some child
      → c.copyuvm p.pgdir p.sz k.world ≡ some (pgdir, w)
      → pgdir ≢ 0
      → AllOpen is_open p.ofile w
      → (k' : Kernel W) × (fork_into c cur np k ≡ some (pid_int child.pid, k'))
        × (get_elem? k'.table.procs np ≡ some (child_of k.table cur pgdir p child))
  unfolding fork_into
  fork_into_lem cur np pgdir k {p} {child} {w} at at' copy ok opens =
      let t = k.table in
      let f₁ : Proc → Proc = λ q. record q {
        pgdir = pgdir;
        sz = p.sz;
        parent = proc_addr t cur;
        frame = clear_eax p.frame;
      } in
      let k₁ : Kernel W = record { table = update t np f₁; world = w } in
      let (w₂, dup) = dup_files_lem p.ofile child.ofile k₁ opens in
      let f₂ : Proc → Proc = λ q. record q { ofile = inherit p.ofile child.ofile } in
      let (w₃, cwd) = idups p.cwd w₂ in
      let f₃ : Proc → Proc = λ q. record q { cwd = p.cwd; name = copy_name p.name q.name } in
      let f₄ : Proc → Proc = λ q. record q { state = runnable } in
      (
        record { table = update (update (update (update t np f₁) np f₂) np f₃) np f₄; world = w₃ },
        ground (arith, dup, cwd),
        get_elem?-modify_at_self f₄ _ np (
            get_elem?-modify_at_self f₃ _ np
              (get_elem?-modify_at_self f₂ _ np (get_elem?-modify_at_self f₁ t.procs np at'))),
      )

  -- Let the caller be in use, let a slot, a stack and a copy of the memory be to be had, let the
  -- caller's files be open, and let `filedup` of an open file and `idup` succeed. Then `fork` returns the child's new id. The child is RUNNABLE,
  -- has the caller as parent, its size, its current directory, its registers but for `eax`, which
  -- is 0, the new stack and page directory, and its open files.
  pub fork-child :
      (cur np pgdir stack : ℕ) (k : Kernel W) {p : Proc} {t : Table} {w w' : W}
      → get_elem? k.table.procs cur ≡ some p
      → is_unused p.state ≡ false
      → claim k.table ≡ some (np, t)
      → c.kalloc k.world ≡ some (stack, w)
      → stack ≢ 0
      → c.copyuvm p.pgdir p.sz w ≡ some (pgdir, w')
      → pgdir ≢ 0
      → AllOpen is_open p.ofile w'
      → (k' : Kernel W) × (q : Proc) × (fork c cur k ≡ some (pid_int k.table.nextpid, k'))
        × (get_elem? k'.table.procs np ≡ some q)
        × (q.state ≡ runnable)
        × (q.pid ≡ k.table.nextpid)
        × (q.parent ≡ proc_addr k.table cur)
        × (q.frame ≡ clear_eax p.frame)
        × (q.sz ≡ p.sz)
        × (q.cwd ≡ p.cwd)
        × (q.pgdir ≡ pgdir)
        × (q.kstack ≡ stack)
        × ((old : Proc)
            → get_elem? k.table.procs np ≡ some old
            → q.ofile ≡ inherit p.ofile old.ofile)
  unfolding fork allocproc stack_setup
  fork-child cur np pgdir stack k {p} {t} {w} at live slot got ne copy ok opens =
      let cl = claim_lem k.table slot in
      let f : Proc → Proc = λ q. record q {
        kstack = stack;
        tf = trap_frame_at stack;
        ret = c.trapret;
        context = context_at stack;
        saved = record { edi = 0; esi = 0; ebx = 0; ebp = 0; eip = c.forkret };
      } in
      let t₁ : Table = record (update k.table np (claimed k.table.nextpid)) {
        nextpid = next_pid k.table.nextpid;
      } in
      let t₂ : Table = update t₁ np f in
      let k₂ : Kernel W = record { table = t₂; world = w } in
      let apart : np ≢ cur = λ e.
        let same = subst (λ i. get_elem? k.table.procs i ≡ some cl.old) e cl.at in
        ground (arith, same, cl.free) in
      let at₂ : get_elem? t₂.procs cur ≡ some p =
        get_elem?-modify_at_ne f _ np cur apart
        ∙ get_elem?-modify_at_ne (claimed k.table.nextpid) k.table.procs np cur apart
        ∙ at in
      let new : get_elem? t₂.procs np ≡ some (f (claimed k.table.nextpid cl.old)) =
        get_elem?-modify_at_self f _ np
          (get_elem?-modify_at_self (claimed k.table.nextpid) k.table.procs np cl.at) in
      let (k', e, there) = fork_into_lem cur np pgdir k₂ at₂ new copy ok opens in
      (
        k',
        _,
        ground (arith, cl.result, e),
        there,
        refl,
        refl,
        refl,
        refl,
        refl,
        refl,
        refl,
        refl,
        λ old a. ground (arith, cl.at),
      )

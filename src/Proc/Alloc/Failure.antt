-- ===== src/Proc/Alloc/Failure.antt =====
-- `fork` on its error paths: no slot, no kernel stack, no memory for the copy.
use cpp.Prelude.{
  ℕ, ◌≡◌, ◌≢◌, ◌⊎◌, ◌∙◌, refl, sym, subst, inl, inr, true, false, none, some, List, get_elem?,
  modify_at, modify_at-modify_at, get_elem?-modify_at_self, get_elem?-modify_at_ne, arith,
}
use cpp.Prelude.Int.{minus_one}
use cpp.Proc.Table.{next_pid, is_unused, unused, Proc, Table, update}
use cpp.Proc.Table.Pids.{NoNewPids, NoNewPids-modify_at}
use cpp.Proc.Kernel.{Kernel, Callees}
use cpp.Proc.Alloc.{fork_into, fork, allocproc, claim, stack_setup, trap_frame_at, context_at}
use cpp.Proc.Alloc.Claim.{claimed, claim_lem}

NoNewPids-freed :
    (f g : Proc → Proc) (ps : List Proc) (i : ℕ)
    → ((p : Proc) → is_unused (g p).state ≡ true)
    → NoNewPids ps (modify_at g (modify_at f ps i) i)
NoNewPids-freed f g ps i free =
    subst (NoNewPids ps) (sym (modify_at-modify_at f g ps i))
      (NoNewPids-modify_at (λ p. g (f p)) ps i (λ p a h. ground (arith, free (f p))))

-- The calls that fail: there is no slot, or no page for the kernel stack, or not enough memory for
-- the copy of the parent's.
abbrev pub Fails : {W : Type 0} → Callees W → Kernel W → Proc → Type 0
Fails {W} c k p =
    (claim k.table ≡ none)
    ⊎ ((np : ℕ) × (t : Table) × (stack : ℕ) × (w : W) × (claim k.table ≡ some (np, t))
        × (c.kalloc k.world ≡ some (stack, w))
        × ((stack ≡ 0)
            ⊎ ((stack ≢ 0)
                × ((w₁ : W) × (w₂ : W) × (c.copyuvm p.pgdir p.sz w ≡ some (0, w₁))
                    × (c.kfree stack w₁ ≡ some (tt, w₂))))))

module _ {W : Type 0} (c : Callees W) where
  -- When there is no slot, or no stack, or no copy of the memory for the child of a caller that is
  -- in use, `fork` returns -1, and every process that is live then was live before, in its slot
  -- and with its id.
  pub fork-failure :
      (cur : ℕ) (k : Kernel W) {p : Proc}
      → get_elem? k.table.procs cur ≡ some p
      → is_unused p.state ≡ false
      → Fails c k p
      → (k' : Kernel W) × (fork c cur k ≡ some (minus_one, k'))
        × NoNewPids k.table.procs k'.table.procs
  unfolding fork allocproc stack_setup fork_into
  fork-failure cur k at live (inl full) = (k, ground arith, λ i q l. (q, l, refl))
  fork-failure cur k at live (inr (np, t, stack, w, slot, got, inl no_stack)) =
      let cl = claim_lem k.table slot in
      let g : Proc → Proc = λ q. record q { kstack = 0; state = unused } in
      (
        record { table = update t np g; world = w },
        ground arith,
        subst (λ t. NoNewPids k.table.procs (update t np g).procs) (sym cl.result)
            (NoNewPids-freed (claimed k.table.nextpid) g k.table.procs np (λ p. refl)),
      )
  fork-failure cur k {p} at live
        (inr (np, t, stack, w, slot, got, inr (ne, (w₁, w₂, copy, freed)))) =
      let cl = claim_lem k.table slot in
      let f : Proc → Proc = λ q. record q {
        kstack = stack;
        tf = trap_frame_at stack;
        ret = c.trapret;
        context = context_at stack;
        saved = record { edi = 0; esi = 0; ebx = 0; ebp = 0; eip = c.forkret };
      } in
      let h : Proc → Proc = claimed k.table.nextpid in
      let g : Proc → Proc = λ q. record q { pgdir = 0; kstack = 0; state = unused } in
      let t₁ : Table = record (update k.table np h) { nextpid = next_pid k.table.nextpid } in
      let apart : np ≢ cur = λ e.
        let same = subst (λ i. get_elem? k.table.procs i ≡ some cl.old) e cl.at in
        ground (arith, same, cl.free) in
      let at₂ : get_elem? (modify_at f t₁.procs np) cur ≡ some p =
        get_elem?-modify_at_ne f _ np cur apart
        ∙ get_elem?-modify_at_ne h k.table.procs np cur apart
        ∙ at in
      let new : get_elem? (modify_at f t₁.procs np) np ≡ some (f (h cl.old)) =
        get_elem?-modify_at_self f _ np (get_elem?-modify_at_self h k.table.procs np cl.at) in
      (
        record { table = update (update t₁ np f) np g; world = w₂ },
        ground (arith, cl.result),
        subst (λ ps. NoNewPids k.table.procs (modify_at g ps np))
            (sym (modify_at-modify_at h f k.table.procs np))
            (NoNewPids-freed (λ p. f (h p)) g k.table.procs np (λ p. refl)),
      )

-- ===== src/Pipe/Alloc.antt =====
-- `pipealloc` of pipe.c, over the table of open files. `kalloc`, and what is in its page before
-- and after, are parameters. No path to `bad` has a page, so that `kfree` there is never called.
use cpp.Prelude.{ℕ, true, false, ◌==◌, if◌then◌else◌, Option, none, some, List}
use cpp.File.{fd_pipe, F, Calls, ◌>>=◌, ◌>>◌, pure, modify, filealloc, fileclose}
use cpp.Pipe.{Pipe, fresh}

module _ {W : Type 0} (c : Calls W) (kalloc : F W ℕ) (page_at : ℕ → F W (List ℕ))
    (put_pipe : Pipe → F W (Unit {0})) where
  -- The label `bad`, without a page.
  pub close_both : Option ℕ → Option ℕ → F W (Unit {0})
  close_both f0 f1 = do
    elim f0 [ none ↦ pure tt | some f ↦ fileclose c f ]
    elim f1 [ none ↦ pure tt | some f ↦ fileclose c f ]

  -- The two ends of the pipe at the address `p`.
  pub set_ends : (p f0 f1 : ℕ) → F W (Unit {0})
  set_ends p f0 f1 = do
    page ← page_at p
    put_pipe (fresh p page)
    modify f0 (λ x. record x { type = fd_pipe; readable = true; writable = false; pipe = p })
    modify f1 (λ x. record x { type = fd_pipe; readable = false; writable = true; pipe = p })

  -- The reading end and the writing end, or the -1 of the source.
  pub pipealloc : F W (Option (ℕ × ℕ))
  unfolding close_both set_ends
  pipealloc = do
    f0 ← filealloc
    elim f0 [
      | none ↦ do close_both none none; pure none
      | some r ↦ do
        f1 ← filealloc
        elim f1 [
          | none ↦ do close_both (some r) none; pure none
          | some w ↦ do
            p ← kalloc
            if p == 0
                then (do close_both (some r) (some w); pure none)
                else (do set_ends p r w; pure (some (r, w)))
        ]
    ]

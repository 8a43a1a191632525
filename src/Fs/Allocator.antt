-- ===== src/Fs/Allocator.antt =====
-- What balloc and bfree of fs.c promise, without the bitmap: an allocator over a set of blocks.
use cpp.Prelude.{
  ℕ, zero, suc, ◌+◌, ◌≤◌, ◌<◌, ◌≡◌, refl, subst, sym, ap, ◌∙◌, Bool, true, false, ◌==◌,
  if◌then◌else◌, Option, none, some, List, [], ◌∷◌, arith, inl, inr, trichotomy,
}
use cpp.Fs.{Fs, balloc, bfree}
use cpp.Fs.Balloc.{balloc_lem, bfree_lem}
use cpp.Fs.Mounted.{is_free, last_meta, IsMounted, Moved}

pub data Call : Type 0 where
  alloc : Call
  release : ℕ → Call

abbrev pub add : ℕ → Option (List ℕ) → Option (List ℕ)
add r none = none
add r (some rs) = some (r ∷ rs)

-- The calls in turn; the blocks that the allocations give, or a panic.
pub run : ℕ → List Call → Fs → Option (List ℕ)
run dev [] s = some []
run dev (alloc ∷ cs) s = elim (balloc dev s) [ none ↦ none | some (r, s') ↦ add r (run dev cs s') ]
run dev (release b ∷ cs) s = elim (bfree dev b s) [ none ↦ none | some (_, s') ↦ run dev cs s' ]

-- The least free block from `x` on, of `n`.
unfoldable pub least : (n x : ℕ) → (ℕ → Bool) → Option ℕ
least zero x free = none
least (suc n) x free = let rest = least n (x + 1) free in if free x then some x else rest

abbrev pub update : (ℕ → Bool) → ℕ → Bool → ℕ → Bool
update f r v x = if x == r then v else f x

-- The same calls on a set: an allocation takes the least block of it, a block that is in the set
-- must not be freed.
unfoldable pub replay : (size : ℕ) → List Call → (ℕ → Bool) → Option (List ℕ)
unfolding least
replay size [] f = some []
replay size (alloc ∷ cs) f = elim (least size 0 f) [
  | none ↦ none
  | some r ↦ add r (replay size cs (update f r false))
]
replay size (release b ∷ cs) f =
    let rest = replay size cs (update f b true) in if f b then none else rest

-- Only blocks that hold data are freed.
abbrev pub OnlyData : ℕ → ℕ → List Call → Type 0
OnlyData last size [] = Unit
OnlyData last size (alloc ∷ cs) = OnlyData last size cs
OnlyData last size (release b ∷ cs) = (last < b) × (b < size) × OnlyData last size cs

least_first :
    (n x r : ℕ) (f : ℕ → Bool)
    → x ≤ r
    → r < x + n
    → f r ≡ true
    → ((y : ℕ) → x ≤ y → y < r → f y ≡ false)
    → least n x f ≡ some r
unfolding least
least_first zero x r f lo hi here all = absurd (omega arith)
least_first (suc n) x r f lo hi here all = elim (trichotomy x r) [
  | inl lt ↦
      rw (all x (omega arith) lt)
        (least_first n (x + 1) r f (omega arith) (omega arith) here (λ y le. all y (omega arith)))
  | inr (inl at) ↦ ground (arith, ap f at)
  | inr (inr gt) ↦ absurd (omega arith)
]

least_none :
    (n x : ℕ) (f : ℕ → Bool) → ((y : ℕ) → x ≤ y → y < x + n → f y ≡ false) → least n x f ≡ none
unfolding least
least_none zero x f all = refl
least_none (suc n) x f all =
    rw (all x (omega arith) (omega arith))
      (least_none n (x + 1) f (λ y lo hi. all y (omega arith) (omega arith)))

-- The set is that of the blocks that the bitmap has as free.
abbrev pub Agrees : ℕ → Fs → (ℕ → Bool) → Type 0
Agrees dev s f = (x : ℕ) → x < s.sb.size → is_free dev s x ≡ f x

Agrees-Moved :
    (dev : ℕ) (s s' : Fs) (r : ℕ) (v : Bool) (f : ℕ → Bool)
    → Agrees dev s f
    → Moved dev s r v s'
    → Agrees dev s' (update f r v)
Agrees-Moved dev s s' r v f agree moved x lt =
    let lt' : x < s.sb.size = subst (λ t. x < t.size) moved.same_sb lt in
    ground (arith, moved.bits x lt', agree x lt')

-- On a file system as mkfs lays it out, any sequence of allocations and of calls that free blocks
-- of data gives the same blocks as the set of the free blocks does, from which an allocation takes
-- the least; the one panics exactly where the other does, when it is out of blocks or when a free
-- block is freed.
pub run_refines :
    (dev : ℕ) (cs : List Call) (s : Fs) (f : ℕ → Bool)
    → IsMounted dev s
    → Agrees dev s f
    → OnlyData (last_meta s.sb) s.sb.size cs
    → run dev cs s ≡ replay s.sb.size cs f
unfolding run replay
run_refines dev [] s f m agree range = refl
run_refines dev (alloc ∷ cs) s f m agree range = elim (balloc_lem dev s m) [
  | inl (e, all) ↦
      let nothing : least s.sb.size 0 f ≡ none =
        least_none s.sb.size 0 f (λ y lo hi. sym (agree y (omega arith)) ∙ all y (omega arith)) in
      ground arith
  | inr (r, s', e, first, moved, cleared) ↦
      let least_r : least s.sb.size 0 f ≡ some r =
        least_first s.sb.size 0 r f (omega arith) (omega (arith, first.in_size))
          (sym (agree r first.in_size) ∙ first.clear)
          (λ y lo hi. sym (agree y (omega (arith, first.in_size))) ∙ first.lowest y hi) in
      let rest : run dev cs s' ≡ replay s'.sb.size cs (update f r false) =
        run_refines dev cs s' (update f r false) moved.mounted
          (Agrees-Moved dev s s' r false f agree moved)
          (subst (λ t. OnlyData (last_meta t) t.size cs) (sym moved.same_sb) range) in
      ground (arith, rest ∙ ap (λ t. replay t.size cs (update f r false)) moved.same_sb)
]
run_refines dev (release b ∷ cs) s f m agree (above, below, range) =
    elim (bfree_lem dev s b m above below) [
      | inl (free_b, e) ↦ ground (arith, agree b below)
      | inr (s', used, e, moved, same) ↦
          let rest : run dev cs s' ≡ replay s'.sb.size cs (update f b true) =
            run_refines dev cs s' (update f b true) moved.mounted
              (Agrees-Moved dev s s' b true f agree moved)
              (subst (λ t. OnlyData (last_meta t) t.size cs) (sym moved.same_sb) range) in
          ground (
            arith,
            agree b below,
            rest ∙ ap (λ t. replay t.size cs (update f b true)) moved.same_sb,
          )
    ]

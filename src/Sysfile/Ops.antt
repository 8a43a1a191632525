-- ===== src/Sysfile/Ops.antt =====
-- The operations of log.c that OperatingSystem/HW5/sysfile.c begins and ends.
use cpp.Prelude.{ℕ, ◌+◌, ◌≡◌, refl, Bool, true, false, if◌then◌else◌, Option, none, some, arith}
use cpp.File.{F, Files, ◌>>◌, ◌>>=◌, pure, panic}
use cpp.Fs.{M}
use cpp.Sysfile.{Sys, lift, start_op, finish_op, get_cwd}

-- Where `m` returns, it has brought the operations from `n` to `p`.
pub record Runs {A : Type 0} (n p : ℕ) (m : F Sys A) : Type 0 where
  pub at :
      (k : Files Sys) (a : A) (k' : Files Sys)
      → k.world.ops ≡ n
      → m k ≡ some (a, k')
      → k'.world.ops ≡ p

bind_at :
    {A B : Type 0} {p q : ℕ} {f : A → F Sys B} {a : B} {k' : Files Sys} (r : Option (A × Files Sys))
    → ((b : A) (l : Files Sys) → r ≡ some (b, l) → l.world.ops ≡ p)
    → ((b : A) (l : Files Sys) → l.world.ops ≡ p → f b l ≡ some (a, k') → k'.world.ops ≡ q)
    → elim r [ none ↦ none | some (b, l) ↦ f b l ] ≡ some (a, k')
    → k'.world.ops ≡ q
bind_at none hm hf e = ground arith
bind_at (some (b, l)) hm hf e = hf b l (hm b l refl) e

pub Runs-bind :
    {A B : Type 0} {n p q : ℕ} {m : F Sys A} {f : A → F Sys B}
    → Runs n p m
    → ((a : A) → Runs p q (f a))
    → Runs n q (m >>= f)
Runs-bind {m = m} {f = f} hm hf = record {
  at = λ k a k' n e. bind_at (m k) (λ b l d. hm.at k b l n d) (λ b l d. (hf b).at l a k' d) e;
}

pub Runs-if :
    {A : Type 0} {n q : ℕ} (b : Bool) {l r : F Sys A}
    → Runs n q l
    → Runs n q r
    → Runs n q (if b then l else r)
Runs-if true hl hr = hl
Runs-if false hl hr = hr

pub Runs-pure : {A : Type 0} {n : ℕ} {a : A} → Runs n n (pure a)
Runs-pure = record { at = λ k a k' n e. ground arith }

pub Runs-start : {n : ℕ} → Runs n (n + 1) start_op
unfolding start_op
Runs-start = record { at = λ k a k' n e. ground arith }

pub Runs-finish : {n : ℕ} → Runs (n + 1) n finish_op
unfolding finish_op
Runs-finish = record { at = λ k a k' n e. ground arith }

pub Runs-lift : {A : Type 0} {n : ℕ} (m : M A) → Runs n n (lift m)
unfolding lift
Runs-lift m = record { at = λ k a k' n e. ground arith }

pub Runs-option :
    {A B : Type 0} {n q : ℕ} (x : Option A) {l : F Sys B} {f : A → F Sys B}
    → Runs n q l
    → ((a : A) → Runs n q (f a))
    → Runs n q (elim x [ none ↦ l | some a ↦ f a ])
Runs-option none hl hf = hl
Runs-option (some a) hl hf = hf a

pub Runs-cwd : {n : ℕ} → Runs n n get_cwd
Runs-cwd = record { at = λ k a k' n e. ground arith }

pub Runs-pair :
    {A B C : Type 0} {n q : ℕ} (x : Option (A × B)) {l : F Sys C} {f : A → B → F Sys C}
    → Runs n q l
    → ((a : A) (b : B) → Runs n q (f a b))
    → Runs n q (elim x [ none ↦ l | some (a, b) ↦ f a b ])
Runs-pair none hl hf = hl
Runs-pair (some (a, b)) hl hf = hf a b

pub Runs-panic : {A : Type 0} {n q : ℕ} → Runs n q (panic {A = A})
Runs-panic = record { at = λ k a k' n e. ground arith }

-- `end_op` and the result
pub Runs-end : {A : Type 0} {n : ℕ} (a : A) → Runs (n + 1) n (finish_op >> pure a)
Runs-end a = Runs-bind Runs-finish (λ _. Runs-pure)

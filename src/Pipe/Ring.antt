-- ===== src/Pipe/Ring.antt =====
-- A pipe as a queue: the bytes that have been written and not read, oldest first.
use cpp.Prelude.{
  ℕ, zero, suc, ◌+◌, ◌-◌, ◌%◌, ◌^◌, ◌≤◌, ◌<◌, ◌≡◌, ◌≢◌, refl, ap, ap₂, true, List, [], ◌∷◌, ◌++◌,
  get_or, set, length, ◌↔◌, length-set, get_or-set_self, get_or-set_ne, arith,
}
use cpp.Pipe.{Pipe, pipesize, fresh, is_full, is_empty, put, next_byte, advance}

-- The number of unread bytes.
abbrev pub count : Pipe → ℕ
count p = (p.nwrite + 2 ^ 32 - p.nread) % 2 ^ 32

-- `n` bytes from the counter `r` on.
abbrev pub window : List ℕ → ℕ → ℕ → List ℕ
window bytes r zero = []
window bytes r (suc n) = get_or bytes (r % pipesize) 0 ∷ window bytes ((r + 1) % 2 ^ 32) n

abbrev pub contents : Pipe → List ℕ
contents p = window p.bytes p.nread (count p)

-- The counters are 32-bit numbers, and at most 512 apart, wrap-around included.
pub record IsValid (p : Pipe) : Type 0 where
  pub room : length p.bytes ≡ pipesize
  pub nread_range : p.nread < 2 ^ 32
  pub nwrite_range : p.nwrite < 2 ^ 32
  pub bounded : count p ≤ pipesize

pub length-window : (bytes : List ℕ) (r n : ℕ) → length (window bytes r n) ≡ n
length-window bytes r zero = refl
length-window bytes r (suc n) = ap suc (length-window bytes ((r + 1) % 2 ^ 32) n)

window-put :
    (bytes : List ℕ) (v r n w : ℕ)
    → length bytes ≡ pipesize
    → r < 2 ^ 32
    → n < pipesize
    → w ≡ (r + n) % 2 ^ 32
    → window (set bytes (w % pipesize) v) r (suc n) ≡ window bytes r n ++ (v ∷ [])
window-put bytes v r zero w size hr hn e =
    let same : w ≡ r = omega arith in
    rw same (ap (λ x. x ∷ []) (get_or-set_self bytes (r % pipesize) v 0 (omega arith)))
window-put bytes v r (suc n) w size hr hn e =
    ap₂ ◌∷◌ (get_or-set_ne bytes (w % pipesize) (r % pipesize) v 0 (omega arith))
      (window-put bytes v ((r + 1) % 2 ^ 32) n w size (omega arith) (omega arith) (omega arith))

pub is_full_iff : (p : Pipe) → IsValid p → (is_full p ≡ true) ↔ (count p ≡ pipesize)
is_full_iff p v = (λ e. ground arith, λ e. ground arith)

pub is_empty_iff : (p : Pipe) → IsValid p → (is_empty p ≡ true) ↔ (count p ≡ 0)
is_empty_iff p v = (λ e. ground arith, λ e. ground arith)

-- A byte that is put into a pipe with room comes last.
pub put_lem :
    (b : ℕ) (p : Pipe)
    → IsValid p
    → count p < pipesize
    → IsValid (put b p)
      × (count (put b p) ≡ count p + 1)
      × (contents (put b p) ≡ contents p ++ (b ∷ []))
unfolding put
put_lem b p v room =
    let more : count (put b p) ≡ suc (count p) = omega arith in
    (
      record {
        room = omega (arith, length-set p.bytes (p.nwrite % pipesize) b);
        nread_range = omega arith;
        nwrite_range = omega arith;
        bounded = omega arith;
      },
      omega arith,
      rw more
          (window-put p.bytes b p.nread (count p) p.nwrite v.room (omega arith) room (omega arith)),
    )

-- The byte that is read from a pipe comes first.
pub advance_lem :
    (p : Pipe)
    → IsValid p
    → count p ≢ 0
    → IsValid (advance p)
      × (count p ≡ count (advance p) + 1)
      × (contents p ≡ next_byte p ∷ contents (advance p))
unfolding advance next_byte
advance_lem p v some_there =
    let less : count p ≡ suc (count (advance p)) = omega arith in
    (
      record {
        room = v.room;
        nread_range = omega arith;
        nwrite_range = omega arith;
        bounded = omega arith;
      },
      omega arith,
      rw less,
    )

-- A new pipe is valid, and there is nothing in it.
pub fresh-IsValid :
    (base : ℕ) (page : List ℕ)
    → length page ≡ pipesize
    → IsValid (fresh base page) × (contents (fresh base page) ≡ [])
unfolding fresh
fresh-IsValid base page size = (
  record {
    room = size;
    nread_range = omega arith;
    nwrite_range = omega arith;
    bounded = omega arith;
  },
  refl,
)

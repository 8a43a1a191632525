-- ===== src/Bio/Read.antt =====
-- `bread` and `bwrite` between the buffers and the disk.
use cpp.Prelude.{
  ℕ, ◌≡◌, ◌≢◌, ◌⊎◌, refl, true, false, ◌&&◌, ◌==◌, if◌then◌else◌, some, get_elem?,
  get_elem?-modify_at_self, eq→==, arith,
}
use cpp.Bio.{Buf, Cache, update, is_block, in_range, iderw, bwrite}

-- What `bread` hands out: a valid buffer of the block, with the contents that a valid buffer of it
-- had before, or else those of the disk.
pub record Fetched (dev blockno : ℕ) (c : Cache) (i : ℕ) (c' : Cache) : Type 0 where
  pub buf : Buf
  pub at : get_elem? c'.bufs i ≡ some buf
  pub fresh : buf.valid ≡ true
  pub matches : is_block dev blockno buf ≡ true
  pub source :
      ((x : Buf) × (get_elem? c.bufs i ≡ some x)
        × (is_block dev blockno x ≡ true)
        × (x.valid ≡ true)
        × (buf.contents ≡ x.contents))
      ⊎ (buf.contents ≡ c'.disk dev blockno)

-- No buffer of the block is valid. Buffers that were never used are of device 0.
abbrev pub Uncached : (dev blockno : ℕ) → Cache → Type 0
Uncached dev blockno c =
    dev ≢ 0
    → (i : ℕ) (x : Buf) → get_elem? c.bufs i ≡ some x
    → is_block dev blockno x ≡ true
    → x.valid ≡ false

-- `bwrite` of a buffer whose block is on the disk puts its contents there, and no other block changes.
pub bwrite_lem :
    (i : ℕ) (c : Cache) {b : Buf}
    → get_elem? c.bufs i ≡ some b
    → in_range b.dev b.blockno c ≡ true
    → (c' : Cache) × (bwrite i c ≡ some c')
      × (c'.disk b.dev b.blockno ≡ b.contents)
      × ((d n : ℕ) → (d ≢ b.dev) ⊎ (n ≢ b.blockno) → c'.disk d n ≡ c.disk d n)
      × (get_elem? c'.bufs i ≡ some (record b { valid = true; dirty = false }))
unfolding bwrite iderw
bwrite_lem i c {b} at inside =
    let f : Buf → Buf = λ b. record b { dirty = true } in
    let g : Buf → Buf = λ b. record b { dirty = false; valid = true } in
    let at' = get_elem?-modify_at_self f c.bufs i at in
    (
      record (update (update c i f) i g) {
        disk = λ d n. if (d == b.dev) && (n == b.blockno) then b.contents else c.disk d n;
      },
      ground arith,
      ground (arith, eq→== b.dev b.dev refl, eq→== b.blockno b.blockno refl),
      λ d n ne. ground arith,
      get_elem?-modify_at_self g _ i at',
    )

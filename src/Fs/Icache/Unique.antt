-- ===== src/Fs/Icache/Unique.antt =====
-- The cache of fs.c never has two entries with references for one inode.
use cpp.Prelude.{
  ℕ, ◌-◌, ◌^◌, ◌<◌, ◌≡◌, ◌≢◌, sym, ap, subst, ◌∙◌, true, some, List, arith, inl, inr, ◌⊎◌,
  get_elem?,
}
use cpp.Fs.{Inode, Fs}
use cpp.Fs.Icache.{is_inode, is_positive, iget}
use cpp.Fs.Icache.Get.{Absent, Got, again, anew, iget_lem}

-- Two places with references are of two inodes.
pub record IsCache (ips : List Inode) : Type 0 where
  pub unique :
      (i j : ℕ) (ip jp : Inode)
      → get_elem? ips i ≡ some ip
      → get_elem? ips j ≡ some jp
      → is_positive ip.ref ≡ true
      → is_inode ip.dev ip.inum jp ≡ true
      → i ≡ j

eq_or_ne : (a b : ℕ) → (a ≡ b) ⊎ (a ≢ b)
eq_or_ne a b = ground arith

some-inj : {x y : Inode} → some x ≡ some y → x ≡ y
some-inj e = cc

Got-is_inode :
    (dev inum : ℕ) (ip jp : Inode) → Got dev inum ip jp → (jp.dev ≡ dev) × (jp.inum ≡ inum)
Got-is_inode dev inum ip jp (again is e) = ground (arith, ap (λ t. t.dev) e, ap (λ t. t.inum) e)
Got-is_inode dev inum ip jp (anew z e) = (ap (λ t. t.dev) e, ap (λ t. t.inum) e)

Got-cases :
    (dev inum : ℕ) (ip jp : Inode)
    → Got dev inum ip jp
    → (is_inode dev inum ip ≡ true) ⊎ (ip.ref ≡ 0)
Got-cases dev inum ip jp (again is e) = inl is
Got-cases dev inum ip jp (anew z e) = inr z

-- An entry with references, whose inode an entry has.
is_inode_swap :
    (a b : Inode)
    → is_positive a.ref ≡ true
    → is_inode a.dev a.inum b ≡ true
    → is_inode b.dev b.inum a ≡ true
is_inode_swap a b p q = ground arith

module _ (dev inum : ℕ) (ips ips' : List Inode) (i : ℕ) {ip jp : Inode} (c : IsCache ips)
    (at : get_elem? ips i ≡ some ip) (at' : get_elem? ips' i ≡ some jp) (got : Got dev inum ip jp)
    (new : ip.ref ≡ 0 → Absent dev inum ips)
    (same : (j : ℕ) → i ≢ j → get_elem? ips' j ≡ get_elem? ips j) where
  -- No other entry is the inode's.
  alone : (k : ℕ) (x : Inode) → i ≢ k → get_elem? ips k ≡ some x → is_inode dev inum x ≡ true → ⊥
  alone k x ne here is = elim (Got-cases dev inum ip jp got) [
    | inl is' ↦ ne (c.unique i k ip x at here (ground arith) (ground arith))
    | inr z ↦ absurd (ground (arith, new z k x here))
  ]

  unique_lem :
      (a b : ℕ) (x y : Inode)
      → get_elem? ips' a ≡ some x
      → get_elem? ips' b ≡ some y
      → is_positive x.ref ≡ true
      → is_inode x.dev x.inum y ≡ true
      → a ≡ b
  unique_lem a b x y ha hb alive is = elim (eq_or_ne i a) [
    | inl ea ↦ elim (eq_or_ne i b) [
      | inl eb ↦ omega arith
      | inr nb ↦
          let e : x ≡ jp = some-inj (sym ha ∙ ap (get_elem? ips') (sym ea) ∙ at') in
          let of = Got-is_inode dev inum ip jp got in
          absurd (
            alone b y nb (sym (same b nb) ∙ hb)
              (ground (arith, ap (λ t. t.dev) e, ap (λ t. t.inum) e)))
    ]
    | inr na ↦ elim (eq_or_ne i b) [
      | inl eb ↦
          let e : y ≡ jp = some-inj (sym hb ∙ ap (get_elem? ips') (sym eb) ∙ at') in
          let of = Got-is_inode dev inum ip jp got in
          absurd (
            alone a x na (sym (same a na) ∙ ha)
              (ground (arith, ap (λ t. t.dev) e, ap (λ t. t.inum) e)))
      | inr nb ↦ c.unique a b x y (sym (same a na) ∙ ha) (sym (same b nb) ∙ hb) alive is
    ]
  ]

-- iget keeps the cache such that no two entries with references are of one inode.
pub iget-IsCache :
    (dev inum : ℕ) (s : Fs) {i : ℕ} {s' : Fs}
    → ((i : ℕ) (ip : Inode) → get_elem? s.icache i ≡ some ip → ip.ref < 2 ^ 31 - 1)
    → IsCache s.icache
    → iget dev inum s ≡ some (i, s')
    → IsCache s'.icache
iget-IsCache dev inum s {i} {s'} room c run = elim (iget_lem dev inum s room) [
  | inl (e, absent, used) ↦ absurd (ground arith)
  | inr (i', s'', ip, jp, e, at, at', got, new, same) ↦
      let eq : s'' ≡ s' = ground arith in
      subst (λ t. IsCache t.icache) eq
        (record { unique = unique_lem dev inum s.icache s''.icache i' c at at' got new same })
]

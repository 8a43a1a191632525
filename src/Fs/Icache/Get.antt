-- ===== src/Fs/Icache/Get.antt =====
-- iget of fs.c: one entry of the cache for each inode that is referred to.
use cpp.Prelude.{
  ℕ, zero, suc, ◌+◌, ◌-◌, ◌^◌, ◌<◌, ◌≡◌, ◌≢◌, ◌⊎◌, refl, sym, ap, subst, ◌∙◌, true, false, ◌==◌,
  if◌then◌else◌, Option, none, some, List, [], ◌∷◌, arith, inl, inr, get_elem?, modify_at,
  Bool-cases, get_elem?-modify_at_self, get_elem?-modify_at_ne,
}
use cpp.Fs.{Inode, Fs}
use cpp.Fs.Icache.{Slot, cached, empty, full, is_inode, find_slot, add_ref, recycle, iget}

-- No entry is the inode's.
abbrev pub Absent : (dev inum : ℕ) → List Inode → Type 0
Absent dev inum ips =
    (k : ℕ) (ip : Inode) → get_elem? ips k ≡ some ip → is_inode dev inum ip ≡ false

-- What the loop promises of its result, for the entries from number `i` on.
abbrev Found : (dev inum : ℕ) → List Inode → (i : ℕ) → Option ℕ → Slot → Type 0
Found dev inum ips i e (cached j) =
    (k : ℕ) × (ip : Inode) × (j ≡ i + k)
    × (get_elem? ips k ≡ some ip)
    × (is_inode dev inum ip ≡ true)
Found dev inum ips i e (empty j) =
    Absent dev inum ips
    × ((e ≡ some j)
        ⊎ ((k : ℕ) × (ip : Inode) × (j ≡ i + k) × (get_elem? ips k ≡ some ip) × (ip.ref ≡ 0)))
Found dev inum ips i e full =
    Absent dev inum ips
    × (e ≡ none)
    × ((k : ℕ) (ip : Inode) → get_elem? ips k ≡ some ip → ip.ref ≢ 0)

Absent-cons :
    (dev inum : ℕ) (ip : Inode) (ips : List Inode)
    → is_inode dev inum ip ≡ false
    → Absent dev inum ips
    → Absent dev inum (ip ∷ ips)
Absent-cons dev inum ip ips no_ip rest zero jp at =
    let e : ip ≡ jp = cc in subst (λ t. is_inode dev inum t ≡ false) e no_ip
Absent-cons dev inum ip ips no_ip rest (suc k) jp at = rest k jp at

Found-later :
    (dev inum : ℕ) (ip : Inode) (ips : List Inode) (i : ℕ) (e : Option ℕ) (r : Slot)
    → is_inode dev inum ip ≡ false
    → Found dev inum ips
        (i + 1)
        (elim e [ none ↦ if ip.ref == 0 then some i else none | some j ↦ some j ])
        r
    → Found dev inum (ip ∷ ips) i e r
Found-later dev inum ip ips i e (cached j) other (k, jp, at, here, yes_jp) =
    (suc k, jp, omega arith, here, yes_jp)
Found-later dev inum ip ips i none (empty j) other (absent, how) = (
  Absent-cons dev inum ip ips other absent,
  elim how [
    | inl e ↦ elim (Bool-cases (ip.ref == 0)) [
      | inl free ↦ inr (0, ip, ground arith, refl, ground arith)
      | inr used ↦ inl (ground arith)
    ]
    | inr (k, jp, at, here, z) ↦ inr (suc k, jp, omega arith, here, z)
  ],
)
Found-later dev inum ip ips i (some m) (empty j) other (absent, how) = (
  Absent-cons dev inum ip ips other absent,
  elim how [ inl e ↦ inl e | inr (k, jp, at, here, z) ↦ inr (suc k, jp, omega arith, here, z) ],
)
Found-later dev inum ip ips i none full other (absent, e, used) =
    (Absent-cons dev inum ip ips other absent, refl, λ k jp at. all_used k jp at)
  where
    all_used : (k : ℕ) (jp : Inode) → get_elem? (ip ∷ ips) k ≡ some jp → jp.ref ≢ 0
    all_used zero jp at z = ground arith
    all_used (suc k) jp at z = used k jp at z
Found-later dev inum ip ips i (some m) full other (absent, e, used) = absurd (ground arith)

abbrev remember : Inode → (i : ℕ) → Option ℕ → Option ℕ
remember ip i e = elim e [ none ↦ if ip.ref == 0 then some i else none | some j ↦ some j ]

Found-cons :
    (dev inum : ℕ) (ip : Inode) (ips : List Inode) (i : ℕ) (e : Option ℕ) (r : Slot)
    → Found dev inum ips (i + 1) (remember ip i e) r
    → Found dev inum (ip ∷ ips) i e (if is_inode dev inum ip then cached i else r)
Found-cons dev inum ip ips i e r found = elim (Bool-cases (is_inode dev inum ip)) [
  | inl here ↦
      subst (λ b. Found dev inum (ip ∷ ips) i e (if b then cached i else r)) (sym here)
        (0, ip, omega arith, refl, here)
  | inr other ↦
      subst (λ b. Found dev inum (ip ∷ ips) i e (if b then cached i else r)) (sym other)
        (Found-later dev inum ip ips i e r other found)
]

find_slot_lem :
    (dev inum : ℕ) (ips : List Inode) (i : ℕ) (e : Option ℕ)
    → Found dev inum ips i e (find_slot dev inum ips i e)
unfolding find_slot
find_slot_lem dev inum [] i none = (λ k ip at. ground arith, refl, λ k ip at. ground arith)
find_slot_lem dev inum [] i (some j) = (λ k ip at. ground arith, inl refl)
find_slot_lem dev inum (ip ∷ ips) i none =
    Found-cons dev inum ip ips i none _ (find_slot_lem dev inum ips (i + 1) (remember ip i none))
find_slot_lem dev inum (ip ∷ ips) i (some j) =
    Found-cons dev inum ip ips i (some j) _ (find_slot_lem dev inum ips (i + 1) (some j))

-- The entry before and after a call that gets the inode: another reference, or a place that had none.
pub data Got (dev inum : ℕ) (ip jp : Inode) : Type 0 where
  again : is_inode dev inum ip ≡ true → jp ≡ record ip { ref = ip.ref + 1 } → Got dev inum ip jp
  anew :
      ip.ref ≡ 0
      → jp ≡ record ip { dev = dev; inum = inum; ref = 1; valid = false }
      → Got dev inum ip jp

cached_lem :
    (dev inum : ℕ) (s : Fs) (i : ℕ)
    → find_slot dev inum s.icache 0 none ≡ cached i
    → iget dev inum s ≡ some (i, record s { icache = modify_at add_ref s.icache i })
unfolding iget
cached_lem dev inum s i e = ground arith

empty_lem :
    (dev inum : ℕ) (s : Fs) (i : ℕ)
    → find_slot dev inum s.icache 0 none ≡ empty i
    → iget dev inum s ≡ some (i, record s { icache = modify_at (recycle dev inum) s.icache i })
unfolding iget
empty_lem dev inum s i e = ground arith

full_lem :
    (dev inum : ℕ) (s : Fs) → find_slot dev inum s.icache 0 none ≡ full → iget dev inum s ≡ none
unfolding iget
full_lem dev inum s e = ground arith

pub Slot-cases : (r : Slot) → ((i : ℕ) × (r ≡ cached i)) ⊎ (((i : ℕ) × (r ≡ empty i)) ⊎ (r ≡ full))
Slot-cases (cached i) = inl (i, refl)
Slot-cases (empty i) = inr (inl (i, refl))
Slot-cases full = inr (inr refl)

-- iget gives the entry of the inode where one has references, which then has one reference more;
-- else an entry that had none, which is now the inode's and not valid. The other entries stay. It
-- panics exactly where all entries have references and none is the inode's.
pub iget_lem :
    (dev inum : ℕ) (s : Fs)
    → ((i : ℕ) (ip : Inode) → get_elem? s.icache i ≡ some ip → ip.ref < 2 ^ 31 - 1)
    → ((iget dev inum s ≡ none)
        × Absent dev inum s.icache
        × ((k : ℕ) (ip : Inode) → get_elem? s.icache k ≡ some ip → ip.ref ≢ 0))
      ⊎ ((i : ℕ) × (s' : Fs) × (ip : Inode) × (jp : Inode) × (iget dev inum s ≡ some (i, s'))
          × (get_elem? s.icache i ≡ some ip)
          × (get_elem? s'.icache i ≡ some jp)
          × Got dev inum ip jp
          × (ip.ref ≡ 0 → Absent dev inum s.icache)
          × ((j : ℕ) → i ≢ j → get_elem? s'.icache j ≡ get_elem? s.icache j))
iget_lem dev inum s room = elim (Slot-cases (find_slot dev inum s.icache 0 none)) [
  | inl (i, e) ↦
      let (k, ip, here, at, is) =
        subst (Found dev inum s.icache 0 none) e (find_slot_lem dev inum s.icache 0 none) in
      let same : i ≡ k = omega arith in
      let at' : get_elem? s.icache i ≡ some ip = ap (get_elem? s.icache) same ∙ at in
      inr (
        i,
        record s { icache = modify_at add_ref s.icache i },
        ip,
        add_ref ip,
        cached_lem dev inum s i e,
        at',
        get_elem?-modify_at_self add_ref s.icache i at',
        again is (ap (λ r. record ip { ref = r }) (omega (arith, room i ip at'))),
        λ z. absurd (ground arith),
        λ j ne. get_elem?-modify_at_ne add_ref s.icache i j ne,
      )
  | inr (inl (i, e)) ↦
      let (absent, how) =
        subst (Found dev inum s.icache 0 none) e (find_slot_lem dev inum s.icache 0 none) in
      elim how [
        | inl no_earlier ↦ absurd (ground arith)
        | inr (k, ip, here, at, free) ↦
            let same : i ≡ k = omega arith in
            let at' : get_elem? s.icache i ≡ some ip = ap (get_elem? s.icache) same ∙ at in
            inr (
              i,
              record s { icache = modify_at (recycle dev inum) s.icache i },
              ip,
              recycle dev inum ip,
              empty_lem dev inum s i e,
              at',
              get_elem?-modify_at_self (recycle dev inum) s.icache i at',
              anew free refl,
              λ z. absent,
              λ j ne. get_elem?-modify_at_ne (recycle dev inum) s.icache i j ne,
            )
      ]
  | inr (inr e) ↦
      let (absent, nothing, used) =
        subst (Found dev inum s.icache 0 none) e (find_slot_lem dev inum s.icache 0 none) in
      inl (full_lem dev inum s e, absent, used)
]

-- ===== src/Fs/Tests.antt =====
-- The theorems about fs.c at a small disk.
use cpp.Prelude.{
  ℕ, ◌+◌, ◌-◌, ◌<◌, ◌≡◌, ◌≢◌, ◌⊎◌, refl, ◌∙◌, true, false, ltb, leb, ◌&&◌, if◌then◌else◌, arith,
  inr, some, none, [], ◌∷◌, get_elem?,
}
use cpp.Prelude.Int.{pos}
use cpp.Strings.{Bytes}
use cpp.Fs.{Inode, Fs, is_clear, bsize, balloc}
use cpp.Fs.Balloc.{balloc_lem}
use cpp.Fs.Mounted.{is_free, IsFirst, Moved}
use cpp.Fs.Allocator.{alloc, release, run, replay, run_refines}
use cpp.Fs.Icache.{iblock, dinode_at, decode, iget, iupdate}
use cpp.Fs.Icache.Get.{Absent, Got, iget_lem}
use cpp.Fs.Icache.Unique.{IsCache, iget-IsCache}
use cpp.Fs.Icache.Update.{iupdate_lem}
use cpp.Fs.Content.{bmap, readi, writei}
use cpp.Fs.Content.Slots.{addr_of, content}
use cpp.Fs.Content.Bmap.{Extends, bmap_lem}
use cpp.Fs.Content.Read.{Missing, with_mem, loaded, readi_lem}
use cpp.Fs.Content.RoundTrip.{Wrote, writei_lem, readi-writei}
use cpp.Fs.Path.{skipelem}
use cpp.Fs.Path.Elements.{drop_slashes, Took, skipelem_lem}
use cpp.Fs.Sample.{
  mounted, file, got, no_devices, mounted-IsMounted, mounted-room, mounted-IsCache, mounted-mem,
  file-FitsDisk, file-IsFile, file-HasPlace,
}

-- The first free block is 5; block 4, freed, is the next to be taken.
run_refines_example :
    run 1 (alloc ∷ release 4 ∷ alloc ∷ alloc ∷ []) mounted
    ≡ replay 16 (alloc ∷ release 4 ∷ alloc ∷ alloc ∷ []) (is_free 1 mounted)
run_refines_example =
    run_refines 1 (alloc ∷ release 4 ∷ alloc ∷ alloc ∷ []) mounted (is_free 1 mounted)
      mounted-IsMounted (λ x lt. refl) (omega arith)

run_blocks : run 1 (alloc ∷ release 4 ∷ alloc ∷ alloc ∷ []) mounted ≡ some (5 ∷ 4 ∷ 6 ∷ [])
unfolding replay is_clear
run_blocks = run_refines_example ∙ refl

balloc_lem_example :
    ((balloc 1 mounted ≡ none) × ((x : ℕ) → x < 16 → is_free 1 mounted x ≡ false))
    ⊎ ((r : ℕ) × (s' : Fs) × (balloc 1 mounted ≡ some (r, s'))
        × IsFirst 1 mounted r
        × Moved 1 mounted r false s'
        × ((o : ℕ) → o < bsize → s'.disk 1 r o ≡ 0))
balloc_lem_example = balloc_lem 1 mounted mounted-IsMounted

iget_lem_example :
    ((iget 1 7 mounted ≡ none)
      × Absent 1 7 mounted.icache
      × ((k : ℕ) (ip : Inode) → get_elem? mounted.icache k ≡ some ip → ip.ref ≢ 0))
    ⊎ ((i : ℕ) × (s' : Fs) × (ip : Inode) × (jp : Inode) × (iget 1 7 mounted ≡ some (i, s'))
        × (get_elem? mounted.icache i ≡ some ip)
        × (get_elem? s'.icache i ≡ some jp)
        × Got 1 7 ip jp
        × (ip.ref ≡ 0 → Absent 1 7 mounted.icache)
        × ((j : ℕ) → i ≢ j → get_elem? s'.icache j ≡ get_elem? mounted.icache j))
iget_lem_example = iget_lem 1 7 mounted mounted-room

iget-IsCache_example : IsCache got.icache
unfolding iget
iget-IsCache_example = iget-IsCache 1 7 mounted {i = 1} {s' = got} mounted-room mounted-IsCache refl

iupdate_lem_example :
    (s' : Fs) × (iupdate 0 mounted ≡ some (tt, s'))
    × (s'.icache ≡ mounted.icache)
    × (s'.sb ≡ mounted.sb)
    × ((jp : Inode)
        → decode (s'.disk 1 2) (dinode_at 5) jp ≡ record file {
          dev = jp.dev;
          inum = jp.inum;
          ref = jp.ref;
          locked = jp.locked;
          valid = true;
        })
    × ((n : ℕ) (jp : Inode)
        → n ≢ 5
        → decode (s'.disk 1 (iblock n mounted.sb)) (dinode_at n) jp
          ≡ decode (mounted.disk 1 (iblock n mounted.sb)) (dinode_at n) jp)
    × ((n : ℕ) → n ≢ 2 → s'.disk 1 n ≡ mounted.disk 1 n)
iupdate_lem_example = iupdate_lem 0 mounted refl file-FitsDisk refl

bmap_lem_example :
    ((bmap 0 30 mounted ≡ none) × (addr_of file mounted 31 ≡ 0))
    ⊎ ((a : ℕ) × (s' : Fs) × (ip' : Inode) × (bmap 0 30 mounted ≡ some (a, s'))
        × (a ≢ 0)
        × (addr_of ip' s' 31 ≡ a)
        × Extends 0 mounted file s' ip')
bmap_lem_example = bmap_lem 0 mounted file 30 file-IsFile (omega arith)

readi_lem_example :
    ((readi no_devices 0 1000 5 10 mounted ≡ none) × Missing file mounted 5 10)
    ⊎ ((s' : Fs) × (ip' : Inode) × (readi no_devices 0 1000 5 10 mounted ≡ some (pos 10, s'))
        × Extends 0 (with_mem s'.mem mounted) file s' ip'
        × ((x : ℕ) → s'.mem x ≡ loaded mounted.mem 1000 10 (content file mounted) 5 x))
readi_lem_example =
    readi_lem no_devices 0 mounted file 1000 5 10 file-IsFile (omega arith) (omega arith)
      (omega arith) (omega arith)

writei_lem_example :
    ((writei no_devices 0 0 90 600 mounted ≡ none) × Missing file mounted 90 600)
    ⊎ ((s' : Fs) × (ip' : Inode) × (writei no_devices 0 0 90 600 mounted ≡ some (pos 600, s'))
        × Wrote 0 mounted file 0 90 600 s' ip')
writei_lem_example =
    writei_lem no_devices 0 mounted file 0 90 600 file-IsFile file-HasPlace mounted-mem
      (omega arith) (omega arith) (omega arith)

readi-writei_example :
    ((writei no_devices 0 0 90 600 mounted ≡ none) × Missing file mounted 90 600)
    ⊎ ((s₁ s₂ : Fs) × (writei no_devices 0 0 90 600 mounted ≡ some (pos 600, s₁))
        × (readi no_devices 0 2000 90 600 s₁ ≡ some (pos 600, s₂))
        × ((x : ℕ)
            → s₂.mem x
              ≡ (if leb 2000 x && ltb x 2600 then mounted.mem (0 + (x - 2000)) else mounted.mem x)))
readi-writei_example =
    readi-writei no_devices 0 mounted file 0 2000 90 600 file-IsFile file-HasPlace mounted-mem
      (omega arith) (omega arith) (omega arith) (omega arith) (omega arith)

-- "/bi" at 0, and the array at 100.
skipelem_lem_example :
    ((drop_slashes (47 ∷ 98 ∷ 105 ∷ []) ≡ [])
      × (skipelem 10 mounted.mem 0 100 ≡ some (none, mounted.mem)))
    ⊎ ((p : ℕ) × (m' : Bytes) × (skipelem 10 mounted.mem 0 100 ≡ some (some p, m'))
        × Took mounted.mem 0 100 (47 ∷ 98 ∷ 105 ∷ []) p m')
skipelem_lem_example =
    skipelem_lem 10 mounted.mem 0 100 (47 ∷ 98 ∷ 105 ∷ [])
      (refl, omega arith, (refl, omega arith, (refl, omega arith, refl))) (omega arith)
      (inr (omega arith))

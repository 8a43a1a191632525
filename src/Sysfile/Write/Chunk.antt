-- ===== src/Sysfile/Write/Chunk.antt =====
-- A chunk of filewrite of OperatingSystem/HW5/file.c: an operation of the log, with the inode locked.
use cpp.Prelude.{
  ℕ, ◌+◌, ◌-◌, ◌%◌, ◌^◌, ◌≤◌, ◌<◌, ◌≡◌, ◌≢◌, refl, sym, ap, ◌∙◌, subst, inl, inr, true, false, none,
  ◌&&◌, ltb, leb, ◌==◌, if◌then◌else◌, some, Option, get_elem?, modify_at, get_elem?-modify_at_self,
  arith,
}
use cpp.Prelude.Int.{pos}
use cpp.File.{Calls, File, Files, advance, write_chunk}
use cpp.Fs.{Inode, Fs}
use cpp.Fs.Bitmap.{AreBytes}
use cpp.Fs.Icache.{is_positive, ilock, iunlock}
use cpp.Fs.Icache.Lock.{set_locked, relocked, ilock_lem, iunlock_lem}
use cpp.Fs.Content.{max_size, writei, t_dev}
use cpp.Fs.Content.Slots.{slot, IsFile}
use cpp.Fs.Content.Grow.{HasPlace}
use cpp.Fs.Content.RoundTrip.{Wrote, writei_lem}
use cpp.Sysfile.{Sys, Env, lift, start_op, finish_op, calls}
use cpp.Sysfile.Write.{
  relocked-IsFile, relocked-slots, relocked-content, IsWritable, Written, WritesTo,
}

module _ (v : Env) (f i : ℕ) where
  abbrev c : Calls Sys
  c = calls v

  -- The state after a chunk, where writei left `s`.
  abbrev chunk_end : (n : ℕ) → Files Sys → Fs → Files Sys
  chunk_end n k s = record {
    table = modify_at (advance (pos n)) k.table f;
    world = record k.world { fs = relocked i false s };
  }

  finish_op_lem :
      (k : Files Sys)
      → finish_op (record k { world = record k.world { ops = k.world.ops + 1 } }) ≡ some (tt, k)
  unfolding finish_op
  finish_op_lem k =
      let more : (k.world.ops + 1 == 0) ≡ false = ground arith in
      let same : k.world.ops + 1 - 1 ≡ k.world.ops = omega arith in
      ap
        (λ b.
          if◌then◌else◌ {A = Option (Unit {0} × Files Sys)} b none
            (some (tt, record k { world = record k.world { ops = k.world.ops + 1 - 1 } })))
        more
      ∙ ap (λ o. some (tt, record k { world = record k.world { ops = o } })) same

  write_chunk_panic :
      (addr n : ℕ) (k : Files Sys) {x : File} {ip : Inode}
      → get_elem? k.table f ≡ some x
      → x.ip ≡ i
      → IsWritable i k.world.fs ip
      → writei v.devsw i addr x.off n (relocked i true k.world.fs) ≡ none
      → write_chunk c f addr n k ≡ none
  unfolding write_chunk calls lift start_op finish_op
  write_chunk_panic addr n k {x} {ip} at is_ip w stuck =
      let lock = ilock_lem i k.world.fs ip w.file.at w.positive w.free w.valid in
      ground (
        arith,
        lock,
        stuck,
        ap (λ j. ilock j k.world.fs) is_ip,
        ap (λ j. writei v.devsw j addr x.off n (relocked i true k.world.fs)) is_ip,
      )

  write_chunk_run :
      (addr n : ℕ) (k : Files Sys) {x : File} {ip jp : Inode} {s : Fs}
      → get_elem? k.table f ≡ some x
      → x.ip ≡ i
      → IsWritable i k.world.fs ip
      → writei v.devsw i addr x.off n (relocked i true k.world.fs) ≡ some (pos n, s)
      → get_elem? s.icache i ≡ some jp
      → is_positive jp.ref ≡ true
      → jp.locked ≡ true
      → write_chunk c f addr n k ≡ some (pos n, chunk_end n k s)
  unfolding write_chunk calls lift start_op
  write_chunk_run addr n k {x} {ip} {jp} {s} at is_ip w e at' positive held =
      let lock = ilock_lem i k.world.fs ip w.file.at w.positive w.free w.valid in
      let ended = finish_op_lem (chunk_end n k s) in
      let unlock = iunlock_lem i s jp at' positive held in
      ground (
        arith,
        lock,
        e,
        unlock,
        ended,
        ap (λ j. ilock j k.world.fs) is_ip,
        ap (λ j. iunlock j s) is_ip,
        ap (λ j. writei v.devsw j addr x.off n (relocked i true k.world.fs)) is_ip,
      )

  relocked-IsWritable :
      (s : Fs) (ip : Inode)
      → IsFile i s ip
      → HasPlace s ip
      → AreBytes s.mem
      → ip.type ≢ t_dev
      → is_positive ip.ref ≡ true
      → ip.valid ≡ true
      → IsWritable i (relocked i false s) (set_locked false ip)
  relocked-IsWritable s ip file place bytes ordinary positive valid = record {
    file = relocked-IsFile i false s ip file;
    place = place;
    bytes = bytes;
    ordinary = ordinary;
    positive = positive;
    free = refl;
    valid = valid;
  }

  -- The state after a chunk, from what writei has done under the lock.
  chunk-Written :
      (addr n : ℕ) (k : Files Sys) {x : File} {ip jp : Inode} {s : Fs}
      → get_elem? k.table f ≡ some x
      → x.off + n < 2 ^ 32
      → IsWritable i k.world.fs ip
      → Wrote i (relocked i true k.world.fs) (set_locked true ip) addr x.off n s jp
      → Written f i addr n x ip k (chunk_end n k s) (set_locked false jp)
  chunk-Written addr n k {x} {ip} {jp} {s} at range w done =
      let place : HasPlace s jp = ground (
        arith,
        w.place,
        ap (λ t. t.inum) done.shape,
        ap (λ t. t.inodestart) done.same_sb,
        ap (λ t. t.bmapstart) done.same_sb,
      ) in
      let moved : (x.off + n) % 2 ^ 32 ≡ x.off + n = omega arith in
      record {
        at =
            get_elem?-modify_at_self (advance (pos n)) k.table f at
            ∙ ap (λ o. some (record x { off = o })) moved;
        ready =
            relocked-IsWritable s jp done.file place (subst AreBytes (sym done.memory) w.bytes)
              (λ e. w.ordinary (sym (ap (λ t. t.type) done.shape) ∙ e))
              (ap (λ t. is_positive t.ref) done.shape ∙ w.positive)
              (ap (λ t. t.valid) done.shape ∙ w.valid);
        reads = λ o lt.
            relocked-content i false s jp o
            ∙ done.reads o lt
            ∙ ap
                (λ b.
                  if leb x.off o && ltb o (x.off + n)
                  then k.world.fs.mem (addr + (o - x.off))
                  else b)
                (relocked-content i true k.world.fs ip o);
        size = done.size;
        memory = done.memory;
        keeps = λ m lt ne z.
            done.keeps m lt (λ z'. ne (sym (relocked-slots i true k.world.fs ip m) ∙ z'))
              (sym (relocked-slots i false s jp m) ∙ z);
        ops = refl;
      }

  pub write_chunk_lem :
      (addr n : ℕ) (k : Files Sys) {x : File} {ip : Inode}
      → get_elem? k.table f ≡ some x
      → x.ip ≡ i
      → IsWritable i k.world.fs ip
      → x.off ≤ ip.size
      → x.off + n ≤ max_size
      → WritesTo f i (pos n) addr n x ip k (write_chunk c f addr n k)
  write_chunk_lem addr n k {x} {ip} at is_ip w before fits =
      let s : Fs = relocked i true k.world.fs in
      let jp : Inode = set_locked true ip in
      elim (writei_lem v.devsw i s jp addr x.off n (relocked-IsFile i true k.world.fs ip w.file)
        w.place w.bytes w.ordinary before fits) [
          | inl (e, (m, lo, hi, hole)) ↦ inl (
            write_chunk_panic addr n k at is_ip w e,
            (m, lo, hi, sym (relocked-slots i true k.world.fs ip (slot m)) ∙ hole),
          )
          | inr (s', jp', e, done) ↦ inr (
            chunk_end n k s',
            set_locked false jp',
            write_chunk_run addr n k at is_ip w e done.file.at
                (ap (λ t. is_positive t.ref) done.shape ∙ w.positive)
                (ap (λ t. t.locked) done.shape),
            chunk-Written addr n k at (omega arith) w done,
          )
        ]

-- ===== src/Sysfile/Descriptors.antt =====
-- The calls of OperatingSystem/HW5/file.c and the calls on descriptors of sysfile.c, as to the
-- operations that they begin and end.
use cpp.Prelude.{List, ℕ, zero, suc, Bool, ◌==◌, ltb, arith, if◌then◌else◌, Option, none, some}
use cpp.Prelude.Int.{ℤ, pos, negsuc, minus_one}
use cpp.File.{
  F, File, FileType, fd_none, fd_pipe, fd_inode, file_at, modify, filealloc, filedup, fileclose,
  last_close, filestat, read_inode, fileread, write_chunk, write_from, write_inode, filewrite,
  max_write, advance,
}
use cpp.Fs.Icache.{ilock, iunlock}
use cpp.Fs.Content.{iput, readi, writei}
use cpp.Sysfile.{
  to_count, Sys, Env, calls, argfd, fdalloc, set_fd, sys_dup, sys_read, sys_write, sys_close,
  sys_fstat, sys_pipe, close_ends, put_fds,
}
use cpp.Sysfile.Ops.{
  Runs, Runs-bind, Runs-if, Runs-pure, Runs-start, Runs-finish, Runs-lift, Runs-panic, Runs-option,
  Runs-pair,
}

-- The calls of pipe.c, and exec, end the operations that they begin and no others.
pub record EnvRuns (v : Env) : Type 0 where
  pub close : (n p : ℕ) (w : Bool) → Runs n n (v.pipeclose p w)
  pub read : (n p a : ℕ) (c : ℤ) → Runs n n (v.piperead p a c)
  pub write : (n p a : ℕ) (c : ℤ) → Runs n n (v.pipewrite p a c)
  pub alloc : (n : ℕ) → Runs n n v.pipealloc
  pub exec : (n path : ℕ) (argv : List ℕ) → Runs n n (v.exec path argv)

file_at_lem : {n : ℕ} (f : ℕ) → Runs n n (file_at {W = Sys} f)
file_at_lem f = record { at = λ k a k' n e. ground arith }

pub modify_lem : {n : ℕ} (f : ℕ) (g : File → File) → Runs n n (modify {W = Sys} f g)
modify_lem f g = record { at = λ k a k' n e. ground arith }

pub filealloc_lem : {n : ℕ} → Runs n n (filealloc {W = Sys})
unfolding filealloc
filealloc_lem = record { at = λ k a k' n e. ground arith }

pub filedup_lem : {n : ℕ} (f : ℕ) → Runs n n (filedup {W = Sys} f)
unfolding filedup
filedup_lem f = Runs-bind (file_at_lem f) (λ x. Runs-if (x.ref == 0) Runs-panic (modify_lem _ _))

Runs-type :
    {A : Type 0} {n q : ℕ} (t : FileType) {a b c : F Sys A}
    → Runs n q a
    → Runs n q b
    → Runs n q c
    → Runs n q (elim t [ fd_none ↦ a | fd_pipe ↦ b | fd_inode ↦ c ])
Runs-type fd_none ha hb hc = ha
Runs-type fd_pipe ha hb hc = hb
Runs-type fd_inode ha hb hc = hc

Runs-pos :
    {A : Type 0} {n q : ℕ} (z : ℤ) {f g : ℕ → F Sys A}
    → ((m : ℕ) → Runs n q (f m))
    → ((m : ℕ) → Runs n q (g m))
    → Runs n q (elim z [ pos m ↦ f m | negsuc m ↦ g m ])
Runs-pos (pos m) hf hg = hf m
Runs-pos (negsuc m) hf hg = hg m

set_fd_lem : {n : ℕ} (fd : ℕ) (f : Option ℕ) → Runs n n (set_fd fd f)
set_fd_lem fd f = record { at = λ k a k' n e. ground arith }

pub fdalloc_keeps : {n : ℕ} (f : ℕ) → Runs n n (fdalloc f)
unfolding fdalloc
fdalloc_keeps f = record { at = λ k a k' n e. ground arith }

argfd_keeps : {n : ℕ} (x : Option ℤ) → Runs n n (argfd x)
unfolding argfd
argfd_keeps x = record { at = λ k a k' n e. ground arith }

pub sys_dup_lem : {n : ℕ} (x : Option ℤ) → Runs n n (sys_dup x)
unfolding sys_dup
sys_dup_lem x = Runs-bind (argfd_keeps x) (λ y. Runs-pair y Runs-pure (λ _ f.
    Runs-bind (fdalloc_keeps f)
      (λ z. Runs-option z Runs-pure (λ _. Runs-bind (filedup_lem f) (λ _. Runs-pure)))))

module _ {v : Env} (h : EnvRuns v) where
  last_close_lem : {n : ℕ} (x : File) → Runs n n (last_close (calls v) x)
  unfolding last_close calls
  last_close_lem x =
      Runs-type x.type Runs-pure (h.close _ _ _)
        (Runs-bind Runs-start (λ _. Runs-bind (Runs-lift (iput x.ip)) (λ _. Runs-finish)))

  pub fileclose_keeps : {n : ℕ} (f : ℕ) → Runs n n (fileclose (calls v) f)
  unfolding fileclose
  fileclose_keeps f = Runs-bind (file_at_lem f) (λ x.
      Runs-if (x.ref == 0) Runs-panic (
        Runs-if (ltb 1 x.ref) (modify_lem _ _)
          (Runs-bind (modify_lem f _) (λ _. last_close_lem x))))

  filestat_keeps : {n : ℕ} (f st : ℕ) → Runs n n (filestat (calls v) f st)
  unfolding filestat calls
  filestat_keeps f st = Runs-bind (file_at_lem f) (λ x. Runs-type x.type Runs-pure Runs-pure (
      Runs-bind (Runs-lift _)
        (λ _. Runs-bind (Runs-lift _) (λ _. Runs-bind (Runs-lift _) (λ _. Runs-pure)))))

  read_inode_keeps :
      {n : ℕ} (f addr : ℕ) (c : ℤ) (x : File) → Runs n n (read_inode (calls v) f addr c x)
  unfolding read_inode calls
  read_inode_keeps f addr c x = Runs-bind (Runs-lift (ilock x.ip)) (λ _.
      Runs-bind (file_at_lem f) (λ x.
        Runs-bind (Runs-lift (readi v.devsw x.ip addr x.off (to_count c))) (λ r.
          Runs-bind (modify_lem f (advance r))
            (λ _. Runs-bind (Runs-lift (iunlock x.ip)) (λ _. Runs-pure {a = r})))))

  fileread_keeps : {n : ℕ} (f addr : ℕ) (c : ℤ) → Runs n n (fileread (calls v) f addr c)
  unfolding fileread calls
  fileread_keeps f addr c = Runs-bind (file_at_lem f) (λ x.
      Runs-if x.readable
        (Runs-type x.type Runs-panic (h.read _ _ _ _) (read_inode_keeps f addr c x)) Runs-pure)

  write_chunk_keeps : {n : ℕ} (f addr c : ℕ) → Runs n n (write_chunk (calls v) f addr c)
  unfolding write_chunk calls
  write_chunk_keeps f addr c = Runs-bind Runs-start (λ _. Runs-bind (file_at_lem f) (λ x.
      Runs-bind (Runs-lift (ilock x.ip)) (λ _. Runs-bind (file_at_lem f) (λ x.
        Runs-bind (Runs-lift (writei v.devsw x.ip addr x.off c)) (λ r.
          Runs-bind (modify_lem f (advance r)) (λ _.
            Runs-bind (Runs-lift (iunlock x.ip))
              (λ _. Runs-bind Runs-finish (λ _. Runs-pure {a = r}))))))))

  write_from_keeps :
      {n : ℕ} (fuel f addr rest : ℕ) → Runs n n (write_from (calls v) fuel f addr rest)
  unfolding write_from
  write_from_keeps zero f addr rest = Runs-pure
  write_from_keeps (suc fuel) f addr rest = Runs-if (rest == 0) Runs-pure (
      Runs-bind (write_chunk_keeps f addr _) (λ r.
        Runs-pos r
          (λ m.
            Runs-if (m == (if ltb max_write rest then max_write else rest))
              (write_from_keeps fuel f _ _) Runs-panic)
          (λ _. Runs-pure)))

  write_inode_keeps : {n : ℕ} (f addr : ℕ) (c : ℤ) → Runs n n (write_inode (calls v) f addr c)
  unfolding write_inode
  write_inode_keeps f addr (pos c) =
      Runs-bind (write_from_keeps c f addr c)
        (λ done. Runs-pure {a = if done then pos c else minus_one})
  write_inode_keeps f addr (negsuc c) = Runs-pure

  filewrite_keeps : {n : ℕ} (f addr : ℕ) (c : ℤ) → Runs n n (filewrite (calls v) f addr c)
  unfolding filewrite calls
  filewrite_keeps f addr c = Runs-bind (file_at_lem f) (λ x.
      Runs-if x.writable
        (Runs-type x.type Runs-panic (h.write _ _ _ _) (write_inode_keeps f addr c)) Runs-pure)

  pub sys_read_lem : {n : ℕ} (x : Option ℤ) (b : Option (ℕ × ℤ)) → Runs n n (sys_read v x b)
  unfolding sys_read
  sys_read_lem x b =
      Runs-bind (argfd_keeps x)
        (λ y. Runs-pair y Runs-pure (λ _ f. Runs-pair b Runs-pure (λ p c. fileread_keeps f p c)))

  pub sys_write_lem : {n : ℕ} (x : Option ℤ) (b : Option (ℕ × ℤ)) → Runs n n (sys_write v x b)
  unfolding sys_write
  sys_write_lem x b =
      Runs-bind (argfd_keeps x)
        (λ y. Runs-pair y Runs-pure (λ _ f. Runs-pair b Runs-pure (λ p c. filewrite_keeps f p c)))

  pub sys_close_lem : {n : ℕ} (x : Option ℤ) → Runs n n (sys_close v x)
  unfolding sys_close
  sys_close_lem x = Runs-bind (argfd_keeps x) (λ y. Runs-pair y Runs-pure (λ fd f.
      Runs-bind (set_fd_lem fd none)
        (λ _. Runs-bind (fileclose_keeps f) (λ _. Runs-pure {a = pos 0}))))

  pub sys_fstat_lem : {n : ℕ} (x : Option ℤ) (b : Option ℕ) → Runs n n (sys_fstat v x b)
  unfolding sys_fstat
  sys_fstat_lem x b =
      Runs-bind (argfd_keeps x)
        (λ y. Runs-pair y Runs-pure (λ _ f. Runs-option b Runs-pure (λ st. filestat_keeps f st)))

  close_ends_keeps : {n : ℕ} (rf wf : ℕ) → Runs n n (close_ends v rf wf)
  unfolding close_ends
  close_ends_keeps rf wf =
      Runs-bind (fileclose_keeps rf) (λ _. Runs-bind (fileclose_keeps wf) (λ _. Runs-pure))

  put_fds_keeps : {n : ℕ} (fds n0 n1 : ℕ) → Runs n n (put_fds fds n0 n1)
  unfolding put_fds
  put_fds_keeps fds n0 n1 = Runs-lift _

  pub sys_pipe_lem : {n : ℕ} (fds : Option ℕ) → Runs n n (sys_pipe v fds)
  unfolding sys_pipe
  sys_pipe_lem none = Runs-pure
  sys_pipe_lem (some fds) = Runs-bind (h.alloc _) (λ y. Runs-pair y Runs-pure (λ rf wf.
      Runs-bind (fdalloc_keeps rf) (λ z. Runs-option z (close_ends_keeps rf wf) (λ n0.
        Runs-bind (fdalloc_keeps wf) (λ w.
          Runs-option w (Runs-bind (set_fd_lem n0 none) (λ _. close_ends_keeps rf wf))
            (λ n1. Runs-bind (put_fds_keeps fds n0 n1) (λ _. Runs-pure {a = pos 0})))))))

-- ===== src/File/Tests.antt =====
-- The table of open files of OperatingSystem/HW5/file.c with a file that is closed twice.
use cpp.Prelude.{◌≡◌, refl, true, false, none, some, [], ◌∷◌}
use cpp.Prelude.Int.{pos}
use cpp.File.{fd_none, fd_inode, File, Files, F, Calls, fileclose}

abbrev nothing : F (Unit {0}) (Unit {0})
nothing k = some (tt, k)

abbrev calls : Calls (Unit {0})
calls = record {
  pipeclose = λ p w. nothing;
  piperead = λ p a n k. some (n, k);
  pipewrite = λ p a n k. some (n, k);
  begin_op = nothing;
  end_op = nothing;
  ilock = λ i. nothing;
  iunlock = λ i. nothing;
  iput = λ i. nothing;
  stati = λ i s. nothing;
  readi = λ i a o n k. some (n, k);
  writei = λ i a o n k. some (pos n, k);
}

abbrev free : File
free = record {
  type = fd_none;
  ref = 0;
  readable = false;
  writable = false;
  pipe = 0;
  ip = 0;
  off = 0;
}

abbrev file : File
file = record {
  type = fd_inode;
  ref = 1;
  readable = true;
  writable = true;
  pipe = 0;
  ip = 3;
  off = 100;
}

abbrev files : Files (Unit {0})
files = record { table = file ∷ free ∷ []; world = tt }

-- A file that was closed once too often.
close_twice : fileclose calls 1 files ≡ none
unfolding fileclose
close_twice = refl

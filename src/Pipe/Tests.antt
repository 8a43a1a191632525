-- ===== src/Pipe/Tests.antt =====
-- Runs on a pipe whose counters are about to wrap around, and the theorems there.
use cpp.Prelude.{◌≡◌, refl, true, some, [], ◌∷◌, replicate}
use cpp.Prelude.Int.{pos}
use cpp.Proc.Kernel.{Kernel}
use cpp.Proc.Sample.{family}
use cpp.Pipe.{
  Pipe, wrote, got, put, write_loop, pipewrite, next_byte, advance, copy_loop, take_bytes, piperead,
}

abbrev old : Pipe
old = record {
  base = 0x3000;
  bytes = replicate 512 7;
  nread = 0xfffffffe;
  nwrite = 0xffffffff;
  readopen = true;
  writeopen = true;
}

-- Process 2 calls, and process 3 sleeps on the other end.
abbrev kernel : Kernel Pipe
kernel = record { table = family; world = old }

-- The byte that was there, and those of a write.
write_read :
    (k : Kernel Pipe) × (k' : Kernel Pipe) × (pipewrite 1 (1 ∷ 2 ∷ []) [] kernel
      ≡ some (wrote (pos 2), k))
    × (piperead 1 9 [] k ≡ some (got (7 ∷ 1 ∷ 2 ∷ []), k'))
unfolding pipewrite write_loop put piperead take_bytes copy_loop next_byte advance
write_read = (_, _, refl, refl)

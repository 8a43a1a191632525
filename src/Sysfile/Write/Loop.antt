-- ===== src/Sysfile/Write/Loop.antt =====
-- The loop of filewrite of OperatingSystem/HW5/file.c: what it writes in chunks is one write.
use cpp.Prelude.{ℕ, ltb, if◌then◌else◌}
use cpp.File.{Calls, File, max_write}
use cpp.Sysfile.{Sys, Env, calls}

module _ (v : Env) (f i : ℕ) where
  abbrev c : Calls Sys
  c = calls v

  abbrev chunk : ℕ → ℕ
  chunk rest = if ltb max_write rest then max_write else rest

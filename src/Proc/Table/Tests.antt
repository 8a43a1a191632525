-- ===== src/Proc/Table/Tests.antt =====
-- Runs of the scans of proc.c on small tables, and the theorems at such inputs.
use cpp.Prelude.{◌≡◌, refl, length}
use cpp.Prelude.Int.{pos, negsuc, minus_one}
use cpp.Proc.Table.{kill_loop, kill, chpr, cps_lines, cps}
use cpp.Proc.Sample.{family}

kill_missing : kill (pos 77) family ≡ (minus_one, family)
unfolding kill kill_loop
kill_missing = refl

chpr_missing : (chpr (pos 77) (negsuc 0) family).0 ≡ pos 77
unfolding chpr
chpr_missing = refl

cps_count : length (cps family).1 ≡ 3
unfolding cps cps_lines
cps_count = refl

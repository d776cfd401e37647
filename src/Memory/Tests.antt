-- ===== src/Memory/Tests.antt =====
-- The memory functions at concrete ranges: the byte at address `a` is `a % 256`.
use fos_project.Memory.Move.{within, memmove_lem}
use fos_project.Memory.{Mem, memmove}
use fos_project.Prelude.{if◌then◌else◌, ◌+◌, ◌-◌, ◌%◌, ◌≡◌, arith}

abbrev bytes : Mem
bytes a = a % 256

memmove_lem_example :
    memmove 18 16 4 bytes 20 ≡ (if within 18 4 20 then bytes (16 + (20 - 18)) else bytes 20)
memmove_lem_example = memmove_lem 18 16 4 bytes 20 (omega arith) (omega arith)

-- ===== src/Syscalls/Tests.antt =====
-- A text of 1200 bytes.
use so2_soa_fib.Common.{◌≡◌, arith, pos}
use so2_soa_fib.Kernel.Sample.{sample}
use so2_soa_fib.Syscalls.{console, sys_write}
use so2_soa_fib.Syscalls.Write.{sys_write_lem}

sys_write_lem_example :
    sys_write (pos 7) 0x108000 (pos 1200) sample ≡ (pos 700, console 700 0x108000 sample)
sys_write_lem_example = sys_write_lem (pos 7) 0x108000 1200 sample (omega arith) (omega arith)

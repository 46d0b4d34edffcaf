-- ===== src/Libc/Wrapper/Tests.antt =====
-- A key that is read from an empty ring.
use so2_soa_fib.Common.{[], ◌∷◌}
use so2_soa_fib.Kernel.{Kernel}
use so2_soa_fib.Kernel.Sample.{mapped}
use so2_soa_fib.Machine.{Args}
use so2_soa_fib.Libc.Wrapper.Reports.{Reports}

abbrev no_key : Kernel
no_key = record mapped { keyboard_buffer = record { buffer = 0 ∷ []; read = 0; write = 0 } }

abbrev regs : Args
regs = record { ebx = 0; ecx = 0; edx = 0 }

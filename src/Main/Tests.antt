-- ===== src/Main/Tests.antt =====
-- The small machine before anything is set up.
use so2_soa_fib.Common.{arith}
use so2_soa_fib.Kernel.Sample.{sample}
use so2_soa_fib.Main.{init_mm}
use so2_soa_fib.Main.Paging.{Paged, init_mm-Paged}

init_mm-Paged_example : Paged (init_mm sample)
init_mm-Paged_example = init_mm-Paged sample (omega arith)

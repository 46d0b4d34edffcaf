-- ===== src/Boot/Tests.antt =====
-- The start from a machine whose memory holds anything.
use so2_soa_fib.Common.{◌≡◌, some}
use so2_soa_fib.Kernel.{Kernel}
use so2_soa_fib.Kernel.Sample.{sample}
use so2_soa_fib.Boot.{start}
use so2_soa_fib.Boot.Tasks.{Started, start-Started}

start-Started_example : (k : Kernel) × (start sample ≡ some k) × Started k
start-Started_example = start-Started sample

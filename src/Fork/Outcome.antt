-- ===== src/Fork/Outcome.antt =====
-- What `sys_fork` leads to: the child, or an error and the state as it was.
use so2_soa_fib.Kernel.{Kernel}
use so2_soa_fib.Sched.Queues.{Queues}

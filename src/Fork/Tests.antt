-- ===== src/Fork/Tests.antt =====
-- A fork of task 0, which has 20 pages of data and no heap, with task 1 free.
use so2_soa_fib.Common.{◌+◌, ◌*◌, if◌then◌else◌, ltb, pos}
use so2_soa_fib.Kernel.{Kernel, freequeue}
use so2_soa_fib.Kernel.Sample.{no_stats}
use so2_soa_fib.Sched.Sample.{machine}

-- Frames below 300 are in use, and all pages stand on frame 0.
abbrev parent : Kernel
parent = record (machine 1 freequeue) {
  task =
      λ i. record { pid = pos i; dir = i; quantum = 3; estat = no_stats; nice = 1; brk = 0x11c000 };
  phys_mem = λ f. if ltb f 300 then 1 else 0;
  dir_pages = λ d. (20 + d) * 4096;
}

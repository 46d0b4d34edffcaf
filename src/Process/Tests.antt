-- ===== src/Process/Tests.antt =====
-- The two pages from 264 on are given back.
use so2_soa_fib.Common.{pos, arith, ◌+◌, ◌*◌, ◌≡◌}
use so2_soa_fib.Kernel.{Kernel}
use so2_soa_fib.Kernel.Sample.{no_stats, sample}
use so2_soa_fib.Process.Heap.{IsHeap, sys_sbrk-IsHeap}
use so2_soa_fib.PageTable.{get_frame}
use so2_soa_fib.Process.{sys_sbrk, Space, release}
use so2_soa_fib.Process.Release.{on_frame, release_lem}

-- Every frame is used, and each page stands on the frame 100 above it.
abbrev full : Space
full = record { frames = λ f. 1; table = λ p. (p + 100) * 4096 + 7 }

release_lem_example : ((release 2 264 full).table 265 ≡ 0) × ((release 2 264 full).frames 365 ≡ 0)
unfolding on_frame get_frame
release_lem_example = release_lem 2 264 full 265 365

-- A heap of one byte, in a space whose pages are all mapped, and 5000 bytes more.
abbrev one_byte : Kernel
one_byte = record sample {
  task =
      λ i. record { pid = pos i; dir = i; quantum = 3; estat = no_stats; nice = 1; brk = 0x11c001 };
  tables = λ t p. p * 4096 + 7;
}

sys_sbrk-IsHeap_example : IsHeap (sys_sbrk (pos 5000) one_byte).1
sys_sbrk-IsHeap_example =
    sys_sbrk-IsHeap (pos 5000) one_byte (omega arith) (omega arith)
      (omega arith, λ a low high. omega arith)

-- ===== src/Kernel/Sample.antt =====
-- A small machine for the tests: task 0 runs and no queue is set up.
use so2_soa_fib.Common.{◌+◌, ◌*◌, [], pos, neg}
use so2_soa_fib.Kernel.{Kernel, TaskStats}

abbrev pub no_stats : TaskStats
no_stats = record {
  user_ticks = 0;
  system_ticks = 0;
  blocked_ticks = 0;
  ready_ticks = 0;
  elapsed_total_ticks = 0;
  total_trans = 0;
  remaining_ticks = 0;
}

abbrev pub sample : Kernel
sample = record {
  task = λ i. record { pid = pos i; dir = i; quantum = 3; estat = no_stats; nice = 1; brk = 0 };
  links = record { next = λ a. 0; prev = λ a. 0 };
  running = 0;
  quantum_ticks = pos 1;
  esp0 = 0;
  cr3 = 0;
  tsc = λ n. 1_000_000;
  readings = 0;
  phys_mem = λ f. 0;
  dir_pages = λ d. 0;
  pagusr_page = 20;
  tables = λ t p. 0;
  idle_task = 9;
  next_pid = 2;
  zeos_ticks = 0;
  keyboard_buffer = record { buffer = []; read = 0; write = 0 };
  spf_pid = pos 0;
  spf_ticks = neg 1;
  spf_sem = neg 1;
  gfps = pos 0;
  spf_last_screen = 0;
  screen = record { cells = λ a. 0; x = 0; y = 19 };
  ram = λ a. b'.';
}

-- The same with pages that are mapped to the frames of the same number.
abbrev pub mapped : Kernel
mapped = record sample { dir_pages = λ d. 1; tables = λ t p. p * 4096 + 1 }

-- ===== src/Main.antt =====
-- `main` of zeOS/system.c and `init_mm` of zeOS/mm.c: the start of the kernel up to the first
-- process. The descriptors that setGdt, setIdt and setTSS write are not part of `Kernel`: they are in
-- Segments and Idt. Paging is on once `init_mm` is done.
pub mod Paging
mod Tests
use so2_soa_fib.Common.{ℕ, ◌+◌, ◌-◌, ◌&&◌, Option, some, List, ◌>>=◌, leb, ltb, if◌then◌else◌}
use so2_soa_fib.Libc.{codes}
use so2_soa_fib.Screen.{printk}
use so2_soa_fib.CircularBuffer.{circular_init}
use so2_soa_fib.Frames.{init_frames}
use so2_soa_fib.PageTable.{PageTable, init_table_pages, init_dir_pages}
use so2_soa_fib.Kernel.{Kernel, allocate_dir, nr_tasks, cr3_table, user_memory}
use so2_soa_fib.Fps.{text_at}
use so2_soa_fib.Syscalls.{store_bytes}
use so2_soa_fib.Boot.{start}
use so2_soa_fib.Image.{word_at, kernel_start, usr_main}

-- The tables of `pagusr_table`, which stand from its page on, one behind another.
unfoldable pub init_tables : Kernel → ℕ → PageTable
unfolding init_table_pages
init_tables k p =
    let tables = init_table_pages nr_tasks 0 (λ j. k.tables (k.pagusr_page + j)) in
    if leb k.pagusr_page p && ltb p (k.pagusr_page + nr_tasks)
    then tables (p - k.pagusr_page)
    else k.tables p

-- `set_cr3` loads the directory of task 0.
unfoldable pub init_mm : Kernel → Kernel
unfolding init_tables init_frames init_dir_pages allocate_dir
init_mm k =
    let k = record k {
      tables = init_tables k;
      phys_mem = init_frames k.phys_mem;
      dir_pages = init_dir_pages k.pagusr_page nr_tasks 0 k.dir_pages;
    } in
    let k = allocate_dir 0 k in record k { cr3 = (k.task 0).dir }

-- The line that moves the user program, through the tables: the program lies in the kernel's pages
-- and goes to the user's, so the bytes are read before one of them is written.
unfoldable pub move_program : Kernel → Kernel
unfolding user_memory text_at store_bytes
move_program k =
    let mem = user_memory k in
    let program =
      text_at (word_at mem (kernel_start + 4)) (kernel_start + word_at mem kernel_start) mem in
    record k { ram = store_bytes (cr3_table k) usr_main program k.ram }

-- At the end the processor is on the stack of the first process.
unfoldable pub main : Kernel → Option Kernel
unfolding init_mm move_program
main k = do
  let k = record k { screen = printk (codes "Kernel Loaded!    ") k.screen }
  k ← start (init_mm k)
  let k = move_program (record k { keyboard_buffer = circular_init k.keyboard_buffer })
  some (record k {
    screen = printk (codes "Entering user mode...") k.screen;
    zeos_ticks = 0;
    running = k.esp0;
  })

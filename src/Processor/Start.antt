-- ===== src/Processor/Start.antt =====
-- What `main` of zeOS/system.c does with the processor and its tables: the flags and the segments, the
-- calls of setGdt, setIdt and setTSS, what init_mm and init_task1 load, and the way to the user's
-- code. The addresses at which the linker puts tables and handlers are given.
use so2_soa_fib.Common.{ℕ, ◌+◌, ◌-◌, ◌*◌, Option, some, ◌>>=◌, ◌==◌, if◌then◌else◌}
use so2_soa_fib.Idt.{Idt, kernel_cs, set_idt}
use so2_soa_fib.Image.{kernel_start}
use so2_soa_fib.Segments.{
  Gdt, Descriptor, Segments, set_gdt, set_tss, kernel_ds, user_cs, user_ds, user_esp, kernel_tss,
}
use so2_soa_fib.Processor.{
  Processor, set_eflags, set_seg_regs, set_idt_reg, set_gdt_reg, set_task_reg, write_msr, set_cr3,
  set_pe_flag, enable_int, return_gate,
}

-- The addresses of the array of tasks, of the directories, of the TSS, of the IDT and of the handlers.
pub record Places : Type 0 where
  pub task : ℕ
  pub dir_pages : ℕ
  pub tss : ℕ
  pub idt : ℕ
  pub clock_handler : ℕ
  pub keyboard_handler : ℕ
  pub system_call_handler : ℕ
  pub syscall_handler_sysenter : ℕ

-- KERNEL_ESP of `task[i]`
abbrev pub kernel_esp : Places → ℕ → ℕ
kernel_esp pl i = pl.task + 4096 * i + 4096

abbrev pub initial_esp : Places → ℕ
initial_esp pl = kernel_esp pl 1

abbrev pub l_user_start : ℕ
l_user_start = 0x100000

-- The table of zeOS/bootsect.S, and whatever lies behind it.
abbrev flat : ℕ → Descriptor
flat access = record {
  limit = 0xffff;
  low_base = 0;
  mid_base = 0;
  flags1 = access;
  flags2 = 0xcf;
  high_base = 0;
}

abbrev empty : Descriptor
empty = record { limit = 0; low_base = 0; mid_base = 0; flags1 = 0; flags2 = 0; high_base = 0 }

unfoldable pub boot_gdt : Gdt → Gdt
boot_gdt rest i =
    if i == 0
    then empty
    else if i == 1
    then empty
    else if i == 2
    then flat 0x9a
    else if i == 3
    then flat 0x92
    else if i == 4
    then flat 0xfa
    else if i == 5
    then flat 0xf2
    else if i == 6
    then record empty { limit = 104; flags1 = 0x89 }
    else rest i

pub record Machine : Type 0 where
  pub cpu : Processor
  pub segments : Segments
  pub idt : Idt

-- `setGdt`, `setIdt` and `setTSS`, with the registers that they load.
unfoldable pub load_gdt : Places → Machine → Machine
unfolding set_gdt set_gdt_reg
load_gdt pl m =
    let s = set_gdt pl.tss m.segments in record m { segments = s; cpu = set_gdt_reg s.gdtr m.cpu }

unfoldable pub load_idt : (Idt → Idt) → Places → Machine → Machine
unfolding set_idt set_idt_reg write_msr
load_idt set_handlers pl m =
    let p = write_msr 0x174 kernel_cs m.cpu in
    let p = write_msr 0x175 (initial_esp pl) p in
    let p = write_msr 0x176 pl.syscall_handler_sysenter p in
    record m {
      idt = set_idt set_handlers pl.clock_handler pl.keyboard_handler pl.system_call_handler m.idt;
      cpu = set_idt_reg (record { base = pl.idt; limit = 256 * 8 - 1 }) p;
    }

unfoldable pub load_tss : Places → Machine → Machine
unfolding set_tss set_task_reg
load_tss pl m = record m {
  segments = set_tss (initial_esp pl) m.segments;
  cpu = set_task_reg kernel_tss m.cpu;
}

-- `init_mm`, with the directory of task 0, and `init_task1`, with task `i` and its directory `d`.
unfoldable pub load_paging : Places → Machine → Machine
unfolding set_cr3 set_pe_flag
load_paging pl m = record m { cpu = set_pe_flag (set_cr3 pl.dir_pages m.cpu) }

unfoldable pub load_task1 : Places → ℕ → ℕ → Machine → Machine
unfolding set_cr3 write_msr
load_task1 pl i d m =
    let s = m.segments in
    let tss = s.tss in
    record m {
      segments = record s { tss = record tss { esp0 = kernel_esp pl i } };
      cpu = set_cr3 (pl.dir_pages + 4096 * d) (write_msr 0x175 (kernel_esp pl i) m.cpu);
    }

-- All of `main` up to the user's code; `p_rdtr` is two words behind KERNEL_START.
unfoldable pub main_cpu : (Idt → Idt) → Places → ℕ → ℕ → Machine → Option Machine
unfolding set_eflags set_seg_regs load_gdt load_idt load_tss load_paging load_task1 enable_int
    return_gate
main_cpu set_handlers pl i d m = do
  let p = set_seg_regs kernel_ds kernel_ds (pl.task + 4 * 4096) (set_eflags m.cpu)
  let m = load_tss pl (load_idt set_handlers pl (load_gdt pl (record m { cpu = p })))
  let m = load_task1 pl i d (load_paging pl m)
  let p = enable_int m.cpu
  p ←
      return_gate m.segments.gdt user_ds user_ds user_esp user_cs l_user_start
        (p.words (kernel_start + 8)) p
  some (record m { cpu = p })

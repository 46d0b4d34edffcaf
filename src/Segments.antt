-- ===== src/Segments.antt =====
-- The segments of zeOS/mm.c: `setGdt`, `setTSS`, the types `Descriptor`, `TSS` and `Register` of
-- zeOS/include/types.h and the selectors of zeOS/include/segment.h. The unused halves of the TSS are
-- left out, and where the linker puts `tss` and `task` is an argument.
pub mod Base
use so2_soa_fib.Common.{ℕ, ◌+◌, ◌-◌, ◌*◌, ◌/◌, ◌%◌, ◌^◌, update}
use so2_soa_fib.Idt.{low_word, kernel_cs}

pub record Descriptor : Type 0 where
  pub limit : ℕ
  pub low_base : ℕ
  pub mid_base : ℕ
  pub flags1 : ℕ
  pub flags2 : ℕ
  pub high_base : ℕ

abbrev pub Gdt : Type 0
Gdt = ℕ → Descriptor

-- `Register`, for the tables' registers.
pub record TableRegister : Type 0 where
  pub limit : ℕ
  pub base : ℕ

pub record Tss : Type 0 where
  pub previous_task_link : ℕ
  pub esp0 : ℕ
  pub ss0 : ℕ
  pub esp1 : ℕ
  pub ss1 : ℕ
  pub esp2 : ℕ
  pub ss2 : ℕ
  pub cr3 : ℕ
  pub eip : ℕ
  pub e_flags : ℕ
  pub eax : ℕ
  pub ecx : ℕ
  pub edx : ℕ
  pub ebx : ℕ
  pub esp : ℕ
  pub ebp : ℕ
  pub esi : ℕ
  pub edi : ℕ
  pub es : ℕ
  pub cs : ℕ
  pub ss : ℕ
  pub ds : ℕ
  pub fs : ℕ
  pub gs : ℕ
  pub ldt_segment_selector : ℕ
  pub debug_trap : ℕ
  pub io_map_base_address : ℕ

abbrev pub mid_byte : ℕ → ℕ
mid_byte a = a / 2 ^ 16 % 2 ^ 8

abbrev pub high_byte : ℕ → ℕ
high_byte a = a / 2 ^ 24 % 2 ^ 8

-- The selectors `__KERNEL_DS`, `__USER_CS`, `__USER_DS` and `KERNEL_TSS`, and GDT_START
abbrev pub kernel_ds : ℕ
kernel_ds = 0x18

abbrev pub user_cs : ℕ
user_cs = 0x23

abbrev pub user_ds : ℕ
user_ds = 0x2b

abbrev pub kernel_tss : ℕ
kernel_tss = 0x30

abbrev pub gdt_start : ℕ
gdt_start = 0x901b3

-- USER_ESP
abbrev pub user_esp : ℕ
user_esp = 0x100000 + (8 + 20) * 0x1000 - 16

-- The tables, and the registers of the processor for the GDT and the task.
pub record Segments : Type 0 where
  pub gdt : Gdt
  pub tss : Tss
  pub gdtr : TableRegister
  pub task_register : ℕ

-- `set_gdt_reg` and `set_task_reg` load the processor's registers.
unfoldable pub set_gdt : ℕ → Segments → Segments
set_gdt tss_address s =
    let d = s.gdt (kernel_tss / 8) in
    record s {
      gdt = update s.gdt (kernel_tss / 8) (record d {
        low_base = low_word tss_address;
        mid_base = mid_byte tss_address;
        high_base = high_byte tss_address;
      });
      gdtr = record { base = gdt_start; limit = 256 * 8 };
    }

unfoldable pub set_tss : ℕ → Segments → Segments
set_tss initial_esp s = record s {
  tss = record {
    previous_task_link = 0;
    esp0 = initial_esp;
    ss0 = kernel_ds;
    esp1 = 0;
    ss1 = 0;
    esp2 = 0;
    ss2 = 0;
    cr3 = 0;
    eip = 0;
    e_flags = 0x200;
    eax = 0;
    ecx = 0;
    edx = 0;
    ebx = 0;
    esp = user_esp;
    ebp = user_esp;
    esi = 0;
    edi = 0;
    es = user_ds;
    cs = user_cs;
    ss = user_ds;
    ds = user_ds;
    fs = 0;
    gs = 0;
    ldt_segment_selector = kernel_tss;
    debug_trap = 0;
    io_map_base_address = 0;
  };
  task_register = kernel_tss;
}

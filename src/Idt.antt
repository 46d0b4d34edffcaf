-- ===== src/Idt.antt =====
-- The interrupt descriptors of zeOS/interrupt.c. A table is a function from vectors to gates. The
-- addresses of the handlers are those of the assembly routines, and `set_handlers`, which fills the
-- other gates, is in a library without source: both are arguments.
pub mod Gates
use so2_soa_fib.Common.{ℕ, ◌+◌, ◌*◌, ◌/◌, ◌%◌, ◌^◌, update}

pub record Gate : Type 0 where
  pub low_offset : ℕ
  pub segment_selector : ℕ
  pub flags : ℕ
  pub high_offset : ℕ

abbrev pub Idt : Type 0
Idt = ℕ → Gate

abbrev pub low_word : ℕ → ℕ
low_word a = a % 2 ^ 16

abbrev pub high_word : ℕ → ℕ
high_word a = a / 2 ^ 16 % 2 ^ 16

-- __KERNEL_CS
abbrev pub kernel_cs : ℕ
kernel_cs = 0x10

-- `(level << 13) | 0x8E00` in a word: bit 15 is set in any case.
abbrev pub gate_flags : ℕ → ℕ
gate_flags level = level % 4 * 2 ^ 13 + 0x8e00

unfoldable pub set_interrupt_handler : ℕ → ℕ → ℕ → Idt → Idt
set_interrupt_handler vector handler level idt = update idt vector (record {
  low_offset = low_word handler;
  segment_selector = kernel_cs;
  flags = gate_flags level;
  high_offset = high_word handler;
})

-- The same flags, as the code's comment explains.
unfoldable pub set_trap_handler : ℕ → ℕ → ℕ → Idt → Idt
set_trap_handler vector handler level idt = update idt vector (record {
  low_offset = low_word handler;
  segment_selector = kernel_cs;
  flags = gate_flags level;
  high_offset = high_word handler;
})

-- `setIdt`, without the registers.
unfoldable pub set_idt : (Idt → Idt) → ℕ → ℕ → ℕ → Idt → Idt
unfolding set_interrupt_handler set_trap_handler
set_idt set_handlers clock_handler keyboard_handler system_call_handler idt =
    let idt = set_handlers idt in
    let idt = set_interrupt_handler 32 clock_handler 0 idt in
    let idt = set_interrupt_handler 33 keyboard_handler 0 idt in
    set_trap_handler 0x80 system_call_handler 3 idt

-- ===== src/Processor.antt =====
-- The registers of the processor, and the functions that load them: zeOS/hardware.c, writeMSR of
-- zeOS/entry.S, set_seg_regs of zeOS/system.c, set_cr3 and set_pe_flag of zeOS/mm.c. The instructions
-- are those of the processor's manual. Memory is by words, at the address of the lowest byte, and
-- the frames that a compiler makes for calls in C are left out.
pub mod Entry
pub mod Stack
pub mod Context
pub mod Handled
pub mod Sysenter
pub mod Switch
pub mod Start
pub mod User
mod Tests
use so2_soa_fib.Common.{
  ℕ, ◌+◌, ◌-◌, ◌*◌, ◌/◌, ◌%◌, ◌^◌, Bool, ◌&&◌, Option, none, some, ◌==◌, ltb, if◌then◌else◌, update,
}
use so2_soa_fib.Segments.{Descriptor, Gdt, TableRegister}

pub record Processor : Type 0 where
  pub eax : ℕ
  pub ebx : ℕ
  pub ecx : ℕ
  pub edx : ℕ
  pub esi : ℕ
  pub edi : ℕ
  pub ebp : ℕ
  pub esp : ℕ
  pub eip : ℕ
  pub e_flags : ℕ
  pub cs : ℕ
  pub ss : ℕ
  pub ds : ℕ
  pub es : ℕ
  pub fs : ℕ
  pub gs : ℕ
  pub gdtr : TableRegister
  pub idtr : TableRegister
  pub ldtr : ℕ
  pub task_register : ℕ
  pub cr0 : ℕ
  pub cr3 : ℕ
  -- The model-specific registers, the byte that was last sent to each port, and the memory.
  pub msr : ℕ → ℕ
  pub ports : ℕ → ℕ
  pub words : ℕ → ℕ

-- `pushl`, and the `n`-th word of the stack.
unfoldable pub push : ℕ → Processor → Processor
push w p = record p { esp = p.esp - 4; words = update p.words (p.esp - 4) w }

abbrev pub top : Processor → ℕ → ℕ
top p n = p.words (p.esp + 4 * n)

-- Bit 9 of the flags, by which interrupts are let in, and `sti` and `cli`. Bit 1 is always set.
abbrev pub enabled : Processor → Bool
enabled p = p.e_flags / 2 ^ 9 % 2 == 1

unfoldable pub sti : Processor → Processor
sti p = record p { e_flags = if enabled p then p.e_flags else p.e_flags + 2 ^ 9 }

unfoldable pub cli : Processor → Processor
cli p = record p { e_flags = if enabled p then p.e_flags - 2 ^ 9 else p.e_flags }

abbrev pub flags_of : ℕ → ℕ
flags_of w = w / 4 * 4 + 2 + w % 2

unfoldable pub get_eflags : Processor → ℕ × Processor
unfolding push
get_eflags p = let p = push p.e_flags p in (top p 0, record p { esp = p.esp + 4 })

unfoldable pub set_eflags : Processor → Processor
unfolding push
set_eflags p = let p = push 0 p in record p { esp = p.esp + 4; e_flags = flags_of (top p 0) }

unfoldable pub set_idt_reg : TableRegister → Processor → Processor
set_idt_reg r p = record p { idtr = r }

unfoldable pub set_gdt_reg : TableRegister → Processor → Processor
set_gdt_reg r p = record p { gdtr = r }

unfoldable pub set_ldt_reg : ℕ → Processor → Processor
set_ldt_reg selector p = record p { ldtr = selector }

unfoldable pub set_task_reg : ℕ → Processor → Processor
set_task_reg selector p = record p { task_register = selector }

unfoldable pub write_msr : ℕ → ℕ → Processor → Processor
write_msr index value p = record p {
  ecx = index;
  eax = value;
  edx = 0;
  msr = update p.msr index value;
}

unfoldable pub set_cr3 : ℕ → Processor → Processor
set_cr3 dir p = record p { cr3 = dir }

unfoldable pub set_pe_flag : Processor → Processor
set_pe_flag p = record p { cr0 = if ltb p.cr0 (2 ^ 31) then p.cr0 + 2 ^ 31 else p.cr0 }

-- `esp` is lowered by five words.
unfoldable pub set_seg_regs : ℕ → ℕ → ℕ → Processor → Processor
set_seg_regs data_sel stack_sel esp p = record p {
  ds = data_sel;
  es = data_sel;
  fs = data_sel;
  gs = data_sel;
  ss = stack_sel;
  esp = esp - 20;
}

-- A jump to the next instruction.
unfoldable pub delay : Processor → Processor
delay p = p

-- Bits 0 and 1 of the mask, of the timer and the keyboard, are clear.
unfoldable pub enable_int : Processor → Processor
unfolding sti delay
enable_int p =
    sti (delay (record p { eax = p.eax / 256 * 256 + 0xfc; ports = update p.ports 0x21 0xfc }))

-- The fields of a descriptor and of a selector.
abbrev pub dpl : Descriptor → ℕ
dpl d = d.flags1 / 2 ^ 5 % 4

abbrev pub is_present : Descriptor → Bool
is_present d = d.flags1 / 2 ^ 7 % 2 == 1

abbrev pub is_code : Descriptor → Bool
is_code d = d.flags1 / 2 ^ 3 % 4 == 3

abbrev pub is_writable : Descriptor → Bool
is_writable d = d.flags1 / 2 ^ 3 % 4 == 2 && d.flags1 / 2 % 2 == 1

abbrev pub rpl : ℕ → ℕ
rpl selector = selector % 4

abbrev pub descriptor : Gdt → ℕ → Descriptor
descriptor gdt selector = gdt (selector / 8)

-- A data segment that is above the level of the code is dropped on the way out to that level.
abbrev pub lowered : Gdt → ℕ → ℕ → ℕ
lowered gdt level selector = if ltb (dpl (descriptor gdt selector)) level then 0 else selector

-- The segments to which a return may go.
unfoldable pub returns_to : Gdt → ℕ → ℕ → Bool
returns_to gdt cs ss =
    (is_present (descriptor gdt cs)
      && is_code (descriptor gdt cs)
      && dpl (descriptor gdt cs) == rpl cs)
    && (is_present (descriptor gdt ss)
        && is_writable (descriptor gdt ss)
        && dpl (descriptor gdt ss) == rpl cs
        && rpl ss == rpl cs)

-- The way out to the level of `cs`, with a stack there.
unfoldable pub leave : Gdt → ℕ → ℕ → ℕ → ℕ → Processor → Option Processor
leave gdt cs eip ss esp p =
    if ltb (rpl p.cs) (rpl cs) && returns_to gdt cs ss
    then some (record p {
      cs = cs;
      eip = eip;
      ss = ss;
      esp = esp;
      ds = lowered gdt (rpl cs) p.ds;
      es = lowered gdt (rpl cs) p.es;
      fs = lowered gdt (rpl cs) p.fs;
      gs = lowered gdt (rpl cs) p.gs;
    })
    else none

-- `lret` from the kernel to a level below it; `none` is a fault, or a return to the same level.
unfoldable pub lret : Gdt → Processor → Option Processor
unfolding leave
lret gdt p = leave gdt (top p 1) (top p 0) (top p 3) (top p 2) p

-- `rdtr` is the word at `p_rdtr`, which goes to the user's stack.
unfoldable pub return_gate : Gdt → ℕ → ℕ → ℕ → ℕ → ℕ → ℕ → Processor → Option Processor
unfolding push lret
return_gate gdt ds ss esp cs eip rdtr p =
    let p = record p {
      es = ds;
      ds = ds;
      edx = rdtr;
      eax = esp + 12;
      words = update p.words (esp + 12) rdtr;
    } in
    lret gdt (push eip (push cs (push esp (push ss p))))

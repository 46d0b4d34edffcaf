-- ===== src/Processor/Tests.antt =====
-- The end of the start, a tick of the clock in the first task, and a system call of it.
use so2_soa_fib.Common.{◌+◌, ◌-◌, ◌^◌, ◌≡◌, refl, arith, some, ◌==◌, if◌then◌else◌, inl}
use so2_soa_fib.Idt.{Idt, set_idt}
use so2_soa_fib.Idt.Gates.{LeadsTo, set_idt-LeadsTo}
use so2_soa_fib.Segments.{Gdt, Descriptor, Tss, user_cs, user_ds}
use so2_soa_fib.Processor.{Processor, push, returns_to}
use so2_soa_fib.Processor.Entry.{irq, int_n, interrupt_handler, call_handler}
use so2_soa_fib.Processor.Context.{InUser}
use so2_soa_fib.Processor.Handled.{Handled, interrupt_handler-Handled, call_handler-Handled}
use so2_soa_fib.Processor.Sysenter.{negative, before_trap, load_params}
use so2_soa_fib.Processor.Sysenter.Calls.{Returns, wrapper-Called}
use so2_soa_fib.Processor.Start.{Places, Machine, boot_gdt, main_cpu}
use so2_soa_fib.Processor.User.{Entered, booted, main_cpu-Entered}

abbrev nothing : Descriptor
nothing = record { limit = 0; low_base = 0; mid_base = 0; flags1 = 0; flags2 = 0; high_base = 0 }

abbrev rest : Gdt
rest i = nothing

-- A processor that runs a user's code.
abbrev cpu : Processor
cpu = record {
  eax = 4;
  ebx = 1;
  ecx = 0x108000;
  edx = 12;
  esi = 0;
  edi = 0;
  ebp = 0x11bfd0;
  esp = 0x11bfc0;
  eip = 0x100020;
  e_flags = 514;
  cs = user_cs;
  ss = user_ds;
  ds = user_ds;
  es = user_ds;
  fs = 0;
  gs = 0;
  gdtr = record { limit = 0; base = 0 };
  idtr = record { limit = 0; base = 0 };
  ldtr = 0;
  task_register = 0;
  cr0 = 1;
  cr3 = 0;
  msr = λ i. 0;
  ports = λ i. 0xfc;
  words = λ a. a;
}

abbrev tss : Tss
tss = record {
  previous_task_link = 0;
  esp0 = 0x21000;
  ss0 = 0x18;
  esp1 = 0;
  ss1 = 0;
  esp2 = 0;
  ss2 = 0;
  cr3 = 0;
  eip = 0;
  e_flags = 0;
  eax = 0;
  ecx = 0;
  edx = 0;
  ebx = 0;
  esp = 0;
  ebp = 0;
  esi = 0;
  edi = 0;
  es = 0;
  cs = 0;
  ss = 0;
  ds = 0;
  fs = 0;
  gs = 0;
  ldt_segment_selector = 0;
  debug_trap = 0;
  io_map_base_address = 0;
}

abbrev no_gates : Idt
no_gates v = record { low_offset = 0; segment_selector = 0; flags = 0; high_offset = 0 }

abbrev places : Places
places = record {
  task = 0x19000;
  dir_pages = 0x30000;
  tss = 0x24680;
  idt = 0x26000;
  clock_handler = 0x11111;
  keyboard_handler = 0x12222;
  system_call_handler = 0x13333;
  syscall_handler_sysenter = 0x14444;
}

main_cpu-Entered_example :
    (m : Machine) × (main_cpu
        (λ idt. idt)
        places
        8
        8
        (booted rest
          (record cpu { cs = 0x10 })
          (record {
            gdt = rest;
            tss = tss;
            gdtr = record { limit = 0; base = 0 };
            task_register = 0;
          })
          no_gates)
      ≡ some m)
    × Entered places 8 8 m
main_cpu-Entered_example =
    main_cpu-Entered (λ idt. idt) places 8 8 rest (record cpu { cs = 0x10 })
      (record { gdt = rest; tss = tss; gdtr = record { limit = 0; base = 0 }; task_register = 0 })
      no_gates refl (omega arith) (omega arith) (omega arith) (omega arith)

cpu-InUser : InUser (boot_gdt rest) cpu
unfolding boot_gdt returns_to
cpu-InUser = record {
  level = refl;
  returns = refl;
  data_segments = (refl, refl);
  extra_segments = (refl, refl);
  flags = refl;
}

abbrev gates : Idt
unfolding set_idt
gates = set_idt (λ idt. idt) 0x11111 0x12222 0x13333 no_gates

gates-LeadsTo :
    LeadsTo 0x11111 0 (gates 32)
    × LeadsTo 0x12222 0 (gates 33)
    × LeadsTo 0x13333 3 (gates 0x80)
    × (gates 0 ≡ no_gates 0)
unfolding gates set_idt
gates-LeadsTo =
    set_idt-LeadsTo (λ idt. idt) 0x11111 0x12222 0x13333 no_gates 0 (omega arith) (omega arith)
      (omega arith) (omega arith) (omega arith) (omega arith)

-- Code of the kernel that changes registers.
abbrev body : Processor → Processor
body p = record p { eax = 12; ebx = 99; ds = 0; esi = p.esi + 1 }

interrupt_handler-Handled_example :
    Handled 0x11111 4 cpu (irq tss gates 0 cpu) (interrupt_handler (boot_gdt rest) body)
interrupt_handler-Handled_example =
    interrupt_handler-Handled (boot_gdt rest) tss gates body cpu cpu-InUser (omega arith) 0x11111 0
      refl refl gates-LeadsTo.0 (refl, refl, λ a le lt. refl)

call_handler-Handled_example :
    Handled 0x13333 12 cpu (int_n tss gates 0x80 cpu) (call_handler (boot_gdt rest) body)
call_handler-Handled_example =
    call_handler-Handled (boot_gdt rest) tss gates body cpu cpu-InUser (omega arith) 0x13333 0x80
      gates-LeadsTo.2 (refl, refl, λ a le lt. refl)

-- A program that calls get_key with the registers of sysenter set, where the kernel finds no key.
abbrev caller : Processor
caller = record cpu {
  msr = λ i. if i == 0x174 then 0x10 else if i == 0x175 then 0x21000 else 0x14444;
}

abbrev no_key : Processor → Processor
no_key p = record p { eax = 2 ^ 32 - 55; ebx = 99; ecx = 0 }

wrapper-Called_example : Returns 15 1 0x100400 negative 0x10a000 no_key caller
unfolding before_trap load_params push
wrapper-Called_example =
    wrapper-Called 15 1 0x100400 negative 0x10a000 no_key caller (omega arith)
      (record { segment = refl; room = omega arith; below = omega arith })
      (record { esp = refl; segment = refl; stack = λ a le lt. refl; user_stack = λ a le lt. refl })
      (inl (omega arith))

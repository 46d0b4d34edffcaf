-- ===== src/Processor/Entry.antt =====
-- The way into the kernel and out of it: an interrupt, and SAVE_ALL, RESTORE_ALL, EOI and the
-- handlers of zeOS/entry.S, on the registers and the stack. The calls into C are an argument.
use so2_soa_fib.Common.{
  ℕ, ◌+◌, ◌*◌, ◌/◌, ◌%◌, ◌^◌, ◌&&◌, Option, none, some, List, [], ◌∷◌, ◌==◌, ltb, leb,
  if◌then◌else◌, update,
}
use so2_soa_fib.Idt.{Gate, Idt}
use so2_soa_fib.Segments.{Gdt, Tss, kernel_ds}
use so2_soa_fib.Processor.{Processor, push, top, enabled, cli, rpl, flags_of, leave}

-- The last word is pushed last.
unfoldable pub push_all : List ℕ → Processor → Processor
unfolding push
push_all [] p = p
push_all (w ∷ ws) p = push_all ws (push w p)

-- The way through a gate to the stack of the TSS.
unfoldable pub enter : Tss → Gate → Processor → Processor
unfolding push_all cli
enter tss g p =
    let p' = record p { ss = tss.ss0; esp = tss.esp0 } in
    let p' = cli (push_all (p.ss ∷ p.esp ∷ p.e_flags ∷ p.cs ∷ p.eip ∷ []) p') in
    record p' { cs = g.segment_selector; eip = g.low_offset + g.high_offset * 2 ^ 16 }

-- What the processor does on an interrupt from a level below the kernel's, where there is an
-- interrupt gate of the kernel's code. `none` stands for all else.
unfoldable pub interrupt : Tss → Idt → ℕ → Processor → Option Processor
unfolding enter
interrupt tss idt vector p =
    let g = idt vector in
    if (rpl g.segment_selector == 0 && ltb 0 (rpl p.cs))
      && (g.flags / 2 ^ 15 == 1 && g.flags / 2 ^ 8 % 2 ^ 5 == 0b1110)
    then some (enter tss g p)
    else none

-- The interrupt of line `n` below 8, with the vectors that zeOS/bootsect.S gives to the controller.
unfoldable pub irq : Tss → Idt → ℕ → Processor → Option Processor
irq tss idt n p =
    if enabled p && p.ports 0x21 / 2 ^ n % 2 == 0 then interrupt tss idt (0x20 + n) p else none

-- `int`: the level of the gate lets the code through.
unfoldable pub int_n : Tss → Idt → ℕ → Processor → Option Processor
int_n tss idt vector p =
    if leb (rpl p.cs) ((idt vector).flags / 2 ^ 13 % 4) then interrupt tss idt vector p else none

unfoldable pub save_all : Processor → Processor
unfolding push_all
save_all p =
    let p =
      push_all
        (p.gs ∷ p.fs ∷ p.es ∷ p.ds ∷ p.eax ∷ p.ebp ∷ p.edi ∷ p.esi ∷ p.edx ∷ p.ecx ∷ p.ebx ∷ [])
        p in
    record p { edx = kernel_ds; ds = kernel_ds; es = kernel_ds }

-- The eleven `popl`.
unfoldable pub restore_all : Processor → Processor
restore_all p = record p {
  ebx = top p 0;
  ecx = top p 1;
  edx = top p 2;
  esi = top p 3;
  edi = top p 4;
  ebp = top p 5;
  eax = top p 6;
  ds = top p 7;
  es = top p 8;
  fs = top p 9;
  gs = top p 10;
  esp = p.esp + 44;
}

-- The end of the interrupt is sent to the controller.
unfoldable pub eoi : Processor → Processor
eoi p = record p { eax = p.eax / 256 * 256 + 0x20; ports = update p.ports 0x20 0x20 }

-- `iret` to a level below the kernel's.
unfoldable pub iret : Gdt → Processor → Option Processor
unfolding leave
iret gdt p =
    leave gdt (top p 1) (top p 0) (top p 4) (top p 3) (record p { e_flags = flags_of (top p 2) })

-- `clock_handler` and `keyboard_handler`, and `system_call_handler`, which gives the result that the
-- code of the kernel leaves in `eax` to the word of the stack that is restored to it.
unfoldable pub interrupt_handler : Gdt → (Processor → Processor) → Processor → Option Processor
unfolding save_all restore_all eoi iret
interrupt_handler gdt body p = iret gdt (restore_all (body (eoi (save_all p))))

unfoldable pub call_handler : Gdt → (Processor → Processor) → Processor → Option Processor
unfolding save_all restore_all iret
call_handler gdt body p =
    let p = body (save_all p) in
    iret gdt (restore_all (record p { words = update p.words (p.esp + 0x18) p.eax }))

-- ===== src/Processor/Handled.antt =====
-- A program does not see that it was interrupted.
use so2_soa_fib.Common.{
  ℕ, ◌+◌, ◌*◌, ◌/◌, ◌%◌, ◌^◌, ◌≤◌, ◌≡◌, refl, ap, ◌∙◌, arith, true, Option, some, leb, ◌==◌, update,
}
use so2_soa_fib.Idt.{Idt}
use so2_soa_fib.Idt.Gates.{LeadsTo}
use so2_soa_fib.Segments.{Gdt, Tss}
use so2_soa_fib.Processor.{Processor, push, rpl, cli, enabled}
use so2_soa_fib.Processor.Entry.{
  push_all, enter, interrupt, save_all, eoi, irq, int_n, interrupt_handler, call_handler,
}
use so2_soa_fib.Processor.Stack.{On-set}
use so2_soa_fib.Processor.Context.{
  InUser, Keeps, SameUser, context, registers, enter-Saved, Keeps-Saved, Saved-Back,
}

interrupt-enters :
    (tss : Tss) (idt : Idt) (v h level : ℕ) (p : Processor)
    → rpl p.cs ≡ 3
    → LeadsTo h level (idt v)
    → interrupt tss idt v p ≡ some (enter tss (idt v) p)
unfolding interrupt
interrupt-enters tss idt v h level p user leads =
    rw (leads.code, user, leads.is_present, leads.gate_type) refl

irq-enters :
    (tss : Tss) (idt : Idt) (n : ℕ) (p j : Processor)
    → enabled p ≡ true
    → (p.ports 0x21 / 2 ^ n % 2 == 0) ≡ true
    → interrupt tss idt (0x20 + n) p ≡ some j
    → irq tss idt n p ≡ some j
unfolding irq
irq-enters tss idt n p j on line e = rw (on, line) e

int_n-enters :
    (tss : Tss) (idt : Idt) (v h : ℕ) (p j : Processor)
    → rpl p.cs ≡ 3
    → LeadsTo h 3 (idt v)
    → interrupt tss idt v p ≡ some j
    → int_n tss idt v p ≡ some j
unfolding int_n
int_n-enters tss idt v h p j user leads e =
    let open_gate : leb (rpl p.cs) ((idt v).flags / 2 ^ 13 % 4) ≡ true =
      ground (arith, user, leads.dpl) in
    rw open_gate e

-- What the entry leads to, and the way back.
abbrev pub Handled : ℕ → ℕ → Processor → Option Processor → (Processor → Option Processor) → Type 0
Handled h v p entered handler =
    (j : Processor) × (q : Processor) × (entered ≡ some j)
    × (j.eip ≡ h)
    × (rpl j.cs ≡ 0)
    × (handler j ≡ some q)
    × SameUser p q
    × (q.eax ≡ v)

module _ (gdt : Gdt) (tss : Tss) (idt : Idt) (body : Processor → Processor) (p : Processor)
    (user : InUser gdt p) (room : 64 ≤ tss.esp0) (h : ℕ) where
  -- Code of a user is interrupted through line `n`, which the flags and the mask let in. If the gate
  -- leads to a handler and the code of the kernel keeps its stack, the handler is entered at the
  -- kernel's level, and after it the program goes on with all its registers as they were.
  pub interrupt_handler-Handled :
      (n : ℕ)
      → enabled p ≡ true
      → (p.ports 0x21 / 2 ^ n % 2 == 0) ≡ true
      → LeadsTo h 0 (idt (0x20 + n))
      → Keeps body (eoi (save_all (enter tss (idt (0x20 + n)) p)))
      → Handled h p.eax p (irq tss idt n p) (interrupt_handler gdt body)
  unfolding interrupt_handler eoi enter cli save_all push_all push
  interrupt_handler-Handled n on line leads keeps =
      let j = enter tss (idt (0x20 + n)) p in
      let k = eoi (save_all j) in
      let kernel : rpl (body k).cs ≡ 0 = keeps.1 ∙ ap rpl leads.code in
      let (q, back, same, eax) =
        Saved-Back gdt p (body k) user kernel
          (Keeps-Saved body p k keeps (enter-Saved tss (idt (0x20 + n)) p room)) in
      (
        j,
        q,
        irq-enters tss idt n p j on line
            (interrupt-enters tss idt (0x20 + n) h 0 p user.level leads),
        leads.offset,
        ap rpl leads.code,
        back,
        same,
        eax,
      )

  -- The program has called the system by vector `v`: it goes on with its registers as they were, but
  -- for `eax`, which is as the code of the kernel left it.
  pub call_handler-Handled :
      (v : ℕ)
      → LeadsTo h 3 (idt v)
      → Keeps body (save_all (enter tss (idt v) p))
      → Handled h
          (body (save_all (enter tss (idt v) p))).eax
          p
          (int_n tss idt v p)
          (call_handler gdt body)
  unfolding call_handler enter cli save_all push_all push
  call_handler-Handled v leads keeps =
      let j = enter tss (idt v) p in
      let k = save_all j in
      let r = (body k).eax in
      let kernel : rpl (body k).cs ≡ 0 = keeps.1 ∙ ap rpl leads.code in
      let saved = Keeps-Saved body p k keeps (enter-Saved tss (idt v) p room) in
      let (q, back, same, eax) =
        Saved-Back gdt (record p { eax = r })
          (record (body k) { words = update (body k).words ((body k).esp + 4 * 6) r })
          (record {
            level = user.level;
            returns = user.returns;
            data_segments = user.data_segments;
            extra_segments = user.extra_segments;
            flags = user.flags;
          })
          kernel (On-set (body k).words (body k).esp 6 r (registers p (context p)) saved) in
      (
        j,
        q,
        int_n-enters tss idt v h p j user.level leads
            (interrupt-enters tss idt v h 3 p user.level leads),
        leads.offset,
        ap rpl leads.code,
        back,
        record { b = same.b; i = same.i; code = same.code; segments = same.segments },
        eax,
      )

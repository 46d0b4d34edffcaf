-- ===== src/Processor/User.antt =====
-- The start ends in the code of the user.
use so2_soa_fib.Common.{
  ℕ, zero, suc, ◌+◌, ◌-◌, ◌*◌, ◌/◌, ◌%◌, ◌^◌, ◌≤◌, ◌<◌, ◌≡◌, refl, ap, ◌∙◌, arith, true, some, [],
  ◌∷◌, get_elem?, ltb, ◌==◌, update, update_self,
}
use so2_soa_fib.Idt.{Idt, kernel_cs, set_idt}
use so2_soa_fib.Idt.Gates.{LeadsTo, set_idt-LeadsTo}
use so2_soa_fib.Image.{kernel_start}
use so2_soa_fib.Segments.{Gdt, Segments, user_cs, user_ds, user_esp, kernel_ds, set_gdt, set_tss}
use so2_soa_fib.Segments.Base.{base_of, set_tss-Loaded}
use so2_soa_fib.Processor.{
  Processor, push, top, rpl, lowered, returns_to, leave, lret, return_gate, enabled, flags_of,
  set_eflags, set_seg_regs, set_idt_reg, set_gdt_reg, set_task_reg, write_msr, set_cr3, set_pe_flag,
  enable_int, sti, delay,
}
use so2_soa_fib.Processor.Entry.{push_all}
use so2_soa_fib.Processor.Stack.{On, On-at, push_all-On}
use so2_soa_fib.Processor.Context.{InUser}
use so2_soa_fib.Processor.Start.{
  Places, Machine, boot_gdt, kernel_esp, initial_esp, l_user_start, load_gdt, load_idt, load_tss,
  load_paging, load_task1, main_cpu,
}

-- What `return_gate` leads to.
returned : Gdt → ℕ → ℕ → ℕ → ℕ → ℕ → ℕ → Processor → Processor
unfolding push
returned gdt ds ss esp cs eip rdtr p =
    let p = record p {
      es = ds;
      ds = ds;
      edx = rdtr;
      eax = esp + 12;
      words = update p.words (esp + 12) rdtr;
    } in
    let p = push eip (push cs (push esp (push ss p))) in
    record p {
      cs = cs;
      eip = eip;
      ss = ss;
      esp = esp;
      ds = lowered gdt 3 p.ds;
      es = lowered gdt 3 p.es;
      fs = lowered gdt 3 p.fs;
      gs = lowered gdt 3 p.gs;
    }

return_gate-returned :
    (gdt : Gdt) (ds ss esp cs eip rdtr : ℕ) (p : Processor)
    → 16 ≤ p.esp
    → rpl p.cs ≡ 0
    → rpl cs ≡ 3
    → returns_to gdt cs ss ≡ true
    → return_gate gdt ds ss esp cs eip rdtr p ≡ some (returned gdt ds ss esp cs eip rdtr p)
unfolding return_gate lret leave returned push push_all
return_gate-returned gdt ds ss esp cs eip rdtr p room kernel user returns =
    rw (word 0 eip refl, word 1 cs refl, word 2 esp refl, word 3 ss refl, kernel, user, returns)
      refl
  where
    from : Processor
    from = record p {
      es = ds;
      ds = ds;
      edx = rdtr;
      eax = esp + 12;
      words = update p.words (esp + 12) rdtr;
    }

    to : Processor
    to = push_all (ss ∷ esp ∷ cs ∷ eip ∷ []) from

    on : On to.words to.esp (eip ∷ cs ∷ esp ∷ ss ∷ [])
    on = push_all-On (ss ∷ esp ∷ cs ∷ eip ∷ []) [] from room tt

    word : (i w : ℕ) → get_elem? (eip ∷ cs ∷ esp ∷ ss ∷ []) i ≡ some w → top to i ≡ w
    word i w e = On-at to.words to.esp i w (eip ∷ cs ∷ esp ∷ ss ∷ []) on e

-- The processor as zeOS/bootsect.S leaves it: at the kernel's level, with its table of segments.
abbrev pub booted : Gdt → Processor → Segments → Idt → Machine
booted rest cpu s idt = record { cpu = cpu; segments = record s { gdt = boot_gdt rest }; idt = idt }

-- The first task runs its code, and the ways back into the kernel are open.
pub record Entered (pl : Places) (i d : ℕ) (m : Machine) : Type 0 where
  pub user : InUser m.segments.gdt m.cpu
  pub code : (m.cpu.cs ≡ user_cs) × (m.cpu.eip ≡ l_user_start)
  pub stack : (m.cpu.ss ≡ user_ds) × (m.cpu.esp ≡ user_esp)
  pub data_segments : (m.cpu.ds ≡ user_ds) × (m.cpu.es ≡ user_ds) × (m.cpu.fs ≡ 0) × (m.cpu.gs ≡ 0)
  pub space : (m.cpu.cr3 ≡ pl.dir_pages + 4096 * d) × (2 ^ 31 ≤ m.cpu.cr0)
  -- Interrupts are let in, and of the lines those of the clock and the keyboard.
  pub lets_in : enabled m.cpu ≡ true
  pub lines : (n : ℕ) → n < 8 → (m.cpu.ports 0x21 / 2 ^ n % 2 == 0) ≡ ltb n 2
  pub kernel_stack : (m.segments.tss.esp0 ≡ kernel_esp pl i) × (m.segments.tss.ss0 ≡ kernel_ds)
  pub found : base_of (m.segments.gdt (m.cpu.task_register / 8)) ≡ pl.tss
  pub tables : (m.cpu.gdtr ≡ m.segments.gdtr) × (m.cpu.idtr.base ≡ pl.idt)
  pub clock : LeadsTo pl.clock_handler 0 (m.idt 0x20)
  pub keyboard : LeadsTo pl.keyboard_handler 0 (m.idt 0x21)
  pub system_call : LeadsTo pl.system_call_handler 3 (m.idt 0x80)
  pub sysenter :
      (m.cpu.msr 0x174 ≡ kernel_cs)
      × (m.cpu.msr 0x175 ≡ kernel_esp pl i)
      × (m.cpu.msr 0x176 ≡ pl.syscall_handler_sysenter)

lines_of : (n : ℕ) → n < 8 → (0xfc / 2 ^ n % 2 == 0) ≡ ltb n 2
lines_of zero lt = refl
lines_of (suc zero) lt = refl
lines_of (suc (suc zero)) lt = refl
lines_of (suc (suc (suc zero))) lt = refl
lines_of (suc (suc (suc (suc zero)))) lt = refl
lines_of (suc (suc (suc (suc (suc zero))))) lt = refl
lines_of (suc (suc (suc (suc (suc (suc zero)))))) lt = refl
lines_of (suc (suc (suc (suc (suc (suc (suc zero))))))) lt = refl
lines_of (suc (suc (suc (suc (suc (suc (suc (suc n)))))))) lt = absurd (omega arith)

set_eflags-flags : (p : Processor) → (set_eflags p).e_flags ≡ 2
unfolding set_eflags push
set_eflags-flags p =
    let start : p.esp - 4 + 4 * 0 ≡ p.esp - 4 = omega arith in
    ap (λ a. flags_of (update p.words (p.esp - 4) 0 a)) start
    ∙ ap flags_of (update_self p.words (p.esp - 4) 0)

set_eflags-cs : (p : Processor) → (set_eflags p).cs ≡ p.cs
unfolding set_eflags push
set_eflags-cs p = refl

module _ (set_handlers : Idt → Idt) (pl : Places) (i d : ℕ) (rest : Gdt) (p : Processor)
    (s : Segments) (idt : Idt) where
  -- The machine once interrupts are let in, from the processor with its flags set, and the end.
  abbrev prepared : Machine
  prepared =
      let m : Machine =
        booted rest (set_seg_regs kernel_ds kernel_ds (pl.task + 4 * 4096) p) s idt in
      let m =
        load_task1 pl i d
          (load_paging pl (load_tss pl (load_idt set_handlers pl (load_gdt pl m)))) in
      record m { cpu = enable_int m.cpu }

  abbrev ended : Machine
  ended =
      let m = prepared in
      record m {
        cpu =
            returned m.segments.gdt user_ds user_ds user_esp user_cs l_user_start
              (m.cpu.words (kernel_start + 8)) m.cpu;
      }

  prepared-returns :
      rpl p.cs ≡ 0
      → return_gate prepared.segments.gdt user_ds user_ds user_esp user_cs l_user_start
          (prepared.cpu.words (kernel_start + 8))
          prepared.cpu
        ≡ some ended.cpu
  unfolding set_seg_regs load_gdt load_idt load_tss load_paging load_task1 enable_int sti delay
      set_gdt set_tss set_idt_reg set_gdt_reg set_task_reg write_msr set_cr3 set_pe_flag boot_gdt
      returns_to update
  prepared-returns kernel =
      return_gate-returned prepared.segments.gdt user_ds user_ds user_esp user_cs l_user_start
        (prepared.cpu.words (kernel_start + 8)) prepared.cpu (omega arith) kernel refl refl

  ended-Entered :
      p.e_flags ≡ 2
      → pl.tss < 2 ^ 32
      → pl.clock_handler < 2 ^ 32
      → pl.keyboard_handler < 2 ^ 32
      → pl.system_call_handler < 2 ^ 32
      → Entered pl i d ended
  unfolding set_seg_regs load_gdt load_idt load_tss load_paging load_task1 enable_int sti delay
      set_gdt set_tss set_idt_reg set_gdt_reg set_task_reg write_msr set_cr3 set_pe_flag boot_gdt
      returns_to returned push update base_of
  ended-Entered flags ht hc hk hs = record {
    user = record {
      level = refl;
      returns = refl;
      data_segments = (refl, refl);
      extra_segments = (refl, refl);
      flags = rw flags refl;
    };
    code = (refl, refl);
    stack = (refl, refl);
    data_segments = (refl, refl, refl, refl);
    space = (refl, ground arith);
    lets_in = rw flags refl;
    lines = lines_of;
    kernel_stack = (refl, refl);
    found = (set_tss-Loaded pl.tss (initial_esp pl) (record s { gdt = boot_gdt rest }) ht).leads;
    tables = (refl, refl);
    clock = gates.0;
    keyboard = gates.1;
    system_call = gates.2;
    sysenter = (refl, refl, refl);
  }
    where
      gates :
          LeadsTo pl.clock_handler 0 (
            set_idt set_handlers pl.clock_handler pl.keyboard_handler pl.system_call_handler idt
              0x20)
          × LeadsTo pl.keyboard_handler 0 (
              set_idt set_handlers pl.clock_handler pl.keyboard_handler pl.system_call_handler idt
                0x21)
          × LeadsTo pl.system_call_handler 3 (
              set_idt set_handlers pl.clock_handler pl.keyboard_handler pl.system_call_handler idt
                0x80)
      gates =
          let (a, b, c, e) =
            set_idt-LeadsTo set_handlers pl.clock_handler pl.keyboard_handler pl.system_call_handler
              idt 0 hc hk hs (omega arith) (omega arith) (omega arith) in
          (a, b, c)

-- From the processor as the boot sector leaves it, `main` comes to the code of the first task.
pub main_cpu-Entered :
    (set_handlers : Idt → Idt) (pl : Places) (i d : ℕ) (rest : Gdt) (cpu : Processor) (s : Segments)
    (idt : Idt)
    → rpl cpu.cs ≡ 0
    → pl.tss < 2 ^ 32
    → pl.clock_handler < 2 ^ 32
    → pl.keyboard_handler < 2 ^ 32
    → pl.system_call_handler < 2 ^ 32
    → (m : Machine) × (main_cpu set_handlers pl i d (booted rest cpu s idt) ≡ some m)
      × Entered pl i d m
unfolding main_cpu
main_cpu-Entered set_handlers pl i d rest cpu s idt kernel ht hc hk hs =
    let p = set_eflags cpu in
    (
      ended set_handlers pl i d rest p s idt,
      rw (prepared-returns set_handlers pl i d rest p s idt (ap rpl (set_eflags-cs cpu) ∙ kernel))
          refl,
      ended-Entered set_handlers pl i d rest p s idt (set_eflags-flags cpu) ht hc hk hs,
    )

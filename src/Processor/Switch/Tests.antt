-- ===== src/Processor/Switch/Tests.antt =====
-- The first switch to a child, whose parent called fork with the registers below.
use so2_soa_fib.Common.{
  ℕ, ◌+◌, ◌-◌, ◌/◌, ◌≡◌, refl, arith, inl, [], ◌∷◌, ◌==◌, if◌then◌else◌, get_or, update,
}
use so2_soa_fib.Segments.{user_cs, user_ds}
use so2_soa_fib.Processor.{Processor}
use so2_soa_fib.Processor.Stack.{On}
use so2_soa_fib.Processor.Context.{registers}
use so2_soa_fib.Processor.Sysenter.{sysenter_fin}
use so2_soa_fib.Processor.Sysenter.Fin.{Kept}
use so2_soa_fib.Processor.Switch.{switch_stack, copy_union, fork_stack, ret_from_fork}
use so2_soa_fib.Processor.Switch.Child.{Switches, switch_stack-Kept}

abbrev program : Processor
program = record {
  eax = 2;
  ebx = 21;
  ecx = 22;
  edx = 23;
  esi = 24;
  edi = 25;
  ebp = 0x11bfd0;
  esp = 0x11bfd0;
  eip = 0x100020;
  e_flags = 514;
  cs = user_cs;
  ss = user_ds;
  ds = user_ds;
  es = user_ds;
  fs = 0;
  gs = 0;
  gdtr = record { limit = 0; base = 0 };
  idtr = record { limit = 0; base = 0 };
  ldtr = 0;
  task_register = 0;
  cr0 = 1;
  cr3 = 0;
  msr = λ i. 0x10;
  ports = λ i. 0xfc;
  words = λ a. a;
}

-- The stack of the parent, whose union stands at 0x20000, and a word of the user's.
abbrev parent_words : ℕ → ℕ
parent_words a =
    if a == 0x11bfd0
    then 7
    else get_or (registers program (0x100030 ∷ user_cs ∷ 2 ∷ 0x11bfd0 ∷ user_ds ∷ []))
        ((a - 0x20fc0) / 4) 0

-- The task at 0x1f000 switches.
abbrev switching : Processor
unfolding fork_stack
switching = record program {
  ebp = 0x1ff00;
  words = fork_stack 0x12345 0x20000 0x21000 parent_words;
}

parent_saved :
    On parent_words
      (0x20000 + 4032)
      (registers program (0x100030 ∷ user_cs ∷ 2 ∷ 0x11bfd0 ∷ user_ds ∷ []))
parent_saved = omega arith

switching-Switches :
    Switches 0x12345 0x20000 0x21000 parent_words 0x11bfd0 (7 ∷ []) 0x1f000 switching
unfolding switching fork_stack copy_union update
switching-Switches = record {
  segment = refl;
  stack = λ a low high. refl;
  apart = inl (omega arith);
  user = (refl, tt);
  below = (omega arith, omega arith);
}

switch_stack-Kept_example :
    ((switch_stack 0x1f000 0x21000 switching).eip ≡ 0x12345)
    × ((ret_from_fork (switch_stack 0x1f000 0x21000 switching)).eip ≡ parent_words (0x20000 + 4028))
    × Kept program 0x100030 0
        (7 ∷ [])
        (sysenter_fin (ret_from_fork (switch_stack 0x1f000 0x21000 switching)))
switch_stack-Kept_example =
    switch_stack-Kept 0x12345 0x20000 0x21000 parent_words program 0x100030 2 (7 ∷ []) 0x1f000
      switching parent_saved switching-Switches

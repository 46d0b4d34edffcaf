-- ===== src/Idt/Gates.antt =====
-- How the processor reads the gates.
use so2_soa_fib.Common.{ℕ, ◌+◌, ◌*◌, ◌/◌, ◌%◌, ◌^◌, ◌<◌, ◌≡◌, ◌≢◌, refl, arith, update}
use so2_soa_fib.Idt.{Gate, Idt, kernel_cs, set_idt}

-- The gate is present, of 32 bits and an interrupt gate, leads to `handler` in the kernel's code,
-- and may be called from the level and those above it.
pub record LeadsTo (handler level : ℕ) (g : Gate) : Type 0 where
  pub offset : g.low_offset + g.high_offset * 2 ^ 16 ≡ handler
  pub code : g.segment_selector ≡ kernel_cs
  pub is_present : g.flags / 2 ^ 15 ≡ 1
  pub dpl : g.flags / 2 ^ 13 % 4 ≡ level
  pub gate_type : g.flags / 2 ^ 8 % 2 ^ 5 ≡ 0b1110

-- After `setIdt`, with addresses and a table of any kind, vector 32 leads to the clock's handler and
-- 33 to the keyboard's, for the kernel's level only, and 0x80 to the one of system calls, for the
-- user's level; every other vector is as `set_handlers` left it.
pub set_idt-LeadsTo :
    (set_handlers : Idt → Idt) (clock keyboard system_call : ℕ) (idt : Idt) (v : ℕ)
    → clock < 2 ^ 32
    → keyboard < 2 ^ 32
    → system_call < 2 ^ 32
    → v ≢ 32
    → v ≢ 33
    → v ≢ 0x80
    → LeadsTo clock 0 (set_idt set_handlers clock keyboard system_call idt 32)
      × LeadsTo keyboard 0 (set_idt set_handlers clock keyboard system_call idt 33)
      × LeadsTo system_call 3 (set_idt set_handlers clock keyboard system_call idt 0x80)
      × (set_idt set_handlers clock keyboard system_call idt v ≡ set_handlers idt v)
unfolding set_idt update
set_idt-LeadsTo set_handlers clock keyboard system_call idt v hc hk hs n32 n33 n80 = (
  record {
    offset = omega arith;
    code = refl;
    is_present = omega arith;
    dpl = omega arith;
    gate_type = omega arith;
  },
  record {
    offset = omega arith;
    code = refl;
    is_present = omega arith;
    dpl = omega arith;
    gate_type = omega arith;
  },
  record {
    offset = omega arith;
    code = refl;
    is_present = omega arith;
    dpl = omega arith;
    gate_type = omega arith;
  },
  ground arith,
)

-- ===== src/Segments/Base.antt =====
-- What the processor finds by the registers that the kernel loads.
use so2_soa_fib.Common.{
  ℕ, ◌+◌, ◌*◌, ◌/◌, ◌%◌, ◌^◌, ◌<◌, ◌≡◌, ◌≢◌, refl, arith, update, update_self, update_ne,
}
use so2_soa_fib.Idt.{low_word}
use so2_soa_fib.Segments.{Descriptor, Segments, mid_byte, high_byte, gdt_start, set_gdt, set_tss}

-- The base address as the processor reads it out of a descriptor, and the index and the privilege of
-- a selector.
unfoldable pub base_of : Descriptor → ℕ
base_of d = d.low_base + d.mid_base * 2 ^ 16 + d.high_base * 2 ^ 24

abbrev pub index_of : ℕ → ℕ
index_of selector = selector / 8

abbrev pub privilege_of : ℕ → ℕ
privilege_of selector = selector % 4

-- The task register leads to the TSS at `address`, in a table in which nothing but that base has
-- changed; on an interrupt the processor takes the stack `esp0` of the kernel's level, and the task's
-- own segments are of the user's.
pub record Loaded (address initial_esp : ℕ) (s s' : Segments) : Type 0 where
  pub leads : base_of (s'.gdt (index_of s'.task_register)) ≡ address
  pub kept :
      let d = s.gdt (index_of s'.task_register) in
      let d' = s'.gdt (index_of s'.task_register) in
      (d'.limit ≡ d.limit) × (d'.flags1 ≡ d.flags1) × (d'.flags2 ≡ d.flags2)
  pub others : (i : ℕ) → i ≢ index_of s'.task_register → s'.gdt i ≡ s.gdt i
  pub table : s'.gdtr.base ≡ gdt_start
  pub within : index_of s'.task_register * 8 + 7 < s'.gdtr.limit
  pub kernel_stack : (s'.tss.esp0 ≡ initial_esp) × (privilege_of s'.tss.ss0 ≡ 0)
  pub user_segments :
      (privilege_of s'.tss.cs ≡ 3) × (privilege_of s'.tss.ss ≡ 3) × (privilege_of s'.tss.ds ≡ 3)

-- After setGdt and setTSS the processor's task register leads, through the table that its other
-- register gives, to the TSS at its address; nothing else in the table has changed; and the TSS gives
-- the kernel's stack for the kernel's level and segments of the user's level.
pub set_tss-Loaded :
    (address initial_esp : ℕ) (s : Segments)
    → address < 2 ^ 32
    → Loaded address initial_esp s (set_tss initial_esp (set_gdt address s))
unfolding set_gdt set_tss base_of
set_tss-Loaded address initial_esp s lt =
    let d = s.gdt 6 in
    let d' : Descriptor = record d {
      low_base = low_word address;
      mid_base = mid_byte address;
      high_base = high_byte address;
    } in
    let found : update s.gdt 6 d' 6 ≡ d' = update_self s.gdt 6 d' in
    record {
      leads = rw found (omega arith);
      kept = rw found (refl, refl, refl);
      others = λ i n. update_ne s.gdt 6 d' n;
      table = refl;
      within = omega arith;
      kernel_stack = (refl, refl);
      user_segments = (refl, refl, refl);
    }

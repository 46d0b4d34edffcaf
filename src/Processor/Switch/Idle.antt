-- ===== src/Processor/Switch/Idle.antt =====
-- The idle task begins.
use so2_soa_fib.Common.{
  ℕ, ◌+◌, ◌-◌, ◌*◌, ◌≤◌, ◌<◌, ◌≡◌, ◌⊎◌, inl, inr, ap, ◌∙◌, arith, update, update_self, update_ne,
}
use so2_soa_fib.Processor.{Processor}
use so2_soa_fib.Processor.Switch.{esp_field, switch_stack, idle_stack}

module _ (cpu_idle task running : ℕ) (words : ℕ → ℕ) (ebp : ℕ)
    (apart : (esp_field running < task) ⊎ (task + 4096 ≤ esp_field running)) where
  -- The memory when the task that runs has saved its `ebp`.
  abbrev memory : ℕ → ℕ
  memory = update (idle_stack cpu_idle task words) (esp_field running) ebp

  memory-same : (i : ℕ) → i < 4096 → memory (task + i) ≡ idle_stack cpu_idle task words (task + i)
  memory-same i lt =
      update_ne _ (esp_field running) ebp
        (elim apart [ inl before ↦ omega arith | inr behind ↦ omega arith ])

  memory-esp : memory (esp_field task) ≡ task + 4088
  unfolding idle_stack
  memory-esp = memory-same 16 (omega arith) ∙ update_self _ (esp_field task) _ ∙ omega arith

  memory-start : memory (task + 4092) ≡ cpu_idle
  unfolding idle_stack
  memory-start =
      memory-same 4092 (omega arith)
      ∙ update_ne _ (esp_field task) _ (omega arith)
      ∙ update_ne _ (task + 4 * (1024 - 2)) 0 (omega arith)
      ∙ update_self words (task + 4 * (1024 - 1)) cpu_idle

-- After init_idle, the first switch to the idle task goes to cpu_idle, at the end of its stack.
switch_stack-idle :
    (cpu_idle task running : ℕ) (words : ℕ → ℕ) (j : Processor)
    → (esp_field running < task) ⊎ (task + 4096 ≤ esp_field running)
    → let k = switch_stack running task (record j { words = idle_stack cpu_idle task words }) in
      (k.eip ≡ cpu_idle) × (k.esp ≡ task + 4096)
unfolding switch_stack
switch_stack-idle cpu_idle task running words j apart =
    let m = memory cpu_idle task running words j.ebp apart in
    let esp = memory-esp cpu_idle task running words j.ebp apart in
    let at : m (esp_field task) + 4 + 4 * 0 ≡ task + 4092 = omega (arith, esp) in
    (ap m at ∙ memory-start cpu_idle task running words j.ebp apart, omega (arith, esp))

-- ===== src/Processor/Switch/Child.antt =====
-- A new task begins.
use so2_soa_fib.Common.{
  ℕ, ◌+◌, ◌-◌, ◌*◌, ◌≤◌, ◌<◌, ◌≡◌, ◌⊎◌, inl, inr, refl, sym, ap, subst, ◌∙◌, arith, true, List, [],
  ◌∷◌, ◌&&◌, leb, ltb, update_self, update_ne,
}
use so2_soa_fib.Idt.{kernel_cs}
use so2_soa_fib.Segments.{user_ds, user_cs}
use so2_soa_fib.Processor.{Processor}
use so2_soa_fib.Processor.Stack.{On, On-same, On-moved}
use so2_soa_fib.Processor.Context.{registers}
use so2_soa_fib.Processor.Sysenter.{sysenter_fin}
use so2_soa_fib.Processor.Sysenter.Fin.{Kept, sysenter_fin-Kept}
use so2_soa_fib.Processor.Switch.{esp_field, switch_stack, copy_union, fork_stack, ret_from_fork}

-- What the stack of the child holds.
copy_union-inside :
    (parent child : ℕ) (words : ℕ → ℕ) (i : ℕ)
    → i < 4096
    → copy_union parent child words (child + i) ≡ words (parent + i)
unfolding copy_union
copy_union-inside parent child words i lt =
    let inside : (leb child (child + i) && ltb (child + i) (child + 4096)) ≡ true = ground arith in
    let at : child + i - child ≡ i = omega arith in rw (inside, at) refl

module _ (start parent child : ℕ) (words : ℕ → ℕ) where
  fork_stack-esp : fork_stack start parent child words (esp_field child) ≡ child + 4096 - 4 * 0x13
  unfolding fork_stack
  fork_stack-esp = update_self _ (esp_field child) _

  fork_stack-start : fork_stack start parent child words (child + 4096 - 4 * 0x12) ≡ start
  unfolding fork_stack
  fork_stack-start =
      update_ne _ (esp_field child) _ (omega arith) ∙ update_self _ (child + 4096 - 4 * 0x12) start

  fork_stack-copied :
      (i : ℕ)
      → 4096 - 4 * 0x11 ≤ i
      → i < 4096
      → fork_stack start parent child words (child + i) ≡ words (parent + i)
  unfolding fork_stack
  fork_stack-copied i low lt =
      update_ne _ (esp_field child) _ (omega arith)
      ∙ update_ne _ (child + 4096 - 4 * 0x12) start (omega arith)
      ∙ update_ne (copy_union parent child words) (child + 4096 - 4 * 0x13) 0 (omega arith)
      ∙ copy_union-inside parent child words i lt

-- A task that runs in the kernel switches to the child for the first time. Its memory has the stack
-- of the child as sys_fork has left it, and the words of the user's stack in the child's space.
pub record Switches (start parent child : ℕ) (words : ℕ → ℕ) (ebp : ℕ) (ws : List ℕ) (running : ℕ)
    (j : Processor) : Type 0 where
  pub segment : j.msr 0x174 ≡ kernel_cs
  pub stack :
      (a : ℕ) → child ≤ a → a < child + 4096 → j.words a ≡ fork_stack start parent child words a
  pub apart : (esp_field running < child) ⊎ (child + 4096 ≤ esp_field running)
  pub user : On j.words ebp ws
  pub below : (child + 4096 ≤ ebp) × (esp_field running < ebp)

module _ (start parent child : ℕ) (words : ℕ → ℕ) (p : Processor) (ret flags : ℕ) (ws : List ℕ)
    (running : ℕ) (j : Processor)
    (saved : On words (parent + 4032) (registers p (ret ∷ user_cs ∷ flags ∷ p.ebp ∷ user_ds ∷ [])))
    (switches : Switches start parent child words p.ebp ws running j) where
  abbrev k : Processor
  k = switch_stack running child j

  -- What the processor finds in the PCB and on the stack of the child.
  k-words :
      (a : ℕ) → child ≤ a → a < child + 4096 → k.words a ≡ fork_stack start parent child words a
  unfolding switch_stack
  k-words a low high =
      update_ne j.words (esp_field running) j.ebp
        (elim switches.apart [ inl before ↦ omega arith | inr behind ↦ omega arith ])
      ∙ switches.stack a low high

  k-esp : k.esp ≡ child + 4028
  unfolding switch_stack
  k-esp =
      let field : k.words (esp_field child) ≡ child + 4096 - 4 * 0x13 =
        k-words (esp_field child) (omega arith) (omega arith)
        ∙ fork_stack-esp start parent child words in
      omega (arith, field)

  k-eip : k.eip ≡ start
  unfolding switch_stack
  k-eip =
      let field : k.words (esp_field child) ≡ child + 4096 - 4 * 0x13 =
        k-words (esp_field child) (omega arith) (omega arith)
        ∙ fork_stack-esp start parent child words in
      let at : k.words (esp_field child) + 4 + 4 * 0 ≡ child + 4096 - 4 * 0x12 =
        omega (arith, field) in
      ap k.words at
      ∙ k-words (child + 4096 - 4 * 0x12) (omega arith) (omega arith)
      ∙ fork_stack-start start parent child words

  -- The words from the return address of the handler's call on are the parent's.
  k-copied : (i : ℕ) → 4096 - 4 * 0x11 ≤ i → i < 4096 → k.words (child + i) ≡ words (parent + i)
  k-copied i low lt =
      k-words (child + i) (omega arith) (omega arith)
      ∙ fork_stack-copied start parent child words i low lt

  k-saved : On k.words (child + 4032) (registers p (ret ∷ user_cs ∷ flags ∷ p.ebp ∷ user_ds ∷ []))
  k-saved =
      On-moved words k.words (parent + 4032) (child + 4032)
        (registers p (ret ∷ user_cs ∷ flags ∷ p.ebp ∷ user_ds ∷ []))
        (λ i lt.
          let at : child + 4032 + i ≡ child + (4032 + i) = omega arith in
          let at' : parent + (4032 + i) ≡ parent + 4032 + i = omega arith in
          ap k.words at ∙ k-copied (4032 + i) (omega arith) (omega arith) ∙ ap words at')
        saved

  k-user : On k.words p.ebp ws
  unfolding switch_stack
  k-user =
      On-same j.words k.words p.ebp ws
        (λ b le lt. update_ne j.words (esp_field running) j.ebp (omega (arith, switches.below)))
        switches.user

  -- If the stack of the parent has the registers of its program, the first switch to the child goes to
  -- ret_from_fork, that returns to where the handler had called sys_fork, and by the end of the
  -- handler the program goes on in the child as in the parent, with 0 in `eax`.
  pub switch_stack-Kept :
      (k.eip ≡ start)
      × ((ret_from_fork k).eip ≡ words (parent + 4028))
      × Kept p ret 0 ws (sysenter_fin (ret_from_fork k))
  unfolding switch_stack ret_from_fork
  switch_stack-Kept =
      let end : (ret_from_fork k).esp ≡ child + 4032 = omega (arith, k-esp) in
      let at : k.esp + 4 * 0 ≡ child + 4028 = omega (arith, k-esp) in
      (
        k-eip,
        ap k.words at ∙ k-copied 4028 (omega arith) (omega arith),
        sysenter_fin-Kept p ret flags ws (ret_from_fork k) switches.segment
            (subst (λ a. On k.words a (registers p (ret ∷ user_cs ∷ flags ∷ p.ebp ∷ user_ds ∷ [])))
              (sym end) k-saved)
            (omega (arith, end, switches.below)) k-user,
      )

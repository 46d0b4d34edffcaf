-- ===== src/Processor/Sysenter/Kept.antt =====
-- What a program finds after sysenter and the way back.
use so2_soa_fib.Common.{ℕ, ◌+◌, ◌*◌, ◌≤◌, ◌<◌, ◌≡◌, sym, subst, ◌∙◌, arith, List, [], ◌∷◌, length}
use so2_soa_fib.Idt.{kernel_cs}
use so2_soa_fib.Segments.{user_ds, user_cs}
use so2_soa_fib.Processor.{Processor, push, cli}
use so2_soa_fib.Processor.Entry.{push_all, save_all}
use so2_soa_fib.Processor.Stack.{On, On-same, push_all-On, push_all-same}
use so2_soa_fib.Processor.Context.{registers}
use so2_soa_fib.Processor.Sysenter.Fin.{Kept, sysenter_fin-Kept}
use so2_soa_fib.Processor.Sysenter.{sysenter, sysenter_handler}

-- The processor before the code of the kernel runs.
unfoldable pub in_kernel : Processor → Processor
unfolding push_all save_all
in_kernel p =
    let p = push_all (user_ds ∷ p.ebp ∷ p.e_flags ∷ user_cs ∷ []) p in
    save_all (push_all (p.words (p.ebp + 4) ∷ []) p)

-- The registers of sysenter are set, and the kernel's stack has room for 16 words below the user's.
pub record Ready (p : Processor) : Type 0 where
  pub segment : p.msr 0x174 ≡ kernel_cs
  pub room : 64 ≤ p.msr 0x175
  pub below : p.msr 0x175 ≤ p.ebp

-- The code of the kernel leaves its stack as it was, and `n` words of the user's.
pub record Leaves (body : Processor → Processor) (user n : ℕ) (k : Processor) : Type 0 where
  pub esp : (body k).esp ≡ k.esp
  pub segment : (body k).msr 0x174 ≡ k.msr 0x174
  pub stack : (a : ℕ) → k.esp ≤ a → a < k.esp + 64 → (body k).words a ≡ k.words a
  pub user_stack : (a : ℕ) → user ≤ a → a < user + 4 * n → (body k).words a ≡ k.words a

module _ (body : Processor → Processor) (p : Processor) (ready : Ready p) (x ret : ℕ)
    (more : List ℕ) (on : On p.words p.ebp (x ∷ ret ∷ more)) where
  abbrev ws : List ℕ
  ws = x ∷ ret ∷ more

  -- The words of the stack under the registers.
  abbrev made_up : List ℕ
  made_up = ret ∷ user_cs ∷ (sysenter p).e_flags ∷ p.ebp ∷ user_ds ∷ []

  -- All that is pushed, the read of the return address being `r`.
  abbrev pushed : ℕ → List ℕ
  pushed r =
      user_ds
      ∷ p.ebp
      ∷ (sysenter p).e_flags
      ∷ user_cs
      ∷ r
      ∷ p.gs
      ∷ p.fs
      ∷ p.es
      ∷ p.ds
      ∷ p.eax
      ∷ p.ebp
      ∷ p.edi
      ∷ p.esi
      ∷ p.edx
      ∷ p.ecx
      ∷ p.ebx
      ∷ []

  in_kernel-words : (b : ℕ) → p.msr 0x175 ≤ b → (in_kernel (sysenter p)).words b ≡ p.words b
  unfolding in_kernel sysenter cli save_all push_all push
  in_kernel-words b le = push_all-same (pushed _) (sysenter p) b (omega (arith, ready.room)) le

  return_address :
      (push_all (user_ds ∷ p.ebp ∷ (sysenter p).e_flags ∷ user_cs ∷ []) (sysenter p)).words
        (p.ebp + 4)
      ≡ ret
  unfolding sysenter cli
  return_address =
      push_all-same (user_ds ∷ p.ebp ∷ (sysenter p).e_flags ∷ user_cs ∷ []) (sysenter p) (p.ebp + 4)
        (omega (arith, ready.room)) (omega (arith, ready.below))
      ∙ on.1.0

  in_kernel-On :
      On (in_kernel (sysenter p)).words (in_kernel (sysenter p)).esp (registers p made_up)
  unfolding in_kernel sysenter cli save_all push_all push
  in_kernel-On =
      subst
        (λ r.
          On (in_kernel (sysenter p)).words (in_kernel (sysenter p)).esp
            (registers p (r ∷ user_cs ∷ (sysenter p).e_flags ∷ p.ebp ∷ user_ds ∷ [])))
        return_address (push_all-On (pushed _) [] (sysenter p) (omega (arith, ready.room)) tt)

  in_kernel-esp : (in_kernel (sysenter p)).esp + 64 ≡ p.msr 0x175
  unfolding in_kernel sysenter cli save_all push_all push
  in_kernel-esp = omega (arith, ready.room)

  module _ (leaves : Leaves body p.ebp (length ws) (in_kernel (sysenter p))) where
    abbrev k : Processor
    k = body (in_kernel (sysenter p))

    kernel_segment : k.msr 0x174 ≡ kernel_cs
    unfolding in_kernel sysenter cli save_all push_all push
    kernel_segment = leaves.segment ∙ ready.segment

    pub sysenter_handler-Kept : Kept p ret k.eax ws (sysenter_handler body (sysenter p))
    unfolding sysenter_handler in_kernel
    sysenter_handler-Kept =
        sysenter_fin-Kept p ret (sysenter p).e_flags ws k kernel_segment
          (subst (λ a. On k.words a (registers p made_up)) (sym leaves.esp)
            (On-same (in_kernel (sysenter p)).words k.words (in_kernel (sysenter p)).esp
              (registers p made_up) leaves.stack in_kernel-On))
          (omega (arith, leaves.esp, in_kernel-esp, ready.below))
          (On-same p.words k.words p.ebp ws
            (λ b le lt. leaves.user_stack b le lt ∙ in_kernel-words b (omega (arith, ready.below)))
            on)

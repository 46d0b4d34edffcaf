-- ===== src/Processor/Sysenter/Fin.antt =====
-- The end of `syscall_handler_sysenter`.
use so2_soa_fib.Common.{
  ℕ, ◌+◌, ◌*◌, ◌/◌, ◌≤◌, ◌≡◌, refl, ap, arith, List, [], ◌∷◌, get_elem?, some, update, update_ne,
}
use so2_soa_fib.Idt.{kernel_cs}
use so2_soa_fib.Segments.{user_ds, user_cs}
use so2_soa_fib.Processor.{Processor, sti}
use so2_soa_fib.Processor.Entry.{restore_all}
use so2_soa_fib.Processor.Stack.{On, On-same, On-at, On-append, On-set}
use so2_soa_fib.Processor.Context.{registers}
use so2_soa_fib.Processor.Sysenter.{sysexit, sysenter_fin}

-- The program goes on at `ret`, with `v` in `eax`; `ecx` and `edx` are lost.
pub record Kept (p : Processor) (ret v : ℕ) (ws : List ℕ) (q : Processor) : Type 0 where
  pub code : (q.eip ≡ ret) × (q.cs ≡ user_cs)
  pub stack : (q.esp ≡ p.ebp) × (q.ss ≡ user_ds)
  pub eax : q.eax ≡ v
  pub saved : (q.ebx ≡ p.ebx) × (q.esi ≡ p.esi) × (q.edi ≡ p.edi) × (q.ebp ≡ p.ebp)
  pub segments : (q.ds ≡ p.ds) × (q.es ≡ p.es) × (q.fs ≡ p.fs) × (q.gs ≡ p.gs)
  pub on : On q.words p.ebp ws

module _ (p : Processor) (ret flags : ℕ) (ws : List ℕ) (k : Processor)
    (segment : k.msr 0x174 ≡ kernel_cs)
    (saved : On k.words k.esp (registers p (ret ∷ user_cs ∷ flags ∷ p.ebp ∷ user_ds ∷ [])))
    (below : k.esp + 64 ≤ p.ebp) (user : On k.words p.ebp ws) where
  abbrev made_up : List ℕ
  made_up = ret ∷ user_cs ∷ flags ∷ p.ebp ∷ user_ds ∷ []

  -- The stacks once the result is stored.
  stored : ℕ → ℕ
  stored = update k.words (k.esp + 4 * 6) k.eax

  stored-On : On stored k.esp (registers (record p { eax = k.eax }) made_up)
  unfolding stored
  stored-On = On-set k.words k.esp 6 k.eax (registers p made_up) saved

  stored-user : On stored p.ebp ws
  unfolding stored
  stored-user =
      On-same k.words stored p.ebp ws
        (λ b le lt. update_ne k.words (k.esp + 4 * 6) k.eax (omega (arith, below))) user

  word :
      (i w : ℕ)
      → get_elem? (registers (record p { eax = k.eax }) made_up) i ≡ some w
      → stored (k.esp + 4 * i) ≡ w
  word i w e = On-at stored k.esp i w (registers (record p { eax = k.eax }) made_up) stored-On e

  behind : (i w : ℕ) → get_elem? made_up i ≡ some w → stored (k.esp + 44 + 4 * i) ≡ w
  behind i w e =
      On-at stored (k.esp + 44) i w made_up
        (On-append stored k.esp (registers (record p { eax = k.eax }) []) made_up stored-On) e

  pub sysenter_fin-Kept : Kept p ret k.eax ws (sysenter_fin k)
  unfolding sysenter_fin restore_all sysexit sti stored
  sysenter_fin-Kept = record {
    code = (behind 0 ret refl, ap (λ m. m / 4 * 4 + 19) segment);
    stack = (behind 3 p.ebp refl, ap (λ m. m / 4 * 4 + 27) segment);
    eax = word 6 k.eax refl;
    saved = (word 0 p.ebx refl, word 3 p.esi refl, word 4 p.edi refl, word 5 p.ebp refl);
    segments = (word 7 p.ds refl, word 8 p.es refl, word 9 p.fs refl, word 10 p.gs refl);
    on = stored-user;
  }

-- ===== src/Processor/Context.antt =====
-- What lies on the kernel's stack while a program is interrupted, and the way back to it.
use so2_soa_fib.Common.{
  ℕ, ◌+◌, ◌≤◌, ◌<◌, ◌≡◌, refl, sym, ap, subst, ◌∙◌, arith, true, some, List, [], ◌∷◌, get_elem?,
}
use so2_soa_fib.Idt.{Gate}
use so2_soa_fib.Segments.{Gdt, Tss}
use so2_soa_fib.Processor.{Processor, push, top, rpl, flags_of, lowered, returns_to, leave, cli}
use so2_soa_fib.Processor.Entry.{push_all, enter, save_all, restore_all, iret}
use so2_soa_fib.Processor.Stack.{On, On-same, On-at, On-append, push_all-On}

-- The code of a user runs: the segments are such that a return to it changes none of them.
pub record InUser (gdt : Gdt) (p : Processor) : Type 0 where
  pub level : rpl p.cs ≡ 3
  pub returns : returns_to gdt p.cs p.ss ≡ true
  pub data_segments : (lowered gdt 3 p.ds ≡ p.ds) × (lowered gdt 3 p.es ≡ p.es)
  pub extra_segments : (lowered gdt 3 p.fs ≡ p.fs) × (lowered gdt 3 p.gs ≡ p.gs)
  pub flags : flags_of p.e_flags ≡ p.e_flags

-- The code of the kernel leaves the 16 words of its stack from `esp` on as they were.
abbrev pub Keeps : (Processor → Processor) → Processor → Type 0
Keeps body p =
    ((body p).esp ≡ p.esp)
    × (rpl (body p).cs ≡ rpl p.cs)
    × ((a : ℕ) → p.esp ≤ a → a < p.esp + 64 → (body p).words a ≡ p.words a)

-- All that a program sees of the processor, but for `eax`.
pub record SameUser (p q : Processor) : Type 0 where
  pub b : (q.ebx ≡ p.ebx) × (q.ecx ≡ p.ecx) × (q.edx ≡ p.edx)
  pub i : (q.esi ≡ p.esi) × (q.edi ≡ p.edi) × (q.ebp ≡ p.ebp) × (q.esp ≡ p.esp)
  pub code : (q.eip ≡ p.eip) × (q.cs ≡ p.cs) × (q.e_flags ≡ p.e_flags)
  pub segments : (q.ss ≡ p.ss) × (q.ds ≡ p.ds) × (q.es ≡ p.es) × (q.fs ≡ p.fs) × (q.gs ≡ p.gs)

-- What a return context of the processor and the registers of SAVE_ALL are on the stack.
abbrev pub context : Processor → List ℕ
context p = p.eip ∷ p.cs ∷ p.e_flags ∷ p.esp ∷ p.ss ∷ []

abbrev pub registers : Processor → List ℕ → List ℕ
registers p ws =
    p.ebx ∷ p.ecx ∷ p.edx ∷ p.esi ∷ p.edi ∷ p.ebp ∷ p.eax ∷ p.ds ∷ p.es ∷ p.fs ∷ p.gs ∷ ws

-- What lies on the stack while the code of the kernel runs.
abbrev pub Saved : Processor → Processor → Type 0
Saved p j = On j.words j.esp (registers p (context p))

enter-On :
    (tss : Tss) (g : Gate) (p : Processor)
    → 20 ≤ tss.esp0
    → On (enter tss g p).words (enter tss g p).esp (context p)
unfolding enter cli
enter-On tss g p room =
    push_all-On (p.ss ∷ p.esp ∷ p.e_flags ∷ p.cs ∷ p.eip ∷ []) []
      (record p { ss = tss.ss0; esp = tss.esp0 }) room tt

save_all-On :
    (p : Processor) (ws : List ℕ)
    → 44 ≤ p.esp
    → On p.words p.esp ws
    → On (save_all p).words (save_all p).esp (registers p ws)
unfolding save_all
save_all-On p ws room on =
    push_all-On
      (p.gs ∷ p.fs ∷ p.es ∷ p.ds ∷ p.eax ∷ p.ebp ∷ p.edi ∷ p.esi ∷ p.edx ∷ p.ecx ∷ p.ebx ∷ []) ws p
      room on

pub enter-Saved :
    (tss : Tss) (g : Gate) (p : Processor) → 64 ≤ tss.esp0 → Saved p (save_all (enter tss g p))
unfolding enter cli push_all push
enter-Saved tss g p room =
    save_all-On (enter tss g p) (context p) (omega arith) (enter-On tss g p (omega arith))

pub Keeps-Saved :
    (body : Processor → Processor) (p j : Processor) → Keeps body j → Saved p j → Saved p (body j)
Keeps-Saved body p j (esp, cs, same) on =
    subst (λ a. On (body j).words a (registers p (context p))) (sym esp)
      (On-same j.words (body j).words j.esp (registers p (context p)) same on)

-- The way back, with `v` in the place of `eax`.
abbrev Back : Gdt → ℕ → Processor → Processor → Type 0
Back gdt v p j = (q : Processor) × (iret gdt (restore_all j) ≡ some q) × SameUser p q × (q.eax ≡ v)

iret-leaves :
    (gdt : Gdt) (p r : Processor)
    → InUser gdt p
    → rpl r.cs ≡ 0
    → On r.words r.esp (context p)
    → iret gdt r
      ≡ some (record r {
        cs = p.cs;
        eip = p.eip;
        ss = p.ss;
        esp = p.esp;
        e_flags = p.e_flags;
        ds = lowered gdt 3 r.ds;
        es = lowered gdt 3 r.es;
        fs = lowered gdt 3 r.fs;
        gs = lowered gdt 3 r.gs;
      })
unfolding iret leave
iret-leaves gdt p r user kernel on =
    rw
      (
        word 0 p.eip refl,
        word 1 p.cs refl,
        word 2 p.e_flags refl,
        word 3 p.esp refl,
        word 4 p.ss refl,
        kernel,
        user.level,
        user.returns,
        user.flags,
      )
      refl
  where
    word : (i w : ℕ) → get_elem? (context p) i ≡ some w → top r i ≡ w
    word i w e = On-at r.words r.esp i w (context p) on e

pub Saved-Back :
    (gdt : Gdt) (p j : Processor) → InUser gdt p → rpl j.cs ≡ 0 → Saved p j → Back gdt p.eax p j
unfolding restore_all
Saved-Back gdt p j user kernel on = (
  _,
  iret-leaves gdt p (restore_all j) user kernel
      (On-append j.words j.esp (registers p []) (context p) on),
  record {
    b = (word 0 p.ebx refl, word 1 p.ecx refl, word 2 p.edx refl);
    i = (word 3 p.esi refl, word 4 p.edi refl, word 5 p.ebp refl, refl);
    code = (refl, refl, refl);
    segments = (
      refl,
      ap (lowered gdt 3) (word 7 p.ds refl) ∙ user.data_segments.0,
      ap (lowered gdt 3) (word 8 p.es refl) ∙ user.data_segments.1,
      ap (lowered gdt 3) (word 9 p.fs refl) ∙ user.extra_segments.0,
      ap (lowered gdt 3) (word 10 p.gs refl) ∙ user.extra_segments.1,
    );
  },
  word 6 p.eax refl,
)
  where
    word : (i w : ℕ) → get_elem? (registers p (context p)) i ≡ some w → top j i ≡ w
    word i w e = On-at j.words j.esp i w (registers p (context p)) on e

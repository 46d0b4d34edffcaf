-- ===== src/Processor/Sysenter/Calls.antt =====
-- A call of a wrapper keeps the registers of its caller.
use so2_soa_fib.Common.{
  ℕ, zero, suc, ◌+◌, ◌-◌, ◌*◌, ◌^◌, ◌≤◌, ◌<◌, ◌≡◌, ◌≢◌, ◌⊎◌, inl, inr, refl, subst, ◌∙◌, arith,
  List, [], ◌∷◌, length, get_elem?, some, update_self, update_ne, ltb, ◌==◌, Bool-cases,
}
use so2_soa_fib.Processor.{Processor, push}
use so2_soa_fib.Processor.Entry.{push_all}
use so2_soa_fib.Processor.Stack.{On, On-same, On-read, push_all-On}
use so2_soa_fib.Processor.Sysenter.{
  sysenter, sysenter_handler, load_params, before_trap, restore_params, Tail, negative, enomem,
  no_lines, error_eax, error_words, store_error, behind_trap, wrapper,
}
use so2_soa_fib.Processor.Sysenter.Kept.{in_kernel, Ready, Leaves, sysenter_handler-Kept}
use so2_soa_fib.Libc.Wrapper.{check_error, check_sbrk}

-- The words that a wrapper puts on the stack of its caller, on the address of the return.
abbrev pub loaded : ℕ → Processor → List ℕ
loaded zero p = p.edx ∷ p.ecx ∷ p.ebp ∷ p.words p.esp ∷ []
loaded (suc n) p = p.ebx ∷ p.edx ∷ p.ecx ∷ p.ebp ∷ p.words p.esp ∷ []

abbrev pub frame : ℕ → ℕ → Processor → List ℕ
frame params back p = (p.esp - 4) ∷ back ∷ loaded params p

before_trap-On :
    (number params back : ℕ) (p : Processor)
    → 24 ≤ p.esp
    → let t = before_trap number params back p in
      On t.words t.ebp (frame params back p)
      × (t.ebp + 4 * length (frame params back p) ≡ p.esp + 4)
unfolding before_trap load_params push push_all
before_trap-On number zero back p room = (
  push_all-On (p.ebp ∷ p.ecx ∷ p.edx ∷ back ∷ (p.esp - 4) ∷ []) (p.words p.esp ∷ []) p (omega arith)
      (refl, tt),
  omega arith,
)
before_trap-On number (suc zero) back p room = (
  push_all-On (p.ebp ∷ p.ecx ∷ p.edx ∷ p.ebx ∷ back ∷ (p.esp - 4) ∷ []) (p.words p.esp ∷ []) p
      (omega arith) (refl, tt),
  omega arith,
)
before_trap-On number (suc (suc n)) back p room = (
  push_all-On (p.ebp ∷ p.ecx ∷ p.edx ∷ p.ebx ∷ back ∷ (p.esp - 4) ∷ []) (p.words p.esp ∷ []) p
      (omega arith) (refl, tt),
  omega arith,
)

-- The word of `errno` is none of those from `a` on.
abbrev pub Outside : ℕ → ℕ → ℕ → Type 0
Outside errno a n = (errno < a) ⊎ (a + 4 * n ≤ errno)

error_words-same :
    (tail : Tail) (errno eax b : ℕ) (words : ℕ → ℕ)
    → b ≢ errno
    → error_words tail errno eax words b ≡ words b
unfolding error_words
error_words-same negative errno eax b words ne = elim (Bool-cases (ltb eax (2 ^ 31))) [
  | inl fine ↦ rw fine refl
  | inr failed ↦ rw failed (update_ne words errno _ ne)
]
error_words-same enomem errno eax b words ne = elim (Bool-cases (eax == 2 ^ 32 - 1)) [
  | inl failed ↦ rw failed (update_ne words errno 12 ne)
  | inr fine ↦ rw fine refl
]
error_words-same no_lines errno eax b words ne = refl

store_error-On :
    (tail : Tail) (errno a : ℕ) (ws : List ℕ) (q : Processor)
    → Outside errno a (length ws)
    → On q.words a ws
    → On (store_error tail errno q).words a ws
unfolding store_error
store_error-On tail errno a ws q outside on =
    On-same q.words (error_words tail errno q.eax q.words) a ws
      (λ b le lt.
        error_words-same tail errno q.eax b q.words
          (elim outside [ inl below ↦ omega arith | inr above ↦ omega arith ]))
      on

-- What the lines on errors leave of `eax` and `errno`.
unfoldable pub checked : Tail → ℕ → ℕ → ℕ × ℕ
unfolding check_error check_sbrk
checked negative eax errno = check_error eax errno
checked enomem eax errno = check_sbrk eax errno
checked no_lines eax errno = (eax, errno)

store_error-checked :
    (tail : Tail) (errno : ℕ) (q : Processor)
    → ((store_error tail errno q).eax ≡ (checked tail q.eax (q.words errno)).0)
      × ((store_error tail errno q).words errno ≡ (checked tail q.eax (q.words errno)).1)
unfolding store_error checked check_error check_sbrk error_words error_eax
store_error-checked negative errno q = elim (Bool-cases (ltb q.eax (2 ^ 31))) [
  | inl fine ↦ rw fine (refl, refl)
  | inr failed ↦ rw failed (refl, update_self q.words errno _)
]
store_error-checked enomem errno q = elim (Bool-cases (q.eax == 2 ^ 32 - 1)) [
  | inl failed ↦ rw failed (refl, update_self q.words errno 12)
  | inr fine ↦ rw fine (refl, refl)
]
store_error-checked no_lines errno q = (refl, refl)

-- The caller finds its registers, and in `eax` and `errno` what the lines on errors make of `v`.
pub record Called (p : Processor) (tail : Tail) (errno v old : ℕ) (q : Processor) : Type 0 where
  pub code : q.eip ≡ p.words p.esp
  pub stack : (q.esp ≡ p.esp + 4) × (q.ebp ≡ p.ebp)
  pub saved :
      (q.ebx ≡ p.ebx) × (q.ecx ≡ p.ecx) × (q.edx ≡ p.edx) × (q.esi ≡ p.esi) × (q.edi ≡ p.edi)
  pub result : (q.eax ≡ (checked tail v old).0) × (q.words errno ≡ (checked tail v old).1)

behind_trap-Called :
    (params back : ℕ) (tail : Tail) (errno a : ℕ) (p q : Processor)
    → On q.words a (frame params back p)
    → q.esp ≡ a
    → a + 4 * length (frame params back p) ≡ p.esp + 4
    → Outside errno a (length (frame params back p))
    → (q.esi ≡ p.esi) × (q.edi ≡ p.edi)
    → (params ≡ 0 → q.ebx ≡ p.ebx)
    → Called p tail errno q.eax (q.words errno) (behind_trap params tail errno q)
unfolding behind_trap restore_params store_error
behind_trap-Called zero back tail errno a p q on start end outside index b = record {
  code = on_stack 5 (q.esp + 4 + 4 + 4 + 4 + 4 + 4 * 0) (p.words p.esp) (omega (arith, start)) refl;
  stack = (
    omega (arith, start, end),
    on_stack 4 (q.esp + 4 + 4 + 4 + 4 + 4 * 0) p.ebp (omega (arith, start)) refl,
  );
  saved = (
    b refl,
    On-read q.words a 3 (q.esp + 4 + 4 + 4 + 4 * 0) p.ecx (frame 0 back p) on (omega (arith, start))
        refl,
    On-read q.words a 2 (q.esp + 4 + 4 + 4 * 0) p.edx (frame 0 back p) on (omega (arith, start))
        refl,
    index.0,
    index.1,
  );
  result = store_error-checked tail errno q;
}
  where
    on_stack :
        (i b w : ℕ)
        → b ≡ a + 4 * i
        → get_elem? (frame 0 back p) i ≡ some w
        → (store_error tail errno q).words b ≡ w
    on_stack i b w place e =
        On-read (store_error tail errno q).words a i b w (frame 0 back p)
          (store_error-On tail errno a (frame 0 back p) q outside on) place e
behind_trap-Called (suc n) back tail errno a p q on start end outside index b = record {
  code =
      on_stack 6 (q.esp + 4 + 4 + 4 + 4 + 4 + 4 + 4 * 0) (p.words p.esp) (omega (arith, start))
        refl;
  stack = (
    omega (arith, start, end),
    on_stack 5 (q.esp + 4 + 4 + 4 + 4 + 4 + 4 * 0) p.ebp (omega (arith, start)) refl,
  );
  saved = (
    On-read q.words a 2 (q.esp + 4 + 4 + 4 * 0) p.ebx (frame 1 back p) on (omega (arith, start))
        refl,
    On-read q.words a 4 (q.esp + 4 + 4 + 4 + 4 + 4 * 0) p.ecx (frame 1 back p) on
        (omega (arith, start)) refl,
    On-read q.words a 3 (q.esp + 4 + 4 + 4 + 4 * 0) p.edx (frame 1 back p) on (omega (arith, start))
        refl,
    index.0,
    index.1,
  );
  result = store_error-checked tail errno q;
}
  where
    on_stack :
        (i b w : ℕ)
        → b ≡ a + 4 * i
        → get_elem? (frame 1 back p) i ≡ some w
        → (store_error tail errno q).words b ≡ w
    on_stack i b w place e =
        On-read (store_error tail errno q).words a i b w (frame 1 back p)
          (store_error-On tail errno a (frame 1 back p) q outside on) place e

before_trap-same :
    (number params back : ℕ) (p : Processor)
    → let t = before_trap number params back p in
      (t.esi ≡ p.esi) × (t.edi ≡ p.edi) × (params ≡ 0 → t.ebx ≡ p.ebx)
unfolding before_trap load_params push
before_trap-same number zero back p = (refl, refl, λ e. refl)
before_trap-same number (suc zero) back p = (refl, refl, λ e. absurd (omega (arith, e)))
before_trap-same number (suc (suc n)) back p = (refl, refl, λ e. absurd (omega (arith, e)))

-- The kernel returns to the label of the wrapper, and the wrapper to its caller.
abbrev pub Returns : ℕ → ℕ → ℕ → Tail → ℕ → (Processor → Processor) → Processor → Type 0
Returns number params back tail errno body p =
    let t = sysenter (before_trap number params back p) in
    let q = sysenter_handler body t in
    (q.eip ≡ back)
    × Called p tail errno (body (in_kernel t)).eax (q.words errno)
        (wrapper number params back tail errno body p)

-- Once the registers of sysenter are set and the kernel's stack has room below the user's, and if the
-- code of the kernel keeps its stack and the words that the wrapper has pushed, then the kernel
-- returns to the label of the wrapper, and the wrapper to its caller, with the caller's registers and
-- stack as they were, and in `eax` and `errno` what the wrapper's lines on errors make of the
-- kernel's result: a negative one an error, in most; a -1 an ENOMEM, in `sbrk`; nothing, in `exit`.
pub wrapper-Called :
    (number params back : ℕ) (tail : Tail) (errno : ℕ) (body : Processor → Processor)
    (p : Processor)
    → 24 ≤ p.esp
    → Ready (before_trap number params back p)
    → Leaves body
        (before_trap number params back p).ebp
        (length (frame params back p))
        (in_kernel (sysenter (before_trap number params back p)))
    → Outside errno (before_trap number params back p).ebp (length (frame params back p))
    → Returns number params back tail errno body p
unfolding wrapper
wrapper-Called number params back tail errno body p room ready leaves outside =
    let t = before_trap number params back p in
    let (on, end) = before_trap-On number params back p room in
    let kept = sysenter_handler-Kept body t ready (p.esp - 4) back (loaded params p) on leaves in
    let (esi, edi, ebx) = before_trap-same number params back p in
    let q = sysenter_handler body (sysenter t) in
    (
      kept.code.0,
      subst (λ v. Called p tail errno v (q.words errno) (behind_trap params tail errno q)) kept.eax
          (behind_trap-Called params back tail errno t.ebp p q kept.on kept.stack.0 end outside
            (kept.saved.1 ∙ esi, kept.saved.2 ∙ edi) (λ e. kept.saved.0 ∙ ebx e)),
    )

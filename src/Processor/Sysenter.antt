-- ===== src/Processor/Sysenter.antt =====
-- The way into the kernel by sysenter: `syscall_handler_sysenter` of zeOS/entry.S, and the functions
-- of zeOS/wrapper.S that use it.
pub mod Fin
pub mod Kept
pub mod Calls
use so2_soa_fib.Common.{
  ℕ, zero, suc, ◌+◌, ◌-◌, ◌*◌, ◌/◌, ◌%◌, ◌^◌, List, [], ◌∷◌, ltb, ◌==◌, if◌then◌else◌, update,
}
use so2_soa_fib.Segments.{user_ds, user_cs}
use so2_soa_fib.Processor.{Processor, push, top, cli, sti}
use so2_soa_fib.Processor.Entry.{push_all, save_all, restore_all}

-- `sysenter` and `sysexit`: the segments stand behind the one in MSR 0x174.
unfoldable pub sysenter : Processor → Processor
unfolding cli
sysenter p = record (cli p) {
  cs = p.msr 0x174;
  ss = p.msr 0x174 + 8;
  esp = p.msr 0x175;
  eip = p.msr 0x176;
}

unfoldable pub sysexit : Processor → Processor
sysexit p = record p {
  cs = p.msr 0x174 / 4 * 4 + 19;
  ss = p.msr 0x174 / 4 * 4 + 27;
  esp = p.ecx;
  eip = p.edx;
}

-- The end of the handler: the result goes to the word that is restored to `eax`.
unfoldable pub sysenter_fin : Processor → Processor
unfolding restore_all sti sysexit
sysenter_fin p =
    let p = restore_all (record p { words = update p.words (p.esp + 0x18) p.eax }) in
    sysexit (sti (record p { edx = top p 0; ecx = top p 3 }))

-- A return context is made up, as for an interrupt.
unfoldable pub sysenter_handler : (Processor → Processor) → Processor → Processor
unfolding push_all save_all sysenter_fin
sysenter_handler body p =
    let p = push_all (user_ds ∷ p.ebp ∷ p.e_flags ∷ user_cs ∷ []) p in
    sysenter_fin (body (save_all (push_all (p.words (p.ebp + 4) ∷ []) p)))

-- The parameters that a wrapper loads: none, `ebx`, or `ebx` and `ecx`.
unfoldable pub load_params : ℕ → Processor → Processor
unfolding push
load_params zero p = p
load_params (suc zero) p = let p = push p.ebx p in record p { ebx = p.words (p.ebp + 8) }
load_params (suc (suc n)) p =
    let p = push p.ebx p in record p { ebx = p.words (p.ebp + 8); ecx = p.words (p.ebp + 12) }

-- A wrapper up to the trap: its `number`, how many parameters it loads, and where its code goes on.
unfoldable pub before_trap : ℕ → ℕ → ℕ → Processor → Processor
unfolding push load_params
before_trap number params back p =
    let p = push p.ebp p in
    let p = record p { ebp = p.esp; eax = number } in
    let p = load_params params (push p.edx (push p.ecx p)) in
    let p = push p.ebp (push back p) in record p { ebp = p.esp }

-- `popl`
abbrev pub popped : Processor → Processor
popped p = record p { esp = p.esp + 4 }

unfoldable pub restore_params : ℕ → Processor → Processor
restore_params zero p = p
restore_params (suc n) p = record (popped p) { ebx = top p 0 }

-- The lines on errors of a wrapper: those of most, which make a negative `eax` an error; those of
-- `sbrk`, which make a -1 an ENOMEM; and none, in `exit`.
pub data Tail : Type 0 where
  negative enomem no_lines : Tail

unfoldable pub error_eax : Tail → ℕ → ℕ
error_eax negative eax = if ltb eax (2 ^ 31) then eax else 2 ^ 32 - 1
error_eax enomem eax = eax
error_eax no_lines eax = eax

unfoldable pub error_words : Tail → ℕ → ℕ → (ℕ → ℕ) → ℕ → ℕ
error_words negative errno eax words =
    if ltb eax (2 ^ 31) then words else update words errno ((2 ^ 32 - eax) % 2 ^ 32)
error_words enomem errno eax words = if eax == 2 ^ 32 - 1 then update words errno 12 else words
error_words no_lines errno eax words = words

-- They run with `errno` at the given address.
unfoldable pub store_error : Tail → ℕ → Processor → Processor
store_error tail errno p = record p {
  eax = error_eax tail p.eax;
  words = error_words tail errno p.eax p.words;
}

unfoldable pub behind_trap : ℕ → Tail → ℕ → Processor → Processor
unfolding restore_params store_error
behind_trap params tail errno p =
    let p = record (popped p) { ebp = top p 0 } in
    let p = restore_params params (popped p) in
    let p = record (popped p) { edx = top p 0 } in
    let p = store_error tail errno (record (popped p) { ecx = top p 0 }) in
    let p = record (popped p) { ebp = top p 0 } in record (popped p) { eip = top p 0 }

-- A call of a wrapper, and what the kernel does in it.
unfoldable pub wrapper : ℕ → ℕ → ℕ → Tail → ℕ → (Processor → Processor) → Processor → Processor
unfolding before_trap behind_trap sysenter sysenter_handler
wrapper number params back tail errno body p =
    behind_trap params tail errno
      (sysenter_handler body (sysenter (before_trap number params back p)))

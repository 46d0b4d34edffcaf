-- ===== src/Machine.antt =====
-- How interrupts and system calls enter the kernel: the handlers of zeOS/entry.S, the table of
-- zeOS/sys_call_table.S, and `clock_routine` of zeOS/interrupt.c. `none` is a fault, a page fault on a
-- pointer of a program too. The function
-- `zeos_show_clock`, of a library without source, is an argument.
pub mod Invariant
pub mod Calls
pub mod Tasks
pub mod Safety
pub mod Answer
mod Tests
use so2_soa_fib.Common.{
  ℕ, Bool, true, ◌+◌, ◌-◌, ◌^◌, ◌≡◌, Option, none, some, List, [], ◌∷◌, ◌++◌, ◌>>=◌, ltb,
  if◌then◌else◌, get_elem?, replicate, ℤ, pos, negsuc, neg, is_neg,
}
use so2_soa_fib.Screen.{Screen}
use so2_soa_fib.Utils.{Memory}
use so2_soa_fib.Keyboard.{keyboard_routine}
use so2_soa_fib.Kernel.{Kernel, user_to_sys, sys_to_user_ready}
use so2_soa_fib.Sched.{schedule}
use so2_soa_fib.Fps.{schedule_fps, sys_put_screen, sys_set_fps}
use so2_soa_fib.Syscalls.{
  sys_write, sys_get_key, sys_fflush, sys_getpid, sys_gettime, sys_get_stats,
}
use so2_soa_fib.Process.{sys_sbrk, sys_exit}
use so2_soa_fib.Fork.{sys_fork}
use so2_soa_fib.Pointers.{
  write_reaches, get_key_reaches, put_screen_reaches, get_stats_reaches, schedule_fps_reaches,
}

unfoldable pub clock_routine : (Screen → Screen) → Kernel → Option Kernel
unfolding schedule_fps_reaches
clock_routine show_clock k =
    let k' = record k { screen = show_clock k.screen; zeos_ticks = k.zeos_ticks + 1 } in
    if schedule_fps_reaches k' then schedule (schedule_fps k') else none

-- The handlers book the time before and after the routine; after a switch it is the next task's.
unfoldable pub clock_handler : (Screen → Screen) → Kernel → Option Kernel
clock_handler show_clock k = do
  k ← clock_routine show_clock (user_to_sys k)
  some (sys_to_user_ready k)

-- `value` is the byte at the port of the keyboard.
unfoldable pub keyboard_handler : ℕ → Kernel → Option Kernel
keyboard_handler value k = do
  let k = user_to_sys k
  b ← keyboard_routine value k.keyboard_buffer
  some (sys_to_user_ready (record k { keyboard_buffer = b }))

pub data Handler : Type 0 where
  ni_syscall exit fork write gettime get_key put_screen set_fps fflush sbrk getpid get_stats :
      Handler

-- The table in the order of its numbers, 0 to 35.
abbrev pub sys_call_table : List Handler
sys_call_table =
    ni_syscall ∷ exit ∷ fork ∷ ni_syscall ∷ write ∷ ni_syscall ∷ ni_syscall ∷ ni_syscall
    ∷ ni_syscall ∷ ni_syscall ∷ gettime ∷ ni_syscall ∷ ni_syscall ∷ ni_syscall ∷ ni_syscall
    ∷ get_key ∷ put_screen ∷ set_fps ∷ fflush ∷ sbrk ∷ getpid ∷ ni_syscall ∷ ni_syscall ∷ ni_syscall
    ∷ ni_syscall ∷ ni_syscall ∷ ni_syscall ∷ ni_syscall ∷ ni_syscall ∷ ni_syscall ∷ ni_syscall
    ∷ ni_syscall ∷ ni_syscall ∷ ni_syscall ∷ ni_syscall ∷ get_stats ∷ []

abbrev pub max_syscall : ℕ
max_syscall = 36

-- The arguments, in `ebx`, `ecx` and `edx`, and a register read as an `int`.
pub record Args : Type 0 where
  pub ebx : ℕ
  pub ecx : ℕ
  pub edx : ℕ

abbrev pub to_int : ℕ → ℤ
to_int w = if ltb w (2 ^ 31) then pos w else negsuc (2 ^ 32 - w - 1)

-- `sys_exit` does not return to its caller.
pub data Reply : Type 0 where
  value : ℤ → Reply
  left : Reply

abbrev returning : ℤ × Kernel → Option (Reply × Kernel)
returning (r, k) = some (value r, k)

-- The handlers, with what they do behind pointers that they can use.
unfoldable pub serve : Handler → Args → Kernel → Option (Reply × Kernel)
serve ni_syscall a k = some (value (neg 38), k)
serve exit a k = do k ← sys_exit k; some (left, k)
serve fork a k = do rk ← sys_fork k; returning rk
serve write a k = returning (sys_write (to_int a.ebx) a.ecx (to_int a.edx) k)
serve gettime a k = some (value (pos (sys_gettime k)), k)
serve get_key a k = returning (sys_get_key a.ebx k)
serve put_screen a k = returning (sys_put_screen a.ebx k)
serve set_fps a k = returning (sys_set_fps (to_int a.ebx) k)
serve fflush a k = returning (sys_fflush k)
serve sbrk a k = returning (sys_sbrk (to_int a.ebx) k)
serve getpid a k = some (value (sys_getpid k), k)
serve get_stats a k = returning (sys_get_stats (to_int a.ebx) a.ecx k)

-- Whether the bytes that a handler touches behind its pointers are mapped, and none that it writes is
-- the kernel's.
unfoldable pub reaches : Handler → Args → Kernel → Bool
unfolding write_reaches get_key_reaches put_screen_reaches get_stats_reaches
reaches ni_syscall a k = true
reaches exit a k = true
reaches fork a k = true
reaches write a k = write_reaches (to_int a.ebx) a.ecx (to_int a.edx) k
reaches gettime a k = true
reaches get_key a k = get_key_reaches a.ebx k
reaches put_screen a k = put_screen_reaches a.ebx k
reaches set_fps a k = true
reaches fflush a k = true
reaches sbrk a k = true
reaches getpid a k = true
reaches get_stats a k = get_stats_reaches (to_int a.ebx) a.ecx k

-- A page fault does not return. `sys_get_key` has no `access_ok`: with an address of the kernel it
-- writes over the kernel's data, which is outside this model.
unfoldable pub handle : Handler → Args → Kernel → Option (Reply × Kernel)
unfolding serve reaches
handle h a k = if reaches h a k then serve h a k else none

-- The call of the handler, between the bookings of time.
unfoldable pub dispatch : ℕ → Args → Kernel → Option (Reply × Kernel)
unfolding handle
dispatch n a k = do
  h ← get_elem? sys_call_table n
  rk ← handle h a (user_to_sys k)
  some (rk.0, sys_to_user_ready rk.1)

-- `system_call_handler` and `syscall_handler_sysenter`: numbers below 0 and above MAX_SYSCALL are
-- refused with -ENOSYS.
unfoldable pub system_call : ℤ → Args → Kernel → Option (Reply × Kernel)
unfolding dispatch
system_call (pos n) a k = if ltb max_syscall n then some (value (neg 38), k) else dispatch n a k
system_call (negsuc n) a k = some (value (neg 38), k)

-- The same of the pointers of a system call.
unfoldable pub listed_reaches : Option Handler → Args → Kernel → Bool
unfolding reaches
listed_reaches none a k = true
listed_reaches (some h) a k = reaches h a k

unfoldable pub call_reaches : ℤ → Args → Kernel → Bool
unfolding listed_reaches
call_reaches (pos n) a k = listed_reaches (get_elem? sys_call_table n) a (user_to_sys k)
call_reaches (negsuc n) a k = true

-- One entry into the kernel and the return from it, or what the programs write into memory between
-- two entries, and the states that are reached by such steps.
pub data Step (show_clock : Screen → Screen) (k k' : Kernel) : Type 0 where
  clock : clock_handler show_clock k ≡ some k' → Step show_clock k k'
  keyboard : (value : ℕ) → keyboard_handler value k ≡ some k' → Step show_clock k k'
  call :
      (eax : ℤ) (a : Args) (r : Reply) → system_call eax a k ≡ some (r, k') → Step show_clock k k'
  program : (ram : Memory) → k' ≡ record k { ram = ram } → Step show_clock k k'

pub data Reach (show_clock : Screen → Screen) (k : Kernel) : Kernel → Type 0 where
  here : Reach show_clock k k
  next : {j j' : Kernel} → Reach show_clock k j → Step show_clock j j' → Reach show_clock k j'

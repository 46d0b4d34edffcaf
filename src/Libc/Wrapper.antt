-- ===== src/Libc/Wrapper.antt =====
-- zeOS/wrapper.S: the functions of the user programs that call the system. A value returned is the
-- register `eax`, a word of 32 bits, and so is `errno`.
pub mod Results
pub mod Reports
mod Tests
use so2_soa_fib.Common.{
  ℕ, zero, suc, ◌-◌, ◌*◌, ◌%◌, ◌^◌, ◌≡◌, Option, none, some, ◌>>=◌, ltb, ◌==◌, if◌then◌else◌, ℤ,
  pos, to_word,
}
use so2_soa_fib.Kernel.{Kernel}
use so2_soa_fib.Machine.{Args, Reply, value, left, system_call}

-- The functions, with the words that they are given. `fflush` loads two words of its caller's stack
-- all the same.
pub data Call : Type 0 where
  write : ℕ → ℕ → ℕ → Call
  gettime getpid fork exit : Call
  get_stats : ℕ → ℕ → Call
  fflush : ℕ → ℕ → Call
  get_key : ℕ → Call
  put_screen : ℕ → Call
  set_fps : ℕ → Call
  sbrk : ℕ → Call

-- The number that is put in `eax`.
unfoldable pub number : Call → ℕ
number (write fd buffer size) = 4
number gettime = 10
number getpid = 20
number fork = 2
number exit = 1
number (get_stats pid st) = 35
number (fflush a b) = 18
number (get_key c) = 15
number (put_screen s) = 16
number (set_fps fps) = 17
number (sbrk n) = 19

-- The registers at the trap, from those of the caller.
unfoldable pub registers : Call → Args → Args
registers (write fd buffer size) r = record { ebx = fd; ecx = buffer; edx = size }
registers gettime r = r
registers getpid r = r
registers fork r = r
registers exit r = r
registers (get_stats pid st) r = record r { ebx = pid; ecx = st }
registers (fflush a b) r = record r { ebx = a; ecx = b }
registers (get_key c) r = record r { ebx = c }
registers (put_screen s) r = record r { ebx = s }
registers (set_fps fps) r = record r { ebx = fps }
registers (sbrk n) r = record r { ebx = n }

-- The lines after the trap: a negative `eax` is an error, which goes to `errno` as a positive
-- number; the wrapper of `exit` has no such lines, and that of `sbrk` tests for -1 alone.
unfoldable pub check_error : ℕ → ℕ → ℕ × ℕ
check_error eax errno =
    if ltb eax (2 ^ 31) then (eax, errno) else (2 ^ 32 - 1, (2 ^ 32 - eax) % 2 ^ 32)

unfoldable pub check_sbrk : ℕ → ℕ → ℕ × ℕ
check_sbrk eax errno = if eax == 2 ^ 32 - 1 then (eax, 12) else (eax, errno)

unfoldable pub after_trap : Call → ℕ → ℕ → ℕ × ℕ
unfolding check_error check_sbrk
after_trap exit eax errno = (eax, errno)
after_trap (sbrk n) eax errno = check_sbrk eax errno
after_trap c eax errno = check_error eax errno

-- A function returns, with the value of `errno` by then, or its process is gone.
pub data Outcome : Type 0 where
  back : (ret errno : ℕ) → Kernel → Outcome
  gone : Kernel → Outcome

unfoldable pub outcome : Call → ℕ → Reply × Kernel → Outcome
unfolding after_trap
outcome c errno (value r, k) =
    let (ret, errno') = after_trap c (to_word r) errno in back ret errno' k
outcome c errno (left, k) = gone k

unfoldable pub call : Call → Args → ℕ → Kernel → Option Outcome
unfolding number registers outcome
call c r errno k = do rk ← system_call (pos (number c)) (registers c r) k; some (outcome c errno rk)

-- zeOS/libc.c: 25 * 80 bytes more, or less.
unfoldable pub get_scenario : Args → ℕ → Kernel → Option Outcome
unfolding call
get_scenario r errno k = call (sbrk (25 * 80)) r errno k

unfoldable pub del_scenario : Args → ℕ → Kernel → Option Outcome
unfolding call
del_scenario r errno k = call (sbrk (2 ^ 32 - 25 * 80)) r errno k

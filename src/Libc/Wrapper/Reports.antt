-- ===== src/Libc/Wrapper/Reports.antt =====
-- What the functions of zeOS/wrapper.S report to the program.
use so2_soa_fib.Common.{ℕ, ◌-◌, ◌^◌, ◌<◌, ◌≡◌, ◌≢◌, some, ◌⊎◌, ℤ, pos, neg, to_word}
use so2_soa_fib.Kernel.{Kernel, current}
use so2_soa_fib.Machine.{Args, value, system_call}
use so2_soa_fib.Libc.Errno.{Named, Explained}
use so2_soa_fib.Libc.Wrapper.{Call, fork, exit, sbrk, number, registers, back, call}

-- The clock and the identifier of the running task, as numbers of an `int`.
pub record InRange (k : Kernel) : Type 0 where
  pub ticks : k.zeos_ticks < 2 ^ 31
  pub pid : ℕ
  pub is_pid : (current k).pid ≡ pos pid
  pub pid_fits : pid < 2 ^ 31

-- All functions but those of `exit` and `fork`.
abbrev pub Returning : Call → Type 0
Returning c = (c ≢ exit) × (c ≢ fork)

-- The error that the kernel has returned; `sbrk` has one only, ENOMEM.
abbrev pub Blames : Call → ℤ → ℕ → Type 0
Blames (sbrk n) r e = e ≡ 12
Blames c r e = r ≡ neg e

-- What the program gets when the kernel has answered `r`: `r`, with its `errno` as before, or -1,
-- with an `errno` that has a name and a message.
abbrev pub Tells : Call → ℤ → ℕ → ℕ → ℕ → Type 0
Tells c r errno ret errno' =
    ((ret ≡ to_word r) × (ret ≢ 2 ^ 32 - 1) × (errno' ≡ errno))
    ⊎ ((ret ≡ 2 ^ 32 - 1) × Blames c r errno' × Named errno' × Explained errno')

abbrev pub Reports : Call → Args → ℕ → Kernel → Type 0
Reports c regs errno k =
    (r : ℤ) × (k' : Kernel) × (ret : ℕ) × (errno' : ℕ) × (system_call (pos (number c))
        (registers c regs) k
      ≡ some (value r, k'))
    × (call c regs errno k ≡ some (back ret errno' k'))
    × Tells c r errno ret errno'

-- What the lines after the trap leave of a result `r`.
abbrev Checked : ℤ → ℕ → ℕ × ℕ → Type 0
Checked r errno (ret, errno') =
    ((ret ≡ to_word r) × (ret ≢ 2 ^ 32 - 1) × (errno' ≡ errno))
    ⊎ ((ret ≡ 2 ^ 32 - 1) × (r ≡ neg errno') × Named errno' × Explained errno')

-- ===== src/Libc/Wrapper/Results.antt =====
-- What the handlers of system calls return: a number, or the negative of an error.
use so2_soa_fib.Common.{
  ℕ, zero, suc, ◌+◌, ◌*◌, ◌/◌, ◌%◌, ◌^◌, ◌≤◌, ◌<◌, ◌≡◌, refl, arith, Bool, true, false, not, ◌||◌,
  Option, none, some, ◌⊎◌, inl, inr, ltb, ◌==◌, if◌then◌else◌, ℤ, pos, negsuc, neg, eq_ℤ, is_pos,
  is_neg, Bool-cases,
}
use so2_soa_fib.CircularBuffer.{CircularBuffer, circular_read, circular_empty}
use so2_soa_fib.Kernel.{Kernel, current}
use so2_soa_fib.Fps.{sys_put_screen, sys_set_fps, minus_one}
use so2_soa_fib.Utils.{access_ok, verify_write}
use so2_soa_fib.Syscalls.{
  check_fd, write_chunks, sys_write, sys_get_key, sys_fflush, get_task, stats_of, sys_get_stats,
}
use so2_soa_fib.Libc.Errno.{Named}

-- A number that fits an `int` and is not negative, or an error with a name.
abbrev pub Coded : ℤ → Type 0
Coded r =
    ((n : ℕ) × (r ≡ pos n) × (n < 2 ^ 31))
    ⊎ ((e : ℕ) × (r ≡ negsuc e) × (suc e ≤ 133) × Named (suc e))

pub number-Coded : (n : ℕ) → n < 2 ^ 31 → Coded (pos n)
number-Coded n lt = inl (n, refl, lt)

if-Coded :
    {A : Type 0} (b : Bool) (x y : ℤ × A) → Coded x.0 → Coded y.0 → Coded (if b then x else y).0
if-Coded true x y cx cy = cx
if-Coded false x y cx cy = cy

zero-Coded : Coded (pos 0)
zero-Coded = number-Coded 0 (omega arith)

one-Coded : Coded (pos 1)
one-Coded = number-Coded 1 (omega arith)

pub enosys-Coded : Coded (neg 38)
enosys-Coded = inr (37, refl, omega arith, (37, _, refl))

efault-Coded : Coded (neg 14)
efault-Coded = inr (13, refl, omega arith, (13, _, refl))

pub sys_put_screen-Coded : (s : ℕ) (k : Kernel) → Coded (sys_put_screen s k).0
unfolding sys_put_screen
sys_put_screen-Coded s k = if-Coded (s == 0) _ _ zero-Coded (
    if-Coded (not (eq_ℤ k.spf_pid (current k).pid)) _ _ one-Coded
      (if-Coded (is_pos k.spf_sem || eq_ℤ k.spf_ticks minus_one) _ _ one-Coded zero-Coded))

pub sys_set_fps-Coded : (fps : ℤ) (k : Kernel) → Coded (sys_set_fps fps k).0
unfolding sys_set_fps
sys_set_fps-Coded fps k = if-Coded (eq_ℤ fps minus_one) _ _ one-Coded one-Coded

pub sys_fflush-Coded : (k : Kernel) → Coded (sys_fflush k).0
unfolding sys_fflush
sys_fflush-Coded k = one-Coded

-- ENOINP, where the ring is empty.
circular_read-Coded : (b : CircularBuffer) → Coded (circular_read b).ret
unfolding circular_read
circular_read-Coded b = elim (Bool-cases (circular_empty b)) [
  | inl empty ↦ rw empty (inr (54, refl, omega arith, (54, _, refl)))
  | inr filled ↦ rw filled one-Coded
]

pub sys_get_key-Coded : (c : ℕ) (k : Kernel) → Coded (sys_get_key c k).0
unfolding sys_get_key
sys_get_key-Coded c k = if-Coded (c == 0) _ _ zero-Coded (circular_read-Coded k.keyboard_buffer)

stats_of-Coded : (o : Option ℕ) (st : ℕ) (k : Kernel) → Coded (stats_of o st k).0
unfolding stats_of
stats_of-Coded none st k = inr (2, refl, omega arith, (2, _, refl))
stats_of-Coded (some i) st k = zero-Coded

pub sys_get_stats-Coded : (pid : ℤ) (st : ℕ) (k : Kernel) → Coded (sys_get_stats pid st k).0
unfolding sys_get_stats
sys_get_stats-Coded pid st k = if-Coded (not (access_ok verify_write st 28)) _ _ efault-Coded (
    if-Coded (is_neg pid) _ _ (inr (21, refl, omega arith, (21, _, refl)))
      (stats_of-Coded (get_task pid k) st k))

-- The lines after the loop of `sys_write`.
rest-Coded :
    (i size : ℕ)
    → i ≤ 500 * (size / 500)
    → size < 2 ^ 31
    → Coded (if size % 500 == 0 then pos 0 else pos (i + size % 500))
rest-Coded i size full lt = elim (Bool-cases (size % 500 == 0)) [
  | inl whole ↦ rw whole zero-Coded
  | inr part ↦ rw part (number-Coded (i + size % 500) (omega arith))
]

-- The loop counts what it gives to the console, at most the bytes of full chunks.
write_chunks-Coded :
    (rounds i buffer size : ℕ) (k : Kernel)
    → size / 500 ≤ i + rounds
    → i ≤ 500 * (size / 500)
    → size < 2 ^ 31
    → Coded (write_chunks (suc rounds) i (size / 500) i buffer size k).0
unfolding write_chunks
write_chunks-Coded zero i buffer size k enough full lt =
    let over : ltb i (size / 500) ≡ false = ground arith in rw over (rest-Coded i size full lt)
write_chunks-Coded (suc rounds) i buffer size k enough full lt =
    elim (Bool-cases (ltb i (size / 500))) [
      | inl more ↦
          rw more
            (write_chunks-Coded rounds (i + 500) buffer size _ (omega arith) (ground arith) lt)
      | inr over ↦ rw over (rest-Coded i size full lt)
    ]

check_fd-Coded : (fd : ℤ) → Coded (check_fd fd 1)
unfolding check_fd
check_fd-Coded fd = elim (Bool-cases (eq_ℤ fd (pos 1))) [
  | inl console_fd ↦ rw console_fd zero-Coded
  | inr other ↦ rw other (inr (8, refl, omega arith, (8, _, refl)))
]

pub sys_write-Coded :
    (fd : ℤ) (buffer : ℕ) (size : ℤ) (k : Kernel)
    → ((n : ℕ) → size ≡ pos n → n < 2 ^ 31)
    → Coded (sys_write fd buffer size k).0
unfolding sys_write
sys_write-Coded fd buffer (pos size) k fits =
    if-Coded (is_pos (check_fd fd 1)) _ _ (check_fd-Coded fd) (
      if-Coded (buffer == 0) _ _ efault-Coded (
        write_chunks-Coded (size / 500) 0 buffer size k (omega arith) (omega arith)
          (fits size refl)))
sys_write-Coded fd buffer (negsuc size) k fits =
    if-Coded (is_pos (check_fd fd 1)) _ _ (check_fd-Coded fd)
      (if-Coded (buffer == 0) _ _ efault-Coded (inr (32, refl, omega arith, (32, _, refl))))

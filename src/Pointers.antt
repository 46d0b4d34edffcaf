-- ===== src/Pointers.antt =====
-- Which bytes of the caller's memory the system calls of zeOS/sys.c and `schedule_fps` of
-- zeOS/sched.c touch behind a pointer, and whether the processor lets them: an address is mapped
-- when its entries in the directory and the table are present, and else it faults. A write into the
-- frames below 256 would change the kernel itself.
use so2_soa_fib.Common.{
  ℕ, zero, suc, ◌+◌, ◌*◌, ◌/◌, ◌%◌, Bool, true, not, ◌&&◌, ◌||◌, Option, none, some, ◌==◌, ltb,
  if◌then◌else◌, ℤ, pos, negsuc, dec, eq_ℤ, is_neg, is_pos, add_ℕ,
}
use so2_soa_fib.PageTable.{present, get_frame}
use so2_soa_fib.Frames.{num_pag_kernel}
use so2_soa_fib.Kernel.{Kernel, current, cr3_table}
use so2_soa_fib.Utils.{verify_write, access_ok}
use so2_soa_fib.Fps.{minus_one}
use so2_soa_fib.Syscalls.{check_fd, get_task}

-- The directory has the entry of one table, of 1024 pages.
unfoldable pub is_mapped : Kernel → ℕ → Bool
is_mapped k a =
    ltb (a / 4096) 1024
    && (present (k.dir_pages k.cr3) == 1)
    && (present (cr3_table k (a / 4096)) == 1)

unfoldable pub is_users : Kernel → ℕ → Bool
unfolding get_frame
is_users k a = not (ltb (get_frame (cr3_table k) (a / 4096)) num_pag_kernel)

-- `n` bytes from the address `a` on can be read; they can be written, and are not the kernel's.
unfoldable pub can_read : ℕ → ℕ → Kernel → Bool
unfolding is_mapped
can_read zero a k = true
can_read (suc n) a k = is_mapped k a && can_read n (a + 1) k

unfoldable pub can_write : ℕ → ℕ → Kernel → Bool
unfolding is_mapped is_users
can_write zero a k = true
can_write (suc n) a k = (is_mapped k a && is_users k a) && can_write n (a + 1) k

-- The bytes of `sys_write`: chunks of 500, and what is left of the size.
unfoldable pub write_reaches : ℤ → ℕ → ℤ → Kernel → Bool
unfolding check_fd can_read
write_reaches fd buffer (pos size) k =
    if is_pos (check_fd fd 1) || (buffer == 0)
    then true
    else can_read (500 * ((size / 500 + 499) / 500) + size % 500) buffer k
write_reaches fd buffer (negsuc size) k = true

-- The byte of `sys_get_key`.
unfoldable pub get_key_reaches : ℕ → Kernel → Bool
unfolding can_write
get_key_reaches c k = if c == 0 then true else can_write 1 c k

-- The screen of `sys_put_screen`, when it is shown.
unfoldable pub put_screen_reaches : ℕ → Kernel → Bool
unfolding can_read
put_screen_reaches s k =
    if s == 0
    then true
    else if not (eq_ℤ k.spf_pid (current k).pid) || is_pos k.spf_sem || eq_ℤ k.spf_ticks minus_one
    then can_read 2000 s k
    else true

-- The statistics of `sys_get_stats`, of a task that is found.
unfoldable pub stats_reach : Option ℕ → ℕ → Kernel → Bool
unfolding can_write
stats_reach none st k = true
stats_reach (some i) st k = can_write 28 st k

unfoldable pub get_stats_reaches : ℤ → ℕ → Kernel → Bool
unfolding stats_reach get_task
get_stats_reaches pid st k =
    if not (access_ok verify_write st 28)
    then true
    else if is_neg pid
    then true
    else stats_reach (get_task pid k) st k

-- The screen kept back that `schedule_fps` shows when the count has run out.
unfoldable pub refill_reaches : Kernel → Bool
unfolding put_screen_reaches
refill_reaches k =
    let k' = record k { spf_ticks = add_ℕ k.spf_ticks 18; spf_sem = k.gfps } in
    put_screen_reaches k.spf_last_screen k'

unfoldable pub schedule_fps_reaches : Kernel → Bool
unfolding refill_reaches
schedule_fps_reaches k =
    if eq_ℤ k.spf_ticks minus_one
    then true
    else (let k' = record k { spf_ticks = dec k.spf_ticks } in
        if not (is_pos k'.spf_ticks) && eq_ℤ k.spf_pid (current k).pid
        then refill_reaches k'
        else true)

-- ===== src/Fps.antt =====
-- The limit on frames per second: `sys_put_screen` and `sys_set_fps` of zeOS/sys.c and
-- `schedule_fps` of zeOS/sched.c. A process asks for a number of frames in each 18 ticks of the
-- clock; what it shows beyond that is kept back, and the last such screen is shown later.
pub mod Limit
pub mod Clock
mod Tests
use so2_soa_fib.Common.{
  ℕ, zero, suc, ◌+◌, Bool, false, not, ◌&&◌, ◌||◌, List, [], ◌∷◌, ◌==◌, if◌then◌else◌, ℤ, pos,
  negsuc, dec, eq_ℤ, is_pos, add_ℕ,
}
use so2_soa_fib.Kernel.{Kernel, current, set_task, user_memory}
use so2_soa_fib.Screen.{Screen, print_screen}
use so2_soa_fib.Utils.{Memory}

-- The 2000 bytes that `copy_from_user` copies for `print_screen`.
unfoldable pub text_at : ℕ → ℕ → Memory → List ℕ
text_at zero a mem = []
text_at (suc n) a mem = mem a ∷ text_at n (a + 1) mem

unfoldable pub show : ℕ → Kernel → Kernel
show s k = record k { screen = print_screen (text_at 2000 s (user_memory k)) k.screen }

abbrev pub minus_one : ℤ
minus_one = negsuc 0

unfoldable pub sys_put_screen : ℕ → Kernel → ℤ × Kernel
unfolding show
sys_put_screen s k =
    if s == 0
    then (pos 0, k)
    else if not (eq_ℤ k.spf_pid (current k).pid)
    then (pos 1, show s k)
    else if is_pos k.spf_sem || eq_ℤ k.spf_ticks minus_one
    then (pos 1, record (show s k) { spf_sem = dec k.spf_sem; spf_last_screen = 0 })
    else (pos 0, record k { spf_last_screen = s })

unfoldable pub set_nice : ℕ → Kernel → Kernel
unfolding set_task
set_nice n k = let t = current k in set_task k.running (record t { nice = n }) k

unfoldable pub sys_set_fps : ℤ → Kernel → ℤ × Kernel
unfolding set_nice
sys_set_fps fps k =
    if eq_ℤ fps minus_one
    then (pos 1, set_nice 1 (record k { spf_pid = minus_one; spf_ticks = minus_one }))
    else (
      pos 1,
      record (set_nice 0 k) {
        spf_pid = (current k).pid;
        gfps = fps;
        spf_ticks = pos 18;
        spf_sem = fps;
      },
    )

-- `schedule_fps` once the count of ticks has run out for the running process.
unfoldable pub refill : Kernel → Kernel
unfolding sys_put_screen
refill k =
    let k' = record k { spf_ticks = add_ℕ k.spf_ticks 18; spf_sem = k.gfps } in
    if k.spf_last_screen == 0 then k' else (sys_put_screen k.spf_last_screen k').1

unfoldable pub schedule_fps : Kernel → Kernel
unfolding refill
schedule_fps k =
    if eq_ℤ k.spf_ticks minus_one
    then k
    else (let k' = record k { spf_ticks = dec k.spf_ticks } in
        if not (is_pos k'.spf_ticks) && eq_ℤ k.spf_pid (current k).pid then refill k' else k')

-- What happens to the limit: the running process puts a screen, the clock ticks, or another task
-- runs from then on, in its own address space.
pub data Event : Type 0 where
  put : ℕ → Event
  tick : Event
  run : ℕ → Event

-- One event, and whether a call of `sys_put_screen` says that its screen is shown.
unfoldable pub happen : Event → Kernel → Bool × Kernel
happen (put s) k = let (r, k') = sys_put_screen s k in (is_pos r, k')
happen tick k = (false, schedule_fps k)
happen (run i) k = (false, record k { running = i; cr3 = (k.task i).dir })

-- Of how many screens the calls said so.
unfoldable pub happen_all : List Event → Kernel → ℕ × Kernel
happen_all [] k = (0, k)
happen_all (e ∷ es) k =
    let (shown, k') = happen e k in
    let (n, k'') = happen_all es k' in (if shown then suc n else n, k'')

-- ===== src/Syscalls.antt =====
-- The system calls of zeOS/sys.c on the console, the keyboard and the statistics. A pointer is an
-- address in the space of the running task, 0 for NULL.
pub mod Write
pub mod Stats
mod Tests
use so2_soa_fib.Common.{
  ℕ, zero, suc, ◌+◌, ◌/◌, ◌%◌, ◌^◌, Bool, not, Option, none, some, List, [], ◌∷◌, ◌++◌, ◌==◌, ltb,
  if◌then◌else◌, update, ℤ, pos, neg, eq_ℤ, is_neg, is_pos, to_word,
}
use so2_soa_fib.CircularBuffer.{circular_read, circular_init}
use so2_soa_fib.Kernel.{
  Kernel, Task, TaskStats, current, set_task, nr_tasks, cr3_table, translate, user_memory,
}
use so2_soa_fib.PageTable.{PageTable}
use so2_soa_fib.Screen.{Screen, write_loop}
use so2_soa_fib.Utils.{Memory, verify_write, access_ok}
use so2_soa_fib.Fps.{text_at}

-- EBADF, EACCES, EFAULT, EDOM, EINVAL and ESRCH
unfoldable pub check_fd : ℤ → ℕ → ℤ
check_fd fd permissions =
    if not (eq_ℤ fd (pos 1)) then neg 9 else if not (permissions == 1) then neg 13 else pos 0

-- `copy_from_user` and `sys_write_console` of `n` bytes at `a`.
unfoldable pub console : ℕ → ℕ → Kernel → Kernel
unfolding write_loop text_at
console n a k = record k { screen = write_loop (text_at n a (user_memory k)) k.screen }

-- The loop of `sys_write` on fuel, and the lines after it: chunks of 500 bytes while `i < limit`.
-- `sys_write_console` returns the size that it is given, so no chunk ends the loop.
unfoldable pub write_chunks : ℕ → ℕ → ℕ → ℕ → ℕ → ℕ → Kernel → ℤ × Kernel
write_chunks zero i limit total buffer size k = (neg 1, k)
write_chunks (suc fuel) i limit total buffer size k =
    let rest =
      write_chunks fuel (i + 500) limit (total + 500) buffer size (console 500 (buffer + i) k) in
    if ltb i limit
    then rest
    else (let ret = size % 500 in
        (if ret == 0 then pos 0 else pos (total + ret), console ret (buffer + i) k))

unfoldable pub sys_write : ℤ → ℕ → ℤ → Kernel → ℤ × Kernel
unfolding check_fd write_chunks
sys_write fd buffer (pos size) k =
    if is_pos (check_fd fd 1)
    then (check_fd fd 1, k)
    else if buffer == 0
    then (neg 14, k)
    else write_chunks (suc (size / 500)) 0 (size / 500) 0 buffer size k
sys_write fd buffer size k =
    if is_pos (check_fd fd 1)
    then (check_fd fd 1, k)
    else if buffer == 0
    then (neg 14, k)
    else (neg 33, k)

unfoldable pub set_byte : ℕ → ℕ → Kernel → Kernel
set_byte a c k = record k { ram = update k.ram (translate (cr3_table k) a) c }

-- The call has no test of its pointer but for NULL. It runs in `Machine` for an address that the
-- processor can write and that is not the kernel's.
unfoldable pub sys_get_key : ℕ → Kernel → ℤ × Kernel
unfolding set_byte
sys_get_key c k =
    if c == 0
    then (pos 0, k)
    else (let r = circular_read k.keyboard_buffer in
        (r.ret, set_byte c r.rd (record k { keyboard_buffer = r.after })))

unfoldable pub sys_fflush : Kernel → ℤ × Kernel
sys_fflush k = (pos 1, record k { keyboard_buffer = circular_init k.keyboard_buffer })

unfoldable pub sys_getpid : Kernel → ℤ
sys_getpid k = (current k).pid

unfoldable pub sys_gettime : Kernel → ℕ
sys_gettime k = k.zeos_ticks

-- The loop of `get_task`: the first of the `n` tasks from `i` on with the identifier.
unfoldable pub get_task_loop : ℕ → ℕ → ℤ → Kernel → Option ℕ
get_task_loop zero i pid k = none
get_task_loop (suc n) i pid k =
    let rest = get_task_loop n (suc i) pid k in if eq_ℤ (k.task i).pid pid then some i else rest

unfoldable pub get_task : ℤ → Kernel → Option ℕ
unfolding get_task_loop
get_task pid k = get_task_loop nr_tasks 0 pid k

-- The bytes of an `unsigned long`, low byte first, and of several one behind another.
unfoldable pub word_bytes : ℕ → List ℕ
word_bytes w = w % 256 ∷ w / 256 % 256 ∷ w / 2 ^ 16 % 256 ∷ w / 2 ^ 24 % 256 ∷ []

unfoldable pub words_bytes : List ℕ → List ℕ
unfolding word_bytes
words_bytes [] = []
words_bytes (w ∷ ws) = word_bytes w ++ words_bytes ws

-- `copy_to_user` of a block of the kernel: its bytes are written from the address `a` on.
unfoldable pub store_bytes : PageTable → ℕ → List ℕ → Memory → Memory
store_bytes pt a [] ram = ram
store_bytes pt a (b ∷ bs) ram = store_bytes pt (a + 1) bs (update ram (translate pt a) b)

-- The words of a `struct stats` in the order of its fields.
abbrev pub stats_words : TaskStats → List ℕ
stats_words st =
    st.user_ticks ∷ st.system_ticks ∷ st.blocked_ticks ∷ st.ready_ticks ∷ st.elapsed_total_ticks
    ∷ st.total_trans ∷ st.remaining_ticks ∷ []

-- The task found: its `remaining_ticks` is brought up to date, and its statistics are copied out.
unfoldable pub give_stats : ℕ → ℕ → Kernel → Kernel
unfolding set_task words_bytes store_bytes
give_stats i st k =
    let t = k.task i in
    let es = record t.estat { remaining_ticks = to_word k.quantum_ticks } in
    let ram = store_bytes (cr3_table k) st (words_bytes (stats_words es)) k.ram in
    record (set_task i (record t { estat = es }) k) { ram = ram }

unfoldable pub stats_of : Option ℕ → ℕ → Kernel → ℤ × Kernel
unfolding give_stats
stats_of none st k = (neg 3, k)
stats_of (some i) st k = (pos 0, give_stats i st k)

unfoldable pub sys_get_stats : ℤ → ℕ → Kernel → ℤ × Kernel
unfolding stats_of get_task
sys_get_stats pid st k =
    if not (access_ok verify_write st 28)
    then (neg 14, k)
    else if is_neg pid
    then (neg 22, k)
    else stats_of (get_task pid k) st k

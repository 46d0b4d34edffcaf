-- ===== src/Machine/Tests.antt =====
-- A key, a tick of the clock and two system calls after the start.
use so2_soa_fib.Common.{
  if◌then◌else◌, ◌==◌, ◌≡◌, refl, some, none, ℤ, pos, update, Option, replicate,
}
use so2_soa_fib.Screen.{Screen}
use so2_soa_fib.ListHead.{list_add, list_add_tail, list_del, list_empty, list_first}
use so2_soa_fib.Keyboard.{keyboard_routine}
use so2_soa_fib.Kernel.{Kernel, list_head_to_task_struct, user_to_sys, sys_to_user_ready}
use so2_soa_fib.Kernel.Sample.{sample, mapped}
use so2_soa_fib.Fps.{schedule_fps}
use so2_soa_fib.Sched.{set_links, schedule, needs_sched_rr}
use so2_soa_fib.Boot.{start, init_sched, init_queues, init_idle, init_task1}
use so2_soa_fib.Fork.{sys_fork, fork_frames, copy_pcb, enter_queue, inherit}
use so2_soa_fib.Frames.{reserve, reserve_loop, alloc_frame}
use so2_soa_fib.Process.{num_pag_data_heap, set_user_pages}
use so2_soa_fib.Pointers.{schedule_fps_reaches}
use so2_soa_fib.Machine.{
  Args, value, clock_routine, clock_handler, keyboard_handler, system_call, clock, keyboard, call,
  dispatch, handle, serve, reaches, here, next,
}
use so2_soa_fib.Machine.Invariant.{Orderly}
use so2_soa_fib.Machine.Safety.{main-Reach-Orderly}
use so2_soa_fib.Main.{main, init_mm, move_program}

abbrev still_screen : Screen → Screen
still_screen s = s

abbrev args : Args
args = record { ebx = 0; ecx = 0; edx = 0 }

-- A machine whose memory has a user program of three bytes behind a system of 20.
abbrev machine : Kernel
machine = record sample { ram = λ a. if a == 0x10000 then 20 else if a == 0x10004 then 3 else 0 }

abbrev started : Option Kernel → Kernel
started (some k) = k
started none = machine

abbrev first : Kernel
first = started (main machine)

first_start : main machine ≡ some first
unfolding main start init_sched init_queues list_add update init_idle list_first list_del
    list_head_to_task_struct init_task1
first_start = refl

ticked : (k : Kernel) × (clock_handler still_screen first ≡ some k)
unfolding clock_handler clock_routine schedule_fps_reaches schedule needs_sched_rr schedule_fps
    user_to_sys set_user_pages list_empty main init_mm move_program start init_sched init_queues
    list_add update init_idle list_first list_del list_head_to_task_struct init_task1
ticked = (_, refl)

keyed : (k : Kernel) × (keyboard_handler 30 ticked.0 ≡ some k)
unfolding keyboard_handler keyboard_routine
keyed = (_, refl)

-- A key that is read to the heap.
abbrev key_args : Args
key_args = record { ebx = 0x11c000; ecx = 0; edx = 0 }

abbrev with_key : Kernel
with_key = record mapped {
  keyboard_buffer = record { buffer = replicate 9 b'k'; read = 0; write = 1 };
}

forked : (r : ℤ) × (k : Kernel) × (system_call (pos 2) args keyed.0 ≡ some (value r, k))
unfolding system_call dispatch handle serve reaches sys_fork fork_frames reserve reserve_loop
    num_pag_data_heap copy_pcb set_links alloc_frame enter_queue list_add_tail inherit
    sys_to_user_ready keyed ticked keyboard_handler keyboard_routine clock_handler clock_routine
    schedule needs_sched_rr schedule_fps user_to_sys set_user_pages list_empty main init_mm
    move_program start init_sched init_queues list_add update init_idle list_first list_del
    list_head_to_task_struct init_task1
forked = (_, _, refl)

main-Reach-Orderly_example : Orderly forked.1
main-Reach-Orderly_example = main-Reach-Orderly still_screen machine first forked.1 first_start (
    next (next (next here (clock ticked.1)) (keyboard 30 keyed.1))
      (call (pos 2) args (value forked.0) forked.2))

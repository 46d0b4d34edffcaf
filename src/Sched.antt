-- ===== src/Sched.antt =====
-- The scheduling policy of zeOS/sched.c, and the switch of zeOS/entry.S. `none` is a fault: a
-- pointer through NULL, or a queue's head taken for a task.
pub mod Queues
pub mod Policy
pub mod Turns
pub mod Priority
pub mod Fair
pub mod Sample
mod Tests
use so2_soa_fib.Common.{
  ℕ, ◌+◌, ◌*◌, ◌%◌, ◌^◌, Bool, true, false, ◌&&◌, Option, none, some, ◌>>=◌, ◌==◌, if◌then◌else◌, ℤ,
  pos, dec, is_pos,
}
use so2_soa_fib.ListHead.{
  Ptr, null, Links, init_list_head, list_add, list_add_tail, list_del, list_empty, list_first,
}
use so2_soa_fib.Kernel.{
  Kernel, Task, TaskStats, current, set_task, freequeue, readyqueue, priorityqueue, node,
  list_head_to_task_struct, sys_to_user_ready, ready_to_sys,
}

unfoldable pub set_links : Links → Kernel → Kernel
set_links m k = record k { links = m }

-- `quantum_ticks` is an `int`; `schedule` gives it a new quantum once it has come to 0, so it stays far
-- from where an `int` wraps.
unfoldable pub update_sched_data_rr : Kernel → Kernel
update_sched_data_rr k = record k { quantum_ticks = dec k.quantum_ticks }

-- `current()->estat.total_trans++`
unfoldable pub count_trans : Kernel → Kernel
unfolding set_task
count_trans k =
    let t = current k in
    let st = t.estat in
    set_task k.running
      (record t { estat = record st { total_trans = (st.total_trans + 1) % 2 ^ 32 } }) k

unfoldable pub needs_sched_rr : Kernel → Option (Bool × Kernel)
unfolding count_trans
needs_sched_rr k = if is_pos k.quantum_ticks then some (false, k) else do
  r ← list_empty readyqueue k.links
  p ← list_empty priorityqueue k.links
  some (
      if r && p
      then (false, count_trans (record k { quantum_ticks = pos (current k).quantum }))
      else (true, k))

-- `dst_queue` NULL is the address 0.
unfoldable pub update_process_state_rr : ℕ → Ptr → Kernel → Option Kernel
unfolding set_links
update_process_state_rr t dst k = do
  m ←
      if k.links.prev (node t) == null && k.links.next (node t) == null
      then some k.links
      else list_del (node t) k.links
  m ← if dst == null then some m else list_add_tail (node t) dst m
  some (set_links m k)

-- `task_switch` and `inner_task_switch`: the time is booked, the kernel's stack and the directory
-- become those of `new`, and the code goes on where `new` was left.
unfoldable pub task_switch : ℕ → Kernel → Kernel
task_switch new k =
    let k = sys_to_user_ready k in
    ready_to_sys (record k { esp0 = new; cr3 = (k.task new).dir; running = new })

-- The queue from which `sched_next_rr` takes the next task.
unfoldable pub next_queue : Kernel → Option Ptr
next_queue k =
    if (current k).nice == 0
    then some readyqueue
    else (do e ← list_empty priorityqueue k.links; some (if e then readyqueue else priorityqueue))

unfoldable pub sched_next_rr : Kernel → Option Kernel
unfolding next_queue set_links
sched_next_rr k = do
  queue ← next_queue k
  list_nou ← list_first queue k.links
  m ← list_del list_nou k.links
  nova_taska ← list_head_to_task_struct list_nou
  let final_quantum = (k.task nova_taska).quantum
  let ticks = if (current k).nice == 0 then final_quantum else final_quantum * 5
  some (task_switch nova_taska (record (set_links m k) { quantum_ticks = pos ticks }))

-- The body of `schedule` under its test: the quantum is over and another task waits.
unfoldable pub switch_tasks : Kernel → Option Kernel
switch_tasks k = do
  k ←
      update_process_state_rr k.running
        (if (current k).nice == 0 then priorityqueue else readyqueue) k
  sched_next_rr k

unfoldable pub schedule : Kernel → Option Kernel
unfolding update_sched_data_rr switch_tasks
schedule k = do
  (needed, k) ← needs_sched_rr (update_sched_data_rr k)
  if needed then switch_tasks k else some k

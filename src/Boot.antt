-- ===== src/Boot.antt =====
-- The start of the scheduler in zeOS/sched.c: `init_sched`, `init_idle` and `init_task1`, in the
-- order in which `main` of zeOS/system.c calls them.
pub mod Tasks
mod Tests
use so2_soa_fib.Common.{ℕ, zero, suc, ◌+◌, Option, some, ◌>>=◌, neg, pos}
use so2_soa_fib.ListHead.{Links, init_list_head, list_add, list_del, list_first}
use so2_soa_fib.Kernel.{
  Kernel, Task, set_task, freequeue, readyqueue, priorityqueue, node, nr_tasks,
  list_head_to_task_struct, allocate_dir, init_stat,
}
use so2_soa_fib.Process.{set_user_pages, l_heap_start}

-- The loop of `init_sched`: `n` tasks from `i` on are added.
unfoldable pub add_tasks : ℕ → ℕ → Links → Option Links
add_tasks zero i m = some m
add_tasks (suc n) i m = list_add (node i) freequeue m >>= add_tasks n (suc i)

-- The three queues as `init_sched` leaves them.
unfoldable pub init_queues : Links → Option Links
unfolding add_tasks init_list_head
init_queues m = do
  m ← init_list_head freequeue m
  m ← init_list_head readyqueue m
  m ← init_list_head priorityqueue m
  add_tasks nr_tasks 0 m

unfoldable pub init_sched : Kernel → Option Kernel
init_sched k = do
  m ← init_queues k.links
  some (record k { links = m; quantum_ticks = neg 1; spf_ticks = neg 1; spf_sem = neg 1 })

-- `init_idle`; the two words on the stack of the task are in Processor/Switch.
unfoldable pub init_idle : Kernel → Option Kernel
unfolding set_task allocate_dir
init_idle k = do
  task_head ← list_first freequeue k.links
  m ← list_del task_head k.links
  i ← list_head_to_task_struct task_head
  let k = set_task i (record (k.task i) { pid = pos 0 }) (record k { links = m })
  some (record (allocate_dir i k) { idle_task = i })

-- `init_task1`: `tss.esp0` and the register MSR 0x175 are set together.
unfoldable pub init_task1 : Kernel → Option Kernel
unfolding set_task allocate_dir init_stat
init_task1 k = do
  task_head ← list_first freequeue k.links
  m ← list_del task_head k.links
  i ← list_head_to_task_struct task_head
  let t : Task = record (k.task i) { pid = pos 1; brk = l_heap_start; quantum = 3; nice = 1 }
  let k = set_user_pages i (allocate_dir i (set_task i t (record k { links = m })))
  some (init_stat i (record k { esp0 = i; cr3 = (k.task i).dir }))

unfoldable pub start : Kernel → Option Kernel
start k = do k ← init_sched k; k ← init_idle k; init_task1 k

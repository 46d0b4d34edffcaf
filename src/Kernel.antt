-- ===== src/Kernel.antt =====
-- The state that sched.c, sys.c and interrupt.c share: the array of tasks, the queues' pointers and
-- the globals of the scheduler. `task[i]` is the number i, and `current()` is the task on whose
-- stack the processor runs.
pub mod Sample
use so2_soa_fib.Common.{
  ℕ, ◌+◌, ◌-◌, ◌*◌, ◌/◌, ◌%◌, ◌^◌, Option, none, some, ltb, if◌then◌else◌, update, ℤ, to_word,
}
use so2_soa_fib.CircularBuffer.{CircularBuffer}
use so2_soa_fib.Frames.{PhysMem}
use so2_soa_fib.ListHead.{Ptr, Links}
use so2_soa_fib.Screen.{Screen}
use so2_soa_fib.Utils.{Memory}
use so2_soa_fib.PageTable.{PageTable, pbase_addr, get_frame}

-- `struct stats`; every field is an `unsigned long`.
pub record TaskStats : Type 0 where
  pub user_ticks : ℕ
  pub system_ticks : ℕ
  pub blocked_ticks : ℕ
  pub ready_ticks : ℕ
  pub elapsed_total_ticks : ℕ
  pub total_trans : ℕ
  pub remaining_ticks : ℕ

-- `struct task_struct`, without the stack and its pointer. `dir` is the directory's index.
pub record Task : Type 0 where
  pub pid : ℤ
  pub dir : ℕ
  pub quantum : ℕ
  pub estat : TaskStats
  pub nice : ℕ
  pub brk : ℕ

pub record Kernel : Type 0 where
  pub task : ℕ → Task
  pub links : Links
  pub running : ℕ
  pub quantum_ticks : ℤ
  -- `tss.esp0` and the register MSR 0x175 point to the end of this task's stack, `cr3` to its
  -- directory.
  pub esp0 : ℕ
  pub cr3 : ℕ
  -- The values that the time-stamp counter gives, reading by reading, and how many were read.
  pub tsc : ℕ → ℕ
  pub readings : ℕ
  -- The byte map of frames, `dir_pages` (entry 0 of each directory), the page at which
  -- `pagusr_table` stands, and the page tables by the page at which each stands.
  pub phys_mem : PhysMem
  pub dir_pages : ℕ → ℕ
  pub pagusr_page : ℕ
  pub tables : ℕ → PageTable
  pub idle_task : ℕ
  pub next_pid : ℕ
  pub zeos_ticks : ℕ
  pub keyboard_buffer : CircularBuffer
  -- The globals of the frames per second: `spf_last_screen` is an address, 0 for NULL.
  pub spf_pid : ℤ
  pub spf_ticks : ℤ
  pub spf_sem : ℤ
  pub gfps : ℤ
  pub spf_last_screen : ℕ
  -- The screen, and the memory by physical address.
  pub screen : Screen
  pub ram : Memory

abbrev pub nr_tasks : ℕ
nr_tasks = 10

-- The addresses of the queues' heads and of `task[i].task.list`. Only that they differ and are not
-- NULL matters.
abbrev pub freequeue : Ptr
freequeue = 1

abbrev pub readyqueue : Ptr
readyqueue = 2

abbrev pub priorityqueue : Ptr
priorityqueue = 3

abbrev pub node : ℕ → Ptr
node i = i + 4

-- The PCB around a list node; there is none around a queue's head.
unfoldable pub list_head_to_task_struct : Ptr → Option ℕ
list_head_to_task_struct l = if ltb l 4 then none else some (l - 4)

abbrev pub current : Kernel → Task
current k = k.task k.running

unfoldable pub set_task : ℕ → Task → Kernel → Kernel
set_task i t k = record k { task = update k.task i t }

-- `get_PT`: the page at which the table of a directory stands.
abbrev pub get_pt : Kernel → Task → ℕ
get_pt k t = pbase_addr (k.dir_pages t.dir)

-- `allocate_DIR`: the directory of the same index.
unfoldable pub allocate_dir : ℕ → Kernel → Kernel
unfolding set_task
allocate_dir i k = let t = k.task i in set_task i (record t { dir = i }) k

-- `get_ticks`: the counter in units of CYCLESPERTICK.
abbrev pub ticks_at : Kernel → ℕ → ℕ
ticks_at k n = k.tsc n / 109000 % 2 ^ 32

-- a + b - c in an `unsigned long`.
abbrev pub add_elapsed : ℕ → ℕ → ℕ → ℕ
add_elapsed total now since = (total + (now + 2 ^ 32 - since) % 2 ^ 32) % 2 ^ 32

unfoldable pub init_stat : ℕ → Kernel → Kernel
unfolding set_task
init_stat i k =
    let t = k.task i in
    let st : TaskStats = record {
      user_ticks = 0;
      system_ticks = 0;
      blocked_ticks = 0;
      ready_ticks = 0;
      elapsed_total_ticks = ticks_at k k.readings;
      total_trans = 0;
      remaining_ticks = t.quantum;
    } in
    record (set_task i (record t { estat = st }) k) { readings = k.readings + 1 }

-- The two readings of the clock of `user_to_sys` and its two kin, and the quantum that is left.
abbrev stamp : Kernel → TaskStats → TaskStats
stamp k st = record st {
  elapsed_total_ticks = ticks_at k (k.readings + 1);
  remaining_ticks = to_word k.quantum_ticks;
}

unfoldable pub user_to_sys : Kernel → Kernel
unfolding set_task
user_to_sys k =
    let t = current k in
    let st = t.estat in
    let st' = record (stamp k st) {
      user_ticks = add_elapsed st.user_ticks (ticks_at k k.readings) st.elapsed_total_ticks;
    } in
    record (set_task k.running (record t { estat = st' }) k) { readings = k.readings + 2 }

unfoldable pub sys_to_user_ready : Kernel → Kernel
unfolding set_task
sys_to_user_ready k =
    let t = current k in
    let st = t.estat in
    let st' = record (stamp k st) {
      system_ticks = add_elapsed st.system_ticks (ticks_at k k.readings) st.elapsed_total_ticks;
    } in
    record (set_task k.running (record t { estat = st' }) k) { readings = k.readings + 2 }

unfoldable pub ready_to_sys : Kernel → Kernel
unfolding set_task
ready_to_sys k =
    let t = current k in
    let st = t.estat in
    let st' = record (stamp k st) {
      ready_ticks = add_elapsed st.ready_ticks (ticks_at k k.readings) st.elapsed_total_ticks;
      total_trans = (st.total_trans + 1) % 2 ^ 32;
    } in
    record (set_task k.running (record t { estat = st' }) k) { readings = k.readings + 2 }

-- Where the processor finds an address of a page that is present: in the frame on which the page table
-- has it. On a page that is not present the processor faults; `Pointers` tests this for each address
-- that a system call is given.
unfoldable pub translate : PageTable → ℕ → ℕ
unfolding get_frame
translate pt a = get_frame pt (a / 4096) * 4096 + a % 4096

unfoldable pub view : PageTable → Memory → Memory
unfolding translate
view pt ram a = ram (translate pt a)

-- The table of the directory in `cr3`, and memory as the running task sees it.
abbrev pub cr3_table : Kernel → PageTable
cr3_table k = k.tables (pbase_addr (k.dir_pages k.cr3))

unfoldable pub user_memory : Kernel → Memory
unfolding view
user_memory k = view (cr3_table k) k.ram

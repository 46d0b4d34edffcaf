-- ===== src/Processor/Switch.antt =====
-- The stacks of tasks: the change of stacks at the end of `inner_task_switch` of zeOS/entry.S, and the
-- words that sys_fork and init_idle put on the stack of a new task. A task is given by the address of
-- its `task_union`, whose field `kernel_esp` stands 16 bytes behind.
pub mod Child
pub mod Idle
mod Tests
use so2_soa_fib.Common.{ℕ, ◌+◌, ◌-◌, ◌*◌, ◌&&◌, leb, ltb, if◌then◌else◌, update}
use so2_soa_fib.Processor.{Processor, top}
use so2_soa_fib.Processor.Sysenter.{popped}

abbrev pub esp_field : ℕ → ℕ
esp_field task = task + 0x10

-- From saving `ebp` in the PCB of the task that runs to `ret` on the stack of `new`; what
-- ready_to_sys does to the registers is left out.
unfoldable pub switch_stack : ℕ → ℕ → Processor → Processor
switch_stack running new p =
    let p = record p { words = update p.words (esp_field running) p.ebp } in
    let p = record p { esp = p.words (esp_field new) } in
    let p = record (popped p) { ebp = top p 0 } in record (popped p) { eip = top p 0 }

-- `copy_data` of the union, and the lines of sys_fork on the child's stack; `start` is the address of
-- ret_from_fork.
unfoldable pub copy_union : ℕ → ℕ → (ℕ → ℕ) → ℕ → ℕ
copy_union parent child words a =
    if leb child a && ltb a (child + 4096) then words (parent + (a - child)) else words a

unfoldable pub fork_stack : ℕ → ℕ → ℕ → (ℕ → ℕ) → ℕ → ℕ
unfolding copy_union
fork_stack start parent child words =
    let words = update (copy_union parent child words) (child + 4096 - 4 * 0x13) 0 in
    let words = update words (child + 4096 - 4 * 0x12) start in
    update words (esp_field child) (child + 4096 - 4 * 0x13)

-- The function returns 0.
unfoldable pub ret_from_fork : Processor → Processor
ret_from_fork p = record (popped p) { eax = 0; eip = top p 0 }

-- The lines of init_idle.
unfoldable pub idle_stack : ℕ → ℕ → (ℕ → ℕ) → ℕ → ℕ
idle_stack cpu_idle task words =
    let words = update words (task + 4 * (1024 - 1)) cpu_idle in
    let words = update words (task + 4 * (1024 - 2)) 0 in
    update words (esp_field task) (task + 4 * (1024 - 2))

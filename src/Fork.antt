-- ===== src/Fork.antt =====
-- `sys_fork` of zeOS/sys.c. The words that it puts on the stack of the child, by which the child returns
-- 0 from the call, are in Processor/Switch. `none` is an access through NULL.
pub mod Copy
pub mod Table
pub mod Views
pub mod Inherit
pub mod Child
pub mod Spec
pub mod Steps
pub mod Outcome
mod Tests
use so2_soa_fib.Common.{
  ℕ, zero, suc, ◌+◌, ◌-◌, ◌*◌, ◌/◌, ◌%◌, Bool, ◌&&◌, Option, none, some, List, [], ◌∷◌, ◌>>=◌, ◌==◌,
  ltb, leb, if◌then◌else◌, update, ℤ, pos, neg,
}
use so2_soa_fib.ListHead.{
  Ptr, Links, set_next, set_prev, list_empty, list_first, list_del, list_add, list_add_tail,
}
use so2_soa_fib.Utils.{Memory, copy_data}
use so2_soa_fib.Frames.{PhysMem, reserve}
use so2_soa_fib.PageTable.{PageTable, set_ss_pag, del_ss_pag, get_frame}
use so2_soa_fib.Kernel.{
  Kernel, Task, current, set_task, get_pt, allocate_dir, init_stat, freequeue, readyqueue,
  priorityqueue, node, list_head_to_task_struct, view,
}
use so2_soa_fib.Process.{
  pag_log_init_code, num_pag_code, pag_log_init_data, num_pag_data_heap, map_frames,
}
use so2_soa_fib.Sched.{set_links}

-- `copy_data` of the PCB also copies the pointers of its list node.
unfoldable pub copy_node : Ptr → Ptr → Links → Links
copy_node from to m = record {
  next = update m.next to (m.next from);
  prev = update m.prev to (m.prev from);
}

unfoldable pub copy_pcb : ℕ → Kernel → Kernel
unfolding copy_node set_task
copy_pcb child k =
    set_task child (current k)
      (record k { links = copy_node (node k.running) (node child) k.links })

-- The pages of the kernel: `n` entries from `i` on are those of the parent.
unfoldable pub share_kernel : ℕ → ℕ → PageTable → PageTable → PageTable
share_kernel zero i parent pt = pt
share_kernel (suc n) i parent pt =
    share_kernel n (suc i) parent (update pt (1 + i) (parent (1 + i)))

-- The pages of code: the frames of the parent.
unfoldable pub share_code : ℕ → ℕ → PageTable → PageTable → PageTable
share_code zero page parent pt = pt
share_code (suc n) page parent pt =
    share_code n (suc page) parent (set_ss_pag pt page (get_frame parent page))

-- The table of the child, from the one that it had.
unfoldable pub child_table : List ℕ → PageTable → PageTable → PageTable
unfolding share_kernel share_code map_frames
child_table frames parent pt =
    map_frames frames pag_log_init_data
      (share_code num_pag_code pag_log_init_code parent (share_kernel 255 1 parent pt))

-- `copy_data` of a page to a page that the table maps on `frame`: what it leaves of that page in
-- the memory that the table shows is what the frame holds then.
unfoldable pub copy_page : PageTable → ℕ → ℕ → ℕ → Memory → Memory
unfolding view
copy_page pt page to frame ram a =
    let copied = copy_data (page * 4096) (to * 4096) 4096 (view pt ram) in
    if leb (frame * 4096) a && ltb a (frame * 4096 + 4096)
    then copied (to * 4096 + (a - frame * 4096))
    else ram a

-- The memory, and the table of the running task, through which it is copied.
pub record Copying : Type 0 where
  pub table : PageTable
  pub ram : Memory

-- The loop that copies the data: each frame is mapped `gap` pages above the page that it is to
-- hold, written, and unmapped.
unfoldable pub copy_pages : ℕ → List ℕ → ℕ → Copying → Copying
unfolding set_ss_pag del_ss_pag copy_page
copy_pages gap [] page c = c
copy_pages gap (f ∷ fs) page c =
    let pt = set_ss_pag c.table (page + gap) f in
    copy_pages gap fs (suc page)
      (record { table = del_ss_pag pt (page + gap); ram = copy_page pt page (page + gap) f c.ram })

-- The child's table and the copy of the data, with `n` frames in the list.
unfoldable pub inherit : ℕ → ℕ → List ℕ → Kernel → Kernel
unfolding child_table copy_pages
inherit child n frames k =
    let parent_page = get_pt k (current k) in
    let child_page = get_pt k (k.task child) in
    let pt = child_table frames (k.tables parent_page) (k.tables child_page) in
    let tables = update k.tables child_page pt in
    let start : Copying = record { table = tables parent_page; ram = k.ram } in
    let c = copy_pages n frames pag_log_init_data start in
    record k { tables = update tables parent_page c.table; ram = c.ram; cr3 = (current k).dir }

-- The end of the call: the identifier, the statistics and the queue of the child.
unfoldable pub enter_queue : ℕ → Kernel → Option (ℤ × Kernel)
enter_queue child k = do
  let pid = k.next_pid
  let k = set_task child (record (k.task child) { pid = pos pid }) (record k { next_pid = suc pid })
  let k = init_stat child k
  m ←
      list_add_tail (node child) (if (k.task child).nice == 0 then priorityqueue else readyqueue)
        k.links
  some (pos pid, set_links m k)

-- What follows the reservation of the frames.
unfoldable pub fork_frames : ℕ → ℕ → Option (List ℕ) × PhysMem → Kernel → Option (ℤ × Kernel)
fork_frames child n (none, mem) k = do
  m ← list_add (node child) freequeue k.links
  some (neg 12, set_links m (record k { phys_mem = mem }))
fork_frames child n (some frames, mem) k =
    enter_queue child (inherit child n frames (record k { phys_mem = mem }))

unfoldable pub fork_child : Kernel → Option (ℤ × Kernel)
fork_child k = do
  free_head ← list_first freequeue k.links
  m ← list_del free_head k.links
  child ← list_head_to_task_struct free_head
  let k = allocate_dir child (copy_pcb child (set_links m k))
  let n = num_pag_data_heap (current k).brk
  fork_frames child n (reserve n k.phys_mem) k

unfoldable pub sys_fork : Kernel → Option (ℤ × Kernel)
unfolding fork_child
sys_fork k = do e ← list_empty freequeue k.links; if e then some (neg 11, k) else fork_child k

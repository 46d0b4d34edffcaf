-- ===== src/Process/Exit.antt =====
-- What `sys_exit` leads to.
use so2_soa_fib.Common.{
  ℕ, ◌+◌, ◌≡◌, ap, ◌&&◌, Option, none, some, ◌>>=◌, List, [], ◌∷◌, ltb, leb, if◌then◌else◌, update,
  neg,
}
use so2_soa_fib.ListHead.{Ptr, Links}
use so2_soa_fib.Frames.{free}
use so2_soa_fib.Kernel.{Kernel, current, get_pt, freequeue, node, set_task}
use so2_soa_fib.Sched.{set_links, update_process_state_rr, sched_next_rr}
use so2_soa_fib.Sched.Queues.{Queues, push_back}
use so2_soa_fib.Sched.Policy.{IsScheduled, source}
use so2_soa_fib.Process.{sys_exit, in_space, release, num_pag_data_heap, pag_log_init_data}
use so2_soa_fib.Process.Release.{on_frame, is_freed}

-- `sys_exit` before the task leaves.
abbrev pub emptied : Kernel → Kernel
emptied k = in_space (release (num_pag_data_heap (current k).brk) pag_log_init_data) k.running k

abbrev pub nameless : Kernel → Kernel
nameless k = set_task k.running (record (current (emptied k)) { pid = neg 1 }) (emptied k)

pub sys_exit-lists :
    (k : Kernel) (m : Links)
    → update_process_state_rr k.running freequeue (nameless k) ≡ some (set_links m (nameless k))
    → sys_exit k ≡ sched_next_rr (set_links m (nameless k))
sys_exit-lists k m e = unfold sys_exit in ap (λ (o : Option Kernel). o >>= sched_next_rr) e

-- The switch to the next task leaves the frames and tables alone.
abbrev SameMemory : Kernel → Kernel → Type 0
SameMemory k k' = (k'.phys_mem ≡ k.phys_mem) × (k'.tables ≡ k.tables)

-- The queues once the task is among the free ones.
abbrev pub freed : Kernel → Queues → Queues
freed k q = push_back q freequeue (node k.running)

-- The next task runs, out of its queue, on its stack and in its directory; the one that exits is free
-- and has no identifier; its pages of data and heap are unmapped and their frames above 256 are free.
pub record Exited (k : Kernel) (q : Queues) (x : Ptr) (xs : List Ptr) (k' : Kernel) : Type 0 where
  pub queues : IsScheduled k' (update (freed k q) (source (current k).nice q) xs)
  pub chosen : node k'.running ≡ x
  pub stack : k'.esp0 ≡ k'.running
  pub directory : k'.cr3 ≡ (k.task k'.running).dir
  pub nameless_pid : (k'.task k.running).pid ≡ neg 1
  pub table :
      (page : ℕ)
      → let n = num_pag_data_heap (current k).brk in
        k'.tables (get_pt k (current k)) page ≡ (
          if leb pag_log_init_data page && ltb page (pag_log_init_data + n)
          then 0
          else k.tables (get_pt k (current k)) page)
  pub frames :
      (f : ℕ)
      → let n = num_pag_data_heap (current k).brk in
        k'.phys_mem f ≡ (
          if is_freed f && on_frame n pag_log_init_data (k.tables (get_pt k (current k))) f
          then free
          else k.phys_mem f)

-- Another task waits where the code looks for one, or none, and then the code fails.
pub data Exits (k : Kernel) (q : Queues) : Type 0 where
  leaves :
      (x : Ptr) (xs : List Ptr) (k' : Kernel)
      → q (source (current k).nice q) ≡ x ∷ xs
      → sys_exit k ≡ some k'
      → Exited k q x xs k'
      → Exits k q
  lost : q (source (current k).nice q) ≡ [] → sys_exit k ≡ none → Exits k q

-- ===== src/Fork/Spec.antt =====
-- What is asked of `sys_fork`.
use so2_soa_fib.Common.{ℕ, ◌<◌, ◌≡◌, some, true, List, length, if◌then◌else◌, update, pos, neg}
use so2_soa_fib.Frames.{PhysMem, num_pag_kernel, free, used}
use so2_soa_fib.Frames.Alloc.{IsFrame}
use so2_soa_fib.Frames.Reserve.{AllFree, has}
use so2_soa_fib.ListHead.{Ptr}
use so2_soa_fib.PageTable.{pbase_addr}
use so2_soa_fib.Kernel.{Kernel, Task, current, get_pt, freequeue, node}
use so2_soa_fib.Process.{num_pag_data_heap}
use so2_soa_fib.Sched.Queues.{Queues, push_back}
use so2_soa_fib.Sched.Policy.{IsScheduled, home}
use so2_soa_fib.Fork.{sys_fork}
use so2_soa_fib.Fork.Views.{SameView}

-- The pages of data and heap that a task has.
abbrev pub data_pages : Task → ℕ
data_pages t = num_pag_data_heap t.brk

-- The child has its own identifier and directory, and its priority, quantum and heap from its
-- parent.
pub record IsCopy (k : Kernel) (child : ℕ) (k' : Kernel) : Type 0 where
  pub pid : (k'.task child).pid ≡ pos k.next_pid
  pub dir : (k'.task child).dir ≡ child
  pub nice : (k'.task child).nice ≡ (current k).nice
  pub quantum : (k'.task child).quantum ≡ (current k).quantum
  pub brk : (k'.task child).brk ≡ (current k).brk

-- The child sees the memory that its parent saw and still sees.
pub record Views (k : Kernel) (child : ℕ) (k' : Kernel) : Type 0 where
  pub child_memory :
      SameView
        (data_pages (current k))
        (k.tables (get_pt k (current k)))
        k.ram
        (k'.tables (pbase_addr (k.dir_pages child)))
        k'.ram
  pub parent_memory :
      SameView
        (data_pages (current k))
        (k.tables (get_pt k (current k)))
        k.ram
        (k'.tables (get_pt k (current k)))
        k'.ram

-- The child waits at the end of the queue of its priority, and the parent runs on.
pub record IsChild (k : Kernel) (q : Queues) (xs : List Ptr) (child : ℕ) (k' : Kernel)
    : Type 0 where
  pub queues :
      IsScheduled k' (push_back (update q freequeue xs) (home (current k).nice) (node child))
  pub copy : IsCopy k child k'
  pub parent : (current k' ≡ current k) × (k'.running ≡ k.running)
  pub views : Views k child k'

-- Fewer than `n` of the frames that `alloc_frame` gives out are free, and all but the first of these
-- are free again afterwards; the first, if it was taken, stays in use.
abbrev pub TooFew : ℕ → PhysMem → PhysMem → Type 0
TooFew n mem mem' =
    (fs : List ℕ) × (length fs < n)
    × AllFree fs mem
    × ((e : ℕ) → IsFrame e → mem e ≡ free → has e fs ≡ true)
    × (mem' ≡ (if has num_pag_kernel fs then update mem num_pag_kernel used else mem))

-- What `sys_fork` comes to, when the first free PCB is `child`, with the nodes `xs` behind it: the
-- child, or too few frames, and then the queues, the tables and the memory are as they were.
pub data Forks (k : Kernel) (q : Queues) (xs : List Ptr) (child : ℕ) : Type 0 where
  done :
      (k' : Kernel)
      → sys_fork k ≡ some (pos k.next_pid, k')
      → IsChild k q xs child k'
      → Forks k q xs child
  failed :
      (k' : Kernel)
      → sys_fork k ≡ some (neg 12, k')
      → IsScheduled k' q
      → (k'.tables ≡ k.tables) × (k'.ram ≡ k.ram) × (current k' ≡ current k)
      → TooFew (data_pages (current k)) k.phys_mem k'.phys_mem
      → Forks k q xs child

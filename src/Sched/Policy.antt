-- ===== src/Sched/Policy.antt =====
-- What `schedule` does with the tasks, said of lists, and that the code does it.
pub mod Next
pub mod Turn
pub mod Safe
use so2_soa_fib.Common.{
  ℕ, ◌+◌, ◌*◌, ◌≡◌, Bool, true, false, ◌&&◌, List, [], ◌∷◌, is_empty, ◌==◌, if◌then◌else◌, update,
  pos,
}
use so2_soa_fib.ListHead.{Ptr}
use so2_soa_fib.Kernel.{Kernel, current, readyqueue, priorityqueue, node}
use so2_soa_fib.Sched.Queues.{Queues, Holds, Detached, push_back}

-- The queues hold the lists `q`, and the running task is in none.
pub record IsScheduled (k : Kernel) (q : Queues) : Type 0 where
  pub holds : Holds k.links q
  pub out : Detached (node k.running) k.links q

-- The queue of tasks like the running one, and the queue from which the next one comes.
abbrev pub home : ℕ → Ptr
home nice = if nice == 0 then priorityqueue else readyqueue

abbrev pub source : ℕ → Queues → Ptr
source nice q =
    if nice == 0
    then readyqueue
    else if is_empty (q priorityqueue)
    then readyqueue
    else priorityqueue

-- The ticks that a task is given when it is switched to: its quantum after a task of high priority,
-- five times that after one of low priority.
abbrev pub share : ℕ → ℕ → ℕ
share nice quantum = if nice == 0 then quantum else quantum * 5

-- What a tick of the clock leads to: the task goes on, or begins another quantum, or gives way to a
-- task, or the code takes a queue's head for a task.
pub data Outcome : Type 0 where
  goes_on : Outcome
  renewed : Outcome
  gives_way : Ptr → Queues → Outcome
  lost : Outcome

unfoldable pub take_from : Ptr → Queues → List Ptr → Outcome
take_from h q [] = lost
take_from h q (x ∷ xs) = gives_way x (update q h xs)

-- The policy: `left` says that ticks of the quantum are left.
unfoldable pub policy : Bool → ℕ → Ptr → Queues → Outcome
unfolding take_from
policy left nice task q =
    if left
    then goes_on
    else if is_empty (q readyqueue) && is_empty (q priorityqueue)
    then renewed
    else (let q' = push_back q (home nice) task in
        take_from (source nice q') q' (q' (source nice q')))

-- No task's fields but its statistics differ.
abbrev pub SameTasks : Kernel → Kernel → Type 0
SameTasks k k' =
    (i : ℕ)
    → ((k'.task i).pid ≡ (k.task i).pid)
      × ((k'.task i).dir ≡ (k.task i).dir)
      × ((k'.task i).quantum ≡ (k.task i).quantum)
      × ((k'.task i).nice ≡ (k.task i).nice)
      × ((k'.task i).brk ≡ (k.task i).brk)

-- `k'` runs the task of node `x`, on its stack and in its address space, with the share of ticks
-- that follows the task which ran in `k`.
pub record Runs (k : Kernel) (x : Ptr) (q : Queues) (k' : Kernel) : Type 0 where
  pub scheduled : IsScheduled k' q
  pub chosen : node k'.running ≡ x
  pub ticks : k'.quantum_ticks ≡ pos (share (current k).nice (k.task k'.running).quantum)
  pub stack : k'.esp0 ≡ k'.running
  pub directory : k'.cr3 ≡ (k.task k'.running).dir
  pub same : SameTasks k k'

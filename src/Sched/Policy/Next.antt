-- ===== src/Sched/Policy/Next.antt =====
-- `task_switch` and `sched_next_rr`.
use so2_soa_fib.Common.{
  ℕ, ◌-◌, ◌*◌, ◌≡◌, refl, sym, ap, subst, ◌∙◌, true, false, Option, none, some, ◌>>=◌, List, [],
  ◌∷◌, arith, is_empty, ◌==◌, ltb, if◌then◌else◌, update, pos, Bool-cases, Option-cases, inl, inr,
}
use so2_soa_fib.ListHead.{Ptr, Links, list_del, list_first}
use so2_soa_fib.ListHead.Chain.{first_of}
use so2_soa_fib.ListHead.Queue.{list_empty-is_empty, list_first-first_of}
use so2_soa_fib.Kernel.{
  Kernel, current, priorityqueue, node, list_head_to_task_struct, sys_to_user_ready, ready_to_sys,
}
use so2_soa_fib.Sched.{task_switch, next_queue, sched_next_rr, set_links}
use so2_soa_fib.Sched.Queues.{Queues, IsHead, Holds, Detached, list_del-Holds}
use so2_soa_fib.Sched.Policy.{IsScheduled, source, share, SameTasks, Runs}

task_switch_fields :
    (new : ℕ) (k : Kernel)
    → ((task_switch new k).links ≡ k.links)
      × ((task_switch new k).running ≡ new)
      × ((task_switch new k).quantum_ticks ≡ k.quantum_ticks)
      × ((task_switch new k).esp0 ≡ new)
unfolding task_switch sys_to_user_ready ready_to_sys
task_switch_fields new k = (refl, refl, refl, refl)

sys_to_user_ready-SameTasks : (k : Kernel) → SameTasks k (sys_to_user_ready k)
unfolding sys_to_user_ready update
sys_to_user_ready-SameTasks k i = ground arith

ready_to_sys-SameTasks : (k : Kernel) → SameTasks k (ready_to_sys k)
unfolding ready_to_sys update
ready_to_sys-SameTasks k i = ground arith

SameTasks-trans : (k l m : Kernel) → SameTasks k l → SameTasks l m → SameTasks k m
SameTasks-trans k l m s t i =
    let (a, b, c, d, e) = s i in
    let (a', b', c', d', e') = t i in (a' ∙ a, b' ∙ b, c' ∙ c, d' ∙ d, e' ∙ e)

-- The state in `inner_task_switch` once the stack is that of `new`.
abbrev entered : ℕ → Kernel → Kernel
entered new k =
    let k' = sys_to_user_ready k in record k' { esp0 = new; cr3 = (k'.task new).dir; running = new }

task_switch-SameTasks : (new : ℕ) (k : Kernel) → SameTasks k (task_switch new k)
unfolding task_switch
task_switch-SameTasks new k =
    SameTasks-trans k (entered new k) (task_switch new k) (sys_to_user_ready-SameTasks k)
      (ready_to_sys-SameTasks (entered new k))

task_switch-cr3 : (new : ℕ) (k : Kernel) → (task_switch new k).cr3 ≡ (k.task new).dir
task_switch-cr3 new k = unfold task_switch ready_to_sys in (sys_to_user_ready-SameTasks k new).1

next_queue-source :
    (k : Kernel) (q : Queues) → Holds k.links q → next_queue k ≡ some (source (current k).nice q)
unfolding next_queue
next_queue-source k q h =
    let e = list_empty-is_empty (q priorityqueue) (h.queue priorityqueue (omega arith)) in
    elim (Bool-cases ((current k).nice == 0)) [
      | inl high ↦ rw high
      | inr low ↦
          rw (low, e)
            (elim (Bool-cases (is_empty (q priorityqueue))) [
              | inl none_high ↦ rw none_high
              | inr some_high ↦ rw some_high
            ])
    ]

pub source-IsHead : (nice : ℕ) (q : Queues) → IsHead (source nice q)
source-IsHead nice q = elim (Bool-cases (nice == 0)) [
  | inl high ↦ rw high (omega arith)
  | inr low ↦ rw low (elim (Bool-cases (is_empty (q priorityqueue))) [
    | inl none_high ↦ rw none_high (omega arith)
    | inr some_high ↦ rw some_high (omega arith)
  ])
]

-- `sched_next_rr` after its choice of a queue.
unfoldable from_queue : Kernel → Ptr → Option Kernel
from_queue k queue = do
  list_nou ← list_first queue k.links
  m ← list_del list_nou k.links
  nova_taska ← list_head_to_task_struct list_nou
  let final_quantum = (k.task nova_taska).quantum
  let ticks = if (current k).nice == 0 then final_quantum else final_quantum * 5
  some (task_switch nova_taska (record (set_links m k) { quantum_ticks = pos ticks }))

sched_next_rr-from_queue :
    (k : Kernel) (q : Queues)
    → Holds k.links q
    → sched_next_rr k ≡ from_queue k (source (current k).nice q)
unfolding from_queue
sched_next_rr-from_queue k q h =
    unfold sched_next_rr in ap (λ (o : Option Ptr). o >>= from_queue k) (next_queue-source k q h)

-- The head of an empty queue is no task's node.
from_queue-none :
    (k : Kernel) (q : Queues) (h : Ptr)
    → Holds k.links q
    → IsHead h
    → q h ≡ []
    → from_queue k h ≡ none
unfolding from_queue list_head_to_task_struct
from_queue-none k q h holds ih empty =
    let f : list_first h k.links ≡ some h =
      list_first-first_of (q h) (holds.queue h ih) ∙ ap (λ xs. some (first_of xs h)) empty in
    let head : ltb h 4 ≡ true = ground arith in
    rw f (elim (Option-cases (list_del h k.links)) [ inl e ↦ rw e | inr (m, e) ↦ rw (e, head) ])

switched-IsScheduled :
    (new : ℕ) (k : Kernel) (q : Queues)
    → Holds k.links q
    → Detached (node new) k.links q
    → IsScheduled (task_switch new k) q
unfolding task_switch sys_to_user_ready ready_to_sys
switched-IsScheduled new k q h o = record { holds = h; out = o }

-- The switch to a task that is in no queue, with new links and a new count of ticks.
switched-Runs :
    (k : Kernel) (m : Links) (x : Ptr) (q : Queues)
    → Holds m q
    → Detached x m q
    → Runs k x q (
        task_switch (x - 4) (record (set_links m k) {
          quantum_ticks = pos (share (current k).nice (k.task (x - 4)).quantum);
        }))
unfolding set_links
switched-Runs k m x q holds out =
    let back : node (x - 4) ≡ x = omega (arith, out.is_node) in
    let k1 : Kernel = record (set_links m k) {
      quantum_ticks = pos (share (current k).nice (k.task (x - 4)).quantum);
    } in
    let (links, running, ticks, stack) = task_switch_fields (x - 4) k1 in
    record {
      scheduled =
          switched-IsScheduled (x - 4) k1 q holds (subst (λ y. Detached y m q) (sym back) out);
      chosen = ap node running ∙ back;
      ticks = ticks ∙ ap (λ i. pos (share (current k).nice (k.task i).quantum)) (sym running);
      stack = stack ∙ sym running;
      directory = task_switch-cr3 (x - 4) k1 ∙ ap (λ i. (k.task i).dir) (sym running);
      same = task_switch-SameTasks (x - 4) k1;
    }

from_queue-Runs :
    (k : Kernel) (q : Queues) (h x : Ptr) (xs : List Ptr)
    → Holds k.links q
    → IsHead h
    → q h ≡ x ∷ xs
    → (k' : Kernel) × (from_queue k h ≡ some k') × Runs k x (update q h xs) k'
unfolding from_queue list_head_to_task_struct
from_queue-Runs k q h x xs holds ih front =
    let f : list_first h k.links ≡ some x =
      list_first-first_of (q h) (holds.queue h ih) ∙ ap (λ ys. some (first_of ys h)) front in
    let (m, e, holds', out) = list_del-Holds h x xs ih holds front in
    let task : ltb x 4 ≡ false = ground (arith, out.is_node) in
    (task_switch (x - 4) _, rw (f, e, task), switched-Runs k m x (update q h xs) holds' out)

-- `sched_next_rr` takes the first task of its queue, or fails on an empty one.
pub sched_next_rr-Runs :
    (k : Kernel) (q : Queues) (x : Ptr) (xs : List Ptr)
    → Holds k.links q
    → q (source (current k).nice q) ≡ x ∷ xs
    → (k' : Kernel) × (sched_next_rr k ≡ some k')
      × Runs k x (update q (source (current k).nice q) xs) k'
sched_next_rr-Runs k q x xs holds front =
    let nice = (current k).nice in
    let (k', e, r) = from_queue-Runs k q (source nice q) x xs holds (source-IsHead nice q) front in
    (k', sched_next_rr-from_queue k q holds ∙ e, r)

pub sched_next_rr-none :
    (k : Kernel) (q : Queues)
    → Holds k.links q
    → q (source (current k).nice q) ≡ []
    → sched_next_rr k ≡ none
sched_next_rr-none k q holds empty =
    let nice = (current k).nice in
    sched_next_rr-from_queue k q holds
    ∙ from_queue-none k q (source nice q) holds (source-IsHead nice q) empty

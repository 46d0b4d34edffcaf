-- ===== src/Machine/Tasks.antt =====
-- `sys_fork` and `sys_exit` keep the order of the queues.
use so2_soa_fib.Common.{
  ℕ, suc, ◌-◌, ◌≡◌, refl, sym, ap, arith, subst, ◌∙◌, Option, none, some, List, [], ◌∷◌, length,
  update, ℤ, neg,
}
use so2_soa_fib.ListHead.{Ptr}
use so2_soa_fib.ListHead.Queue.{list_empty-is_empty}
use so2_soa_fib.Frames.{PhysMem}
use so2_soa_fib.Frames.Reserve.{all, too_few, reserve-Reserved}
use so2_soa_fib.Kernel.{Kernel, current, freequeue, node, set_task}
use so2_soa_fib.Process.{sys_exit, in_space}
use so2_soa_fib.Sched.{set_links, sched_next_rr}
use so2_soa_fib.Sched.Queues.{Queues, Holds, push_back, list_del-Holds}
use so2_soa_fib.Sched.Policy.{IsScheduled, home, source}
use so2_soa_fib.Sched.Policy.Turn.{home-IsHead, update_process_state_rr-push}
use so2_soa_fib.Sched.Policy.Next.{sched_next_rr-Runs, sched_next_rr-none, source-IsHead}
use so2_soa_fib.Process.Exit.{nameless, sys_exit-lists}
use so2_soa_fib.Fork.{sys_fork, fork_frames}
use so2_soa_fib.Fork.Spec.{data_pages}
use so2_soa_fib.Fork.Child.{prepared}
use so2_soa_fib.Fork.Steps.{fork_queued, fork_failed, sys_fork-child, fork_child-prepared}
use so2_soa_fib.Machine.Invariant.{
  total, total-update, total-push_back, IsOrderly, Orderly, orderly, Runs-Orderly, same-IsOrderly,
}

-- A task that leaves one queue for another.
moved-total :
    (q : Queues) (h x : Ptr) (xs : List Ptr)
    → q freequeue ≡ x ∷ xs
    → (nice : ℕ) → total (push_back (update q freequeue xs) (home nice) h) ≡ total q
moved-total q h x xs front nice = omega (
  arith,
  total-push_back (update q freequeue xs) (home nice) h (home-IsHead nice),
  total-update q freequeue xs (omega arith),
  ap length front,
)

-- What a result of `sys_fork` says of the state, once its result is known.
result-Orderly :
    {r r' : ℤ} {k' j : Kernel} (q : Queues) (o : Option (ℤ × Kernel))
    → o ≡ some (r, k')
    → o ≡ some (r', j)
    → IsScheduled j q
    → total q ≡ 8
    → Orderly k'
result-Orderly {k' = k'} {j = j} q o e f is eight =
    let same : j ≡ k' = cc in
    subst Orderly same (orderly q (record { scheduled = is; all = eight }))

fork_taken :
    (k k' : Kernel) (r : ℤ) (q : Queues) (x : Ptr) (xs : List Ptr)
    → IsOrderly k q
    → q freequeue ≡ x ∷ xs
    → sys_fork k ≡ some (r, k')
    → Orderly k'
fork_taken k k' r q x xs is front e =
    let (m, del, holds, out) =
      list_del-Holds freequeue x xs (omega arith) is.scheduled.holds front in
    let n = data_pages (current k) in
    let start =
      sys_fork-child k q x xs is.scheduled front m del holds out
      ∙ fork_child-prepared k q x xs is.scheduled front m del holds out in
    let frames =
      λ (p : Option (List ℕ) × PhysMem). fork_frames (x - 4) n p (prepared (x - 4) m k) in
    elim (reserve-Reserved n k.phys_mem) [
      | all fs len free reserved ↦
          let (m3, f, is3) = fork_queued k q x xs is.scheduled front m del holds out fs in
          result-Orderly _ (sys_fork k) e (start ∙ ap frames reserved ∙ f) is3
            (moved-total q (node (x - 4)) x xs front (current k).nice ∙ is.all)
      | too_few fs len free none_left reserved ↦
          let (j, f, is3, tables, ram, cur, mem) =
            fork_failed k q x xs is.scheduled front m del holds out _ in
          result-Orderly q (sys_fork k) e (start ∙ ap frames reserved ∙ f) is3 is.all
    ]

sys_fork-full :
    (k : Kernel) (q : Queues) → Holds k.links q → q freequeue ≡ [] → sys_fork k ≡ some (neg 11, k)
unfolding sys_fork
sys_fork-full k q holds front =
    rw (list_empty-is_empty (q freequeue) (holds.queue freequeue (omega arith)), front) refl

-- With a free PCB or none, with frames or without.
pub sys_fork-Orderly :
    (k k' : Kernel) (r : ℤ) (q : Queues) → IsOrderly k q → sys_fork k ≡ some (r, k') → Orderly k'
sys_fork-Orderly k k' r q is e = go (q freequeue) refl
  where
    go : (xs : List Ptr) → q freequeue ≡ xs → Orderly k'
    go [] front =
        result-Orderly q (sys_fork k) e (sys_fork-full k q is.scheduled.holds front) is.scheduled
          is.all
    go (x ∷ xs) front = fork_taken k k' r q x xs is front e

nameless-IsOrderly : (k : Kernel) (q : Queues) → IsOrderly k q → IsOrderly (nameless k) q
unfolding in_space set_task
nameless-IsOrderly k q is = same-IsOrderly (nameless k) refl refl is

-- What is taken from a queue that got one more.
next-Orderly :
    (k k' : Kernel) (q : Queues)
    → Holds k.links q
    → total q ≡ 9
    → sched_next_rr k ≡ some k'
    → Orderly k'
next-Orderly k k' q holds nine e = go (q h) refl
  where
    h : Ptr
    h = source (current k).nice q

    go : (xs : List Ptr) → q h ≡ xs → Orderly k'
    go [] front = absurd (
        let f = sched_next_rr-none k q holds front in
        let g : none ≡ some k' = sym f ∙ e in ground arith)
    go (x ∷ xs) front =
        let (j, f, runs) = sched_next_rr-Runs k q x xs holds front in
        let eight : total (update q h xs) ≡ 8 =
          omega (
            arith,
            total-update q h xs (source-IsHead (current k).nice q),
            ap length front,
            nine,
          ) in
        Runs-Orderly runs eight (sym e ∙ f)

-- The task that exits goes to the free ones, and another leaves its queue.
pub sys_exit-Orderly :
    (k k' : Kernel) (q : Queues) → IsOrderly k q → sys_exit k ≡ some k' → Orderly k'
unfolding set_links in_space set_task
sys_exit-Orderly k k' q is e =
    let is1 = nameless-IsOrderly k q is in
    let (m, f, holds) =
      update_process_state_rr-push (nameless k) q k.running freequeue is1.scheduled.holds
        is1.scheduled.out (omega arith) in
    next-Orderly (set_links m (nameless k)) k' (push_back q freequeue (node k.running)) holds
      (total-push_back q freequeue (node k.running) (omega arith) ∙ ap suc is.all)
      (sym (sys_exit-lists k m f) ∙ e)

-- ===== src/Sched/Policy/Turn.antt =====
-- `schedule` follows the policy.
use so2_soa_fib.Common.{
  ℕ, ◌≡◌, refl, sym, ap, subst, ◌∙◌, Bool, true, false, ◌&&◌, Option, none, some, ◌>>=◌, List, [],
  ◌∷◌, arith, is_empty, ◌==◌, if◌then◌else◌, pos, dec, is_pos, Bool-cases, inl, inr,
}
use so2_soa_fib.ListHead.{Ptr, Links, null}
use so2_soa_fib.ListHead.Queue.{list_empty-is_empty}
use so2_soa_fib.Kernel.{Kernel, current, readyqueue, priorityqueue, node}
use so2_soa_fib.Sched.{
  needs_sched_rr, update_process_state_rr, sched_next_rr, set_links, switch_tasks, schedule,
  update_sched_data_rr, count_trans,
}
use so2_soa_fib.Sched.Queues.{Queues, IsHead, Holds, Detached, push_back, list_add_tail-Holds}
use so2_soa_fib.Sched.Policy.{
  IsScheduled, home, source, Outcome, goes_on, renewed, gives_way, lost, take_from, policy, Runs,
}
use so2_soa_fib.Sched.Policy.Next.{sched_next_rr-Runs, sched_next_rr-none}

-- A task that is in no queue is put at the end of one.
pub update_process_state_rr-push :
    (k : Kernel) (q : Queues) (t h : ℕ)
    → Holds k.links q
    → Detached (node t) k.links q
    → IsHead h
    → (m : Links) × (update_process_state_rr t h k ≡ some (set_links m k))
      × Holds m (push_back q h (node t))
unfolding update_process_state_rr
update_process_state_rr-push k q t h holds out ih =
    let (m, e, holds') = list_add_tail-Holds h (node t) ih holds out in
    let null_h : (h == null) ≡ false = ground arith in
    (m, rw (out.prev_null, out.next_null, null_h, e), holds')

pub home-IsHead : (nice : ℕ) → IsHead (home nice)
home-IsHead nice = elim (Bool-cases (nice == 0)) [
  | inl high ↦ rw high (omega arith)
  | inr low ↦ rw low (omega arith)
]

-- What the result of a tick is, by the outcome that the policy names.
abbrev pub Follows : Kernel → Outcome → Option Kernel → Type 0
Follows k goes_on r = r ≡ some (update_sched_data_rr k)
Follows k renewed r = r ≡ some (count_trans (record k { quantum_ticks = pos (current k).quantum }))
Follows k (gives_way x q) r = (k' : Kernel) × (r ≡ some k') × Runs k x q k'
Follows k lost r = r ≡ none

Runs-set_links :
    (k : Kernel) (m : Links) (x : Ptr) (q : Queues) {k' : Kernel}
    → Runs (set_links m k) x q k'
    → Runs k x q k'
unfolding set_links
Runs-set_links k m x q r = record {
  scheduled = r.scheduled;
  chosen = r.chosen;
  ticks = r.ticks;
  stack = r.stack;
  directory = r.directory;
  same = r.same;
}

module _ (k : Kernel) (q : Queues) (is : IsScheduled k q) where
  switch_tasks-lists :
      (m : Links) (h : Ptr)
      → h ≡ home (current k).nice
      → update_process_state_rr k.running h k ≡ some (set_links m k)
      → switch_tasks k ≡ sched_next_rr (set_links m k)
  unfolding switch_tasks
  switch_tasks-lists m h e f =
      ap (λ (o : Option Kernel). o >>= sched_next_rr)
        (ap (λ j. update_process_state_rr k.running j k) (sym e) ∙ f)

  switch_tasks-Follows :
      let nice = (current k).nice in
      let q' = push_back q (home nice) (node k.running) in
      Follows k (take_from (source nice q') q' (q' (source nice q'))) (switch_tasks k)
  unfolding set_links take_from
  switch_tasks-Follows =
      let nice = (current k).nice in
      let q' = push_back q (home nice) (node k.running) in
      let (m, e, holds) =
        update_process_state_rr-push k q k.running (home nice) is.holds is.out (home-IsHead nice) in
      let s = switch_tasks-lists m (home nice) refl e in go m holds s (q' (source nice q')) refl
    where
      go :
          (m : Links)
          → let nice = (current k).nice in
            let q' = push_back q (home nice) (node k.running) in
            Holds m q'
            → switch_tasks k ≡ sched_next_rr (set_links m k)
            → (xs : List Ptr) → q' (source nice q') ≡ xs
            → Follows k (take_from (source nice q') q' xs) (switch_tasks k)
      go m holds s [] front = s ∙ sched_next_rr-none (set_links m k) _ holds front
      go m holds s (x ∷ xs) front =
          let (k', e, r) = sched_next_rr-Runs (set_links m k) _ x xs holds front in
          (k', s ∙ e, Runs-set_links k m x _ r)

  needs_sched_rr-lists : needs_sched_rr k ≡ (
      if is_pos k.quantum_ticks
      then some (false, k)
      else some (
          if is_empty (q readyqueue) && is_empty (q priorityqueue)
          then (false, count_trans (record k { quantum_ticks = pos (current k).quantum }))
          else (true, k)))
  unfolding needs_sched_rr
  needs_sched_rr-lists =
      let r = list_empty-is_empty (q readyqueue) (is.holds.queue readyqueue (omega arith)) in
      let p = list_empty-is_empty (q priorityqueue) (is.holds.queue priorityqueue (omega arith)) in
      rw (r, p)

-- The tick itself changes nothing that the queues or the policy look at.
ticked-IsScheduled :
    {k : Kernel} {q : Queues} → IsScheduled k q → IsScheduled (update_sched_data_rr k) q
unfolding update_sched_data_rr
ticked-IsScheduled is = record { holds = is.holds; out = is.out }

-- `schedule` after its test.
abbrev after_test : Bool × Kernel → Option Kernel
after_test (needed, k) = if needed then switch_tasks k else some k

schedule_of_needs :
    (k : Kernel) (needed : Bool) (k' : Kernel)
    → needs_sched_rr (update_sched_data_rr k) ≡ some (needed, k')
    → schedule k ≡ after_test (needed, k')
schedule_of_needs k needed k' e =
    unfold schedule in ap (λ (o : Option (Bool × Kernel)). o >>= after_test) e

Follows-ticked :
    (k : Kernel) (h : Ptr) (q : Queues) (xs : List Ptr) (r : Option Kernel)
    → Follows (update_sched_data_rr k) (take_from h q xs) r
    → Follows k (take_from h q xs) r
unfolding take_from update_sched_data_rr
Follows-ticked k h q [] r f = f
Follows-ticked k h q (x ∷ xs) r (k', e, runs) = (
  k',
  e,
  record {
    scheduled = runs.scheduled;
    chosen = runs.chosen;
    ticks = runs.ticks;
    stack = runs.stack;
    directory = runs.directory;
    same = runs.same;
  },
)

-- On a clock tick `schedule` does what the policy says of the lists in the queues: the running task
-- goes on while ticks are left; if no task waits it begins a new quantum; else it goes to the end
-- of the queue of its priority, and the first task of the queue that the policy names runs, out of
-- every queue, with its share of ticks, on its own stack and in its own address space, the other
-- queues and all the tasks' fields but their statistics unchanged; if that queue is empty, the code
-- fails.
pub schedule-Follows :
    (k : Kernel) (q : Queues)
    → IsScheduled k q
    → Follows k
        (policy (is_pos (dec k.quantum_ticks)) (current k).nice (node k.running) q)
        (schedule k)
unfolding policy update_sched_data_rr
schedule-Follows k q is =
    let k1 = update_sched_data_rr k in
    let is1 = ticked-IsScheduled is in
    let needs = needs_sched_rr-lists k1 q is1 in
    elim (Bool-cases (is_pos (dec k.quantum_ticks))) [
      | inl left ↦ rw left (schedule_of_needs k false k1 (needs ∙ rw left))
      | inr over ↦ elim (Bool-cases (is_empty (q readyqueue) && is_empty (q priorityqueue))) [
        | inl alone ↦ rw (over, alone) (schedule_of_needs k false _ (needs ∙ rw (over, alone)))
        | inr waiting ↦
            let s = schedule_of_needs k true k1 (needs ∙ rw (over, waiting)) in
            rw (over, waiting)
              (Follows-ticked k _ _ _ (schedule k)
                (subst (Follows k1 _) (sym s) (switch_tasks-Follows k1 q is1)))
      ]
    ]

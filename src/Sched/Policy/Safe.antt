-- ===== src/Sched/Policy/Safe.antt =====
-- When `schedule` fails, and that otherwise the queues and the running task stay in order.
use so2_soa_fib.Common.{
  ℕ, ◌≡◌, ◌≢◌, ◌⊎◌, inl, inr, refl, subst, Bool, true, false, ◌&&◌, Option, none, some, List, [],
  ◌∷◌, ◌++◌, arith, is_empty, ◌==◌, update, dec, pos, is_pos, Bool-cases,
}
use so2_soa_fib.ListHead.{Ptr}
use so2_soa_fib.Kernel.{Kernel, current, readyqueue, priorityqueue, node}
use so2_soa_fib.Sched.{schedule, update_sched_data_rr, count_trans}
use so2_soa_fib.Sched.Queues.{Queues, push_back}
use so2_soa_fib.Sched.Policy.{IsScheduled, home, source, lost, take_from, policy}
use so2_soa_fib.Sched.Policy.Turn.{Follows, schedule-Follows}

nonempty_cons : (xs : List Ptr) → xs ≢ [] → (x : Ptr) × (ys : List Ptr) × (xs ≡ x ∷ ys)
nonempty_cons [] n = absurd (n refl)
nonempty_cons (x ∷ xs) n = (x, xs, refl)

nonempty_of_is_empty :
    (xs : List Ptr) → is_empty xs ≡ false → (x : Ptr) × (ys : List Ptr) × (xs ≡ x ∷ ys)
nonempty_of_is_empty [] e = absurd (ground arith)
nonempty_of_is_empty (x ∷ xs) e = (x, xs, refl)

snoc_cons : (xs : List Ptr) (a : Ptr) → (x : Ptr) × (ys : List Ptr) × (xs ++ a ∷ [] ≡ x ∷ ys)
snoc_cons [] a = (a, [], refl)
snoc_cons (x ∷ xs) a = (x, xs ++ a ∷ [], refl)

policy-lost :
    (left : Bool) (nice : ℕ) (task : Ptr) (q : Queues) (x : Ptr) (xs : List Ptr)
    → left ≡ false
    → nice ≡ 0
    → q readyqueue ≡ []
    → q priorityqueue ≡ x ∷ xs
    → policy left nice task q ≡ lost
unfolding policy update
policy-lost left nice task q x xs over high empty waiting = rw (over, high, empty, waiting)

-- A task of high priority whose quantum ends while only tasks of high priority wait makes
-- `schedule` fail: it looks for the next one in the other queue, which is empty.
pub schedule-none :
    (k : Kernel) (q : Queues) (x : Ptr) (xs : List Ptr)
    → IsScheduled k q
    → is_pos (dec k.quantum_ticks) ≡ false
    → (current k).nice ≡ 0
    → q readyqueue ≡ []
    → q priorityqueue ≡ x ∷ xs
    → schedule k ≡ none
schedule-none k q x xs is over high empty waiting =
    subst (λ o. Follows k o (schedule k))
      (policy-lost _ _ (node k.running) q x xs over high empty waiting) (schedule-Follows k q is)

-- The queue from which the next task is taken is not empty, if the running task has low priority or
-- one of low priority waits.
source-nonempty :
    (nice : ℕ) (task : Ptr) (q : Queues)
    → (nice ≢ 0) ⊎ (q readyqueue ≢ [])
    → let q' = push_back q (home nice) task in
      (x : Ptr) × (xs : List Ptr) × (q' (source nice q') ≡ x ∷ xs)
unfolding update
source-nonempty nice task q (inl low) =
    let n : (nice == 0) ≡ false = ground arith in
    rw n (elim (Bool-cases (is_empty (q priorityqueue))) [
      | inl none_high ↦ rw none_high (snoc_cons (q readyqueue) task)
      | inr some_high ↦ rw some_high (nonempty_of_is_empty (q priorityqueue) some_high)
    ])
source-nonempty nice task q (inr waits) = elim (Bool-cases (nice == 0)) [
  | inl high ↦ rw high (nonempty_cons (q readyqueue) waits)
  | inr low ↦ rw low (elim (Bool-cases (is_empty (q priorityqueue))) [
    | inl none_high ↦ rw none_high (snoc_cons (q readyqueue) task)
    | inr some_high ↦ rw some_high (nonempty_of_is_empty (q priorityqueue) some_high)
  ])
]

-- A result that leaves the queues and the running task in order.
abbrev pub Safe : Option Kernel → Type 0
Safe r = (k' : Kernel) × (q' : Queues) × (r ≡ some k') × IsScheduled k' q'

ticked-Safe :
    (k : Kernel) (q : Queues)
    → IsScheduled k q
    → (IsScheduled (update_sched_data_rr k) q)
      × IsScheduled (count_trans (record k { quantum_ticks = pos (current k).quantum })) q
unfolding update_sched_data_rr count_trans
ticked-Safe k q is =
    (record { holds = is.holds; out = is.out }, record { holds = is.holds; out = is.out })

Follows-Safe :
    (k : Kernel) (q : Queues) (left : Bool)
    → IsScheduled k q
    → ((current k).nice ≢ 0) ⊎ (q readyqueue ≢ [])
    → Follows k (policy left (current k).nice (node k.running) q) (schedule k)
    → Safe (schedule k)
unfolding policy
Follows-Safe k q true is safe f = (update_sched_data_rr k, q, f, (ticked-Safe k q is).0)
Follows-Safe k q false is safe f =
    elim (Bool-cases (is_empty (q readyqueue) && is_empty (q priorityqueue))) [
      | inl alone ↦
          let g : schedule k
              ≡ some (count_trans (record k { quantum_ticks = pos (current k).quantum })) =
            rw alone at f in
          (_, q, g, (ticked-Safe k q is).1)
      | inr waiting ↦
          let (x, xs, front) = source-nonempty (current k).nice (node k.running) q safe in
          runs x xs front (rw waiting at f)
    ]
  where
    took :
        (h : Ptr) (p : Queues) (x : Ptr) (xs : List Ptr)
        → Follows k (take_from h p (x ∷ xs)) (schedule k)
        → Safe (schedule k)
    took h p x xs (k', e, r) = (k', update p h xs, e, r.scheduled)

    runs :
        (x : Ptr) (xs : List Ptr)
        → let q' = push_back q (home (current k).nice) (node k.running) in
          let h = source (current k).nice q' in
          q' h ≡ x ∷ xs → Follows k (take_from h q' (q' h)) (schedule k) → Safe (schedule k)
    runs x xs front g =
        let q' = push_back q (home (current k).nice) (node k.running) in
        let h = source (current k).nice q' in
        took h q' x xs (subst (λ ys. Follows k (take_from h q' ys) (schedule k)) front g)

-- If the running task has low priority, or one of low priority waits, `schedule` does not fail, and
-- after it the queues are three lists of tasks' nodes with no node in two of them, and the running
-- task is in none.
pub schedule-IsScheduled :
    (k : Kernel) (q : Queues)
    → IsScheduled k q
    → ((current k).nice ≢ 0) ⊎ (q readyqueue ≢ [])
    → Safe (schedule k)
schedule-IsScheduled k q is safe = Follows-Safe k q _ is safe (schedule-Follows k q is)

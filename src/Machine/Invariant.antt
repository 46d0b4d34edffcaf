-- ===== src/Machine/Invariant.antt =====
-- The order that every entry into the kernel keeps.
use so2_soa_fib.Common.{
  some-injective, ℕ, zero, suc, ◌+◌, ◌≡◌, refl, sym, ap, ◌∙◌, subst, Bool, true, false, ◌&&◌, some,
  List, [], ◌∷◌, ◌++◌, arith, length, length-append, is_empty, update, Bool-cases, inl, inr,
}
use so2_soa_fib.ListHead.{Ptr}
use so2_soa_fib.Kernel.{Kernel, freequeue, readyqueue, priorityqueue, node}
use so2_soa_fib.Sched.{schedule, update_sched_data_rr, count_trans}
use so2_soa_fib.Sched.Queues.{Queues, IsHead, Holds, Detached, push_back}
use so2_soa_fib.Sched.Policy.{
  IsScheduled, home, source, Outcome, goes_on, renewed, gives_way, lost, take_from, policy, Runs,
}
use so2_soa_fib.Sched.Policy.Turn.{Follows, schedule-Follows, home-IsHead}
use so2_soa_fib.Sched.Policy.Next.{source-IsHead}

-- How many tasks are in the queues.
unfoldable pub total : Queues → ℕ
total q = length (q freequeue) + length (q readyqueue) + length (q priorityqueue)

-- The queues are three lists of tasks' nodes with no node in two of them, eight in all, and the
-- running task is in none.
pub record IsOrderly (k : Kernel) (q : Queues) : Type 0 where
  pub scheduled : IsScheduled k q
  pub all : total q ≡ 8

pub total-update :
    (q : Queues) (h : Ptr) (ys : List Ptr)
    → IsHead h
    → total (update q h ys) + length (q h) ≡ total q + length ys
unfolding total update
total-update q zero ys ih = absurd (omega arith)
total-update q (suc zero) ys ih = omega arith
total-update q (suc (suc zero)) ys ih = omega arith
total-update q (suc (suc (suc zero))) ys ih = omega arith
total-update q (suc (suc (suc (suc h)))) ys ih = absurd (omega arith)

pub total-push_back : (q : Queues) (h x : Ptr) → IsHead h → total (push_back q h x) ≡ suc (total q)
total-push_back q h x ih =
    omega (arith, total-update q h (q h ++ x ∷ []) ih, length-append (q h) (x ∷ []))

pub take_from-total :
    (h x : Ptr) (q q' : Queues) (ys : List Ptr)
    → IsHead h
    → q h ≡ ys
    → take_from h q ys ≡ gives_way x q'
    → suc (total q') ≡ total q
unfolding take_from
take_from-total h x q q' [] ih e t = absurd (ground arith)
take_from-total h x q q' (y ∷ ys) ih e t =
    let s : update q h ys ≡ q' = cc in
    subst (λ p. suc (total p) ≡ total q) s (omega (arith, total-update q h ys ih, ap length e))

policy-total :
    (more : Bool) (nice : ℕ) (task x : Ptr) (q q' : Queues)
    → policy more nice task q ≡ gives_way x q'
    → total q' ≡ total q
unfolding policy
policy-total true nice task x q q' e = absurd (ground arith)
policy-total false nice task x q q' e =
    elim (Bool-cases (is_empty (q readyqueue) && is_empty (q priorityqueue))) [
      | inl alone ↦ let f : renewed ≡ gives_way x q' = rw alone at e in absurd (ground arith)
      | inr waits ↦
          let p = push_back q (home nice) task in
          let f : take_from (source nice p) p (p (source nice p)) ≡ gives_way x q' =
            rw waits at e in
          omega (
            arith,
            take_from-total (source nice p) x p q' (p (source nice p)) (source-IsHead nice p) refl
                f,
            total-push_back q (home nice) task (home-IsHead nice),
          )
    ]

-- What leaves the links and the running task alone keeps the order.
pub same-IsOrderly :
    {k : Kernel} {q : Queues} (k' : Kernel)
    → k'.links ≡ k.links
    → k'.running ≡ k.running
    → IsOrderly k q
    → IsOrderly k' q
same-IsOrderly {k} {q} k' l r o = record {
  scheduled = record {
    holds = subst (λ m. Holds m q) (sym l) o.scheduled.holds;
    out =
        subst (λ m. Detached (node k'.running) m q) (sym l)
          (subst (λ t. Detached (node t) k.links q) (sym r) o.scheduled.out);
  };
  all = o.all;
}

-- Where the code comes to a state, it is in order with some queues.
pub data Orderly (k : Kernel) : Type 0 where
  orderly : (q : Queues) → IsOrderly k q → Orderly k

-- What `Runs` says, of the state that the code returns.
pub Runs-Orderly :
    {k k' j : Kernel} {x : Ptr} {q' : Queues}
    → Runs k x q' j
    → total q' ≡ 8
    → some k' ≡ some j
    → Orderly k'
Runs-Orderly {q' = q'} r all e =
    subst Orderly (sym (some-injective e))
      (orderly q' (record { scheduled = r.scheduled; all = all }))

Follows-Orderly :
    (k k' : Kernel) (q : Queues) (o : Outcome)
    → IsOrderly k q
    → ((x : Ptr) (q' : Queues) → o ≡ gives_way x q' → total q' ≡ total q)
    → Follows k o (some k')
    → Orderly k'
unfolding update_sched_data_rr count_trans
Follows-Orderly k k' q goes_on is keep f =
    subst Orderly (sym (some-injective f)) (orderly q (same-IsOrderly _ refl refl is))
Follows-Orderly k k' q renewed is keep f =
    subst Orderly (sym (some-injective f)) (orderly q (same-IsOrderly _ refl refl is))
Follows-Orderly k k' q (gives_way x q') is keep (j, e, r) =
    Runs-Orderly r (keep x q' refl ∙ is.all) e
Follows-Orderly k k' q lost is keep f = absurd (ground arith)

-- `schedule` keeps the order.
pub schedule-Orderly :
    (k k' : Kernel) (q : Queues) → IsOrderly k q → schedule k ≡ some k' → Orderly k'
schedule-Orderly k k' q is e =
    Follows-Orderly k k' q _ is (λ x q' p. policy-total _ _ _ x q q' p)
      (subst (Follows k _) e (schedule-Follows k q is.scheduled))

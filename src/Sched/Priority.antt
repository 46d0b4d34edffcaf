-- ===== src/Sched/Priority.antt =====
-- A turn, by the priority of the task that runs.
use so2_soa_fib.Common.{
  ℕ, ◌-◌, ◌≡◌, ◌≢◌, refl, sym, ap, subst, ◌∙◌, arith, true, false, ◌&&◌, some, List, [], ◌∷◌, ◌++◌,
  is_empty, ◌==◌, ==→eq, update,
}
use so2_soa_fib.ListHead.{Ptr}
use so2_soa_fib.Kernel.{Kernel, current, readyqueue, priorityqueue, node}
use so2_soa_fib.Sched.Queues.{Queues, push_back}
use so2_soa_fib.Sched.Policy.{IsScheduled, source}
use so2_soa_fib.Sched.Turns.{turn, joined, Turned, turn-Turned}

-- Every task of a list has a low priority, or a high one.
abbrev pub AllLow : Kernel → List Ptr → Type 0
AllLow k [] = Unit
AllLow k (x ∷ xs) = ((k.task (x - 4)).nice ≢ 0) × AllLow k xs

abbrev pub AllHigh : Kernel → List Ptr → Type 0
AllHigh k [] = Unit
AllHigh k (x ∷ xs) = ((k.task (x - 4)).nice ≡ 0) × AllHigh k xs

-- The tasks that wait, and the one that runs, by their priority.
pub record ByPriority (k : Kernel) (q : Queues) : Type 0 where
  pub scheduled : IsScheduled k q
  pub low : AllLow k (q readyqueue)
  pub high : AllHigh k (q priorityqueue)

AllLow-same :
    (k k' : Kernel) (xs : List Ptr)
    → ((i : ℕ) → (k'.task i).nice ≡ (k.task i).nice)
    → AllLow k xs
    → AllLow k' xs
AllLow-same k k' [] same a = tt
AllLow-same k k' (x ∷ xs) same a = (λ e. a.0 (sym (same (x - 4)) ∙ e), AllLow-same k k' xs same a.1)

AllHigh-same :
    (k k' : Kernel) (xs : List Ptr)
    → ((i : ℕ) → (k'.task i).nice ≡ (k.task i).nice)
    → AllHigh k xs
    → AllHigh k' xs
AllHigh-same k k' [] same a = tt
AllHigh-same k k' (x ∷ xs) same a = (same (x - 4) ∙ a.0, AllHigh-same k k' xs same a.1)

AllLow-snoc :
    (k : Kernel) (xs : List Ptr) (x : Ptr)
    → AllLow k xs
    → (k.task (x - 4)).nice ≢ 0
    → AllLow k (xs ++ x ∷ [])
AllLow-snoc k [] x a l = (l, tt)
AllLow-snoc k (y ∷ ys) x a l = (a.0, AllLow-snoc k ys x a.1 l)

AllHigh-snoc :
    (k : Kernel) (xs : List Ptr) (x : Ptr)
    → AllHigh k xs
    → (k.task (x - 4)).nice ≡ 0
    → AllHigh k (xs ++ x ∷ [])
AllHigh-snoc k [] x a l = (l, tt)
AllHigh-snoc k (y ∷ ys) x a l = (a.0, AllHigh-snoc k ys x a.1 l)

-- The task of node `x` runs after a turn, and `q'` is what waits.
pub record Next (k : Kernel) (x : Ptr) (q' : Queues) : Type 0 where
  pub after : Kernel
  pub turned : turn k ≡ some after
  pub by : ByPriority after q'
  pub chosen : node after.running ≡ x
  pub nice : (current after).nice ≡ (k.task (x - 4)).nice

Turned-Next :
    (k k' : Kernel) (q q' : Queues) (x : Ptr) (xs : List Ptr)
    → turn k ≡ some k'
    → Turned k q x xs k'
    → update (joined k q) (source (current k).nice (joined k q)) xs ≡ q'
    → AllLow k (q' readyqueue)
    → AllHigh k (q' priorityqueue)
    → Next k x q'
Turned-Next k k' q q' x xs e t same low high = record {
  after = k';
  turned = e;
  by = record {
    scheduled = subst (IsScheduled k') same t.scheduled;
    low = AllLow-same k k' (q' readyqueue) t.same_nice low;
    high = AllHigh-same k k' (q' priorityqueue) t.same_nice high;
  };
  chosen = t.chosen;
  nice =
      t.same_nice k'.running
      ∙ ap (λ i. (k.task i).nice)
          (let place : k'.running ≡ x - 4 = omega (arith, t.chosen) in place);
}

waits_ready :
    (q : Queues) (x : Ptr) (xs : List Ptr)
    → q readyqueue ≡ x ∷ xs
    → (is_empty (q readyqueue) && is_empty (q priorityqueue)) ≡ false
waits_ready q x xs e = rw e refl

waits_priority :
    (q : Queues) (x : Ptr) (xs : List Ptr)
    → q priorityqueue ≡ x ∷ xs
    → (is_empty (q readyqueue) && is_empty (q priorityqueue)) ≡ false
waits_priority q x xs e = rw e (ground arith)

absurd_low : {n : ℕ} → (n == 0) ≡ false → n ≢ 0
absurd_low low e = ground arith

own_nice : (k : Kernel) → (k.task (node k.running - 4)).nice ≡ (current k).nice
own_nice k =
    let place : node k.running - 4 ≡ k.running = omega arith in ap (λ i. (k.task i).nice) place

module _ (k : Kernel) (q : Queues) (is : ByPriority k q) (x : Ptr) (xs : List Ptr) where
  -- The running task has high priority: the first one that is ready runs.
  pub high_turn :
      ((current k).nice == 0) ≡ true
      → q readyqueue ≡ x ∷ xs
      → Next k x (update (push_back q priorityqueue (node k.running)) readyqueue xs)
  unfolding update
  high_turn high front =
      let (k', e, t) =
        turn-Turned q x xs (waits_ready q x xs front) k is.scheduled (rw high front) in
      Turned-Next k k' q _ x xs e t (rw high refl) (subst (AllLow k) front is.low).1 (
        AllHigh-snoc k (q priorityqueue) (node k.running) is.high
          (own_nice k ∙ ==→eq (current k).nice 0 high))

  -- It has low priority, and a task of high priority waits.
  pub low_turn :
      ((current k).nice == 0) ≡ false
      → q priorityqueue ≡ x ∷ xs
      → Next k x (update (push_back q readyqueue (node k.running)) priorityqueue xs)
  unfolding update
  low_turn low front =
      let (k', e, t) =
        turn-Turned q x xs (waits_priority q x xs front) k is.scheduled (rw (low, front) front) in
      Turned-Next k k' q _ x xs e t (rw (low, front) refl)
        (AllLow-snoc k (q readyqueue) (node k.running) is.low
          (λ e. absurd_low low (sym (own_nice k) ∙ e)))
        (subst (AllHigh k) front is.high).1

  -- It has low priority, and none of high priority waits.
  pub equal_turn :
      ((current k).nice == 0) ≡ false
      → q priorityqueue ≡ []
      → q readyqueue ≡ x ∷ xs
      → Next k x
          (update (push_back q readyqueue (node k.running)) readyqueue (xs ++ node k.running ∷ []))
  unfolding update
  equal_turn low none_high front =
      let (k', e, t) =
        turn-Turned q x (xs ++ node k.running ∷ []) (waits_ready q x xs front) k is.scheduled
          (rw (low, none_high) (ap (λ ys. ys ++ node k.running ∷ []) front)) in
      Turned-Next k k' q _ x (xs ++ node k.running ∷ []) e t (rw (low, none_high) refl)
        (AllLow-snoc k xs (node k.running) (subst (AllLow k) front is.low).1
          (λ e. absurd_low low (sym (own_nice k) ∙ e)))
        is.high

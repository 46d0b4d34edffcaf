-- ===== src/Sched/Fair.antt =====
-- No task that is ready waits for ever.
use so2_soa_fib.Common.{
  ℕ, suc, ◌+◌, ◌*◌, ◌≤◌, ◌<◌, ◌≡◌, ◌≢◌, refl, sym, ap, subst, ◌∙◌, arith, true, false, some, List,
  [], ◌∷◌, ◌++◌, length, ◌==◌, ==→eq, update, Bool-cases, inl, inr,
}
use mathlib.Core.List.{append_assoc}
use so2_soa_fib.ListHead.{Ptr}
use so2_soa_fib.Kernel.{Kernel, current, readyqueue, priorityqueue, node}
use so2_soa_fib.Sched.Queues.{Queues}
use so2_soa_fib.Sched.Turns.{turn, turns}
use so2_soa_fib.Sched.Priority.{AllLow, AllHigh, ByPriority, Next, high_turn, low_turn, equal_turn}

not_zero : {n : ℕ} → n ≢ 0 → (n == 0) ≡ false
not_zero {n} h = elim (Bool-cases (n == 0)) [
  | inl zeroed ↦ absurd (h (==→eq n 0 zeroed))
  | inr differs ↦ differs
]

-- Task `x` runs after at most `t` turns.
abbrev pub Comes : Ptr → ℕ → Kernel → Type 0
Comes x t k = (n : ℕ) × (k' : Kernel) × (n ≤ t) × (turns n k ≡ some k') × (node k'.running ≡ x)

Comes-now :
    {x : Ptr} (k k' : Kernel) (t : ℕ) → turn k ≡ some k' → node k'.running ≡ x → Comes x (suc t) k
unfolding turns
Comes-now k k' t e chosen = (1, k', omega arith, rw e refl, chosen)

Comes-later :
    {x : Ptr} (k j : Kernel) (t t' : ℕ) → turn k ≡ some j → t < t' → Comes x t j → Comes x t' k
unfolding turns
Comes-later k j t t' e lt (n, k', le, f, chosen) = (suc n, k', omega arith, rw e f, chosen)

-- From any state in which `ys` are ready in front of `x`, by the priority of the running task.
abbrev HighComes : Ptr → List Ptr → Type 0
HighComes x ys =
    (zs : List Ptr) (k : Kernel) (q : Queues)
    → ByPriority k q
    → ((current k).nice == 0) ≡ true
    → q readyqueue ≡ ys ++ x ∷ zs
    → Comes x (2 * length ys + 1) k

abbrev LowComes : Ptr → List Ptr → Type 0
LowComes x ys =
    (zs : List Ptr) (k : Kernel) (q : Queues)
    → ByPriority k q
    → ((current k).nice == 0) ≡ false
    → q readyqueue ≡ ys ++ x ∷ zs
    → Comes x (2 * length ys + 2) k

-- The priority of the task that runs after a turn, from that of the list it came from.
first_low :
    {k : Kernel} {x : Ptr} {q' : Queues} (xs : List Ptr) (n : Next k x q')
    → AllLow k (x ∷ xs)
    → ((current n.after).nice == 0) ≡ false
first_low xs n a = not_zero (λ e. a.0 (sym n.nice ∙ e))

first_high :
    {k : Kernel} {x : Ptr} {q' : Queues} (xs : List Ptr) (n : Next k x q')
    → AllHigh k (x ∷ xs)
    → ((current n.after).nice == 0) ≡ true
first_high xs n a = ap (λ m. m == 0) (n.nice ∙ a.0)

high_first : (x : Ptr) → HighComes x []
high_first x zs k q is high front =
    let n = high_turn k q is x zs high front in Comes-now k n.after 0 n.turned n.chosen

high_next : (x y : Ptr) (ys : List Ptr) → LowComes x ys → HighComes x (y ∷ ys)
unfolding update
high_next x y ys low zs k q is high front =
    let n = high_turn k q is y (ys ++ x ∷ zs) high front in
    let l = first_low (ys ++ x ∷ zs) n (subst (AllLow k) front is.low) in
    Comes-later k n.after (2 * length ys + 2) _ n.turned (omega arith)
      (low zs n.after _ n.by l refl)

-- With a task of high priority in front.
low_high :
    (x y : Ptr) (ys ps : List Ptr)
    → HighComes x ys
    → (zs : List Ptr) (k : Kernel) (q : Queues) → ByPriority k q
    → ((current k).nice == 0) ≡ false
    → q priorityqueue ≡ y ∷ ps
    → q readyqueue ≡ ys ++ x ∷ zs
    → Comes x (2 * length ys + 2) k
unfolding update
low_high x y ys ps high zs k q is low first front =
    let n = low_turn k q is y ps low first in
    let h = first_high ps n (subst (AllHigh k) first is.high) in
    Comes-later k n.after (2 * length ys + 1) _ n.turned (omega arith) (
      high (zs ++ node k.running ∷ []) n.after _ n.by h
        (ap (λ l. l ++ node k.running ∷ []) front ∙ append_assoc ys (x ∷ zs) (node k.running ∷ [])))

low_first : (x : Ptr) → HighComes x [] → LowComes x []
low_first x high zs k q is low front = go (q priorityqueue) refl
  where
    go : (ps : List Ptr) → q priorityqueue ≡ ps → Comes x 2 k
    go [] none_high =
        let n = equal_turn k q is x zs low none_high front in
        Comes-now k n.after 1 n.turned n.chosen
    go (y ∷ ps) first = low_high x y [] ps high zs k q is low first front

low_next : (x y : Ptr) (ys : List Ptr) → HighComes x (y ∷ ys) → LowComes x ys → LowComes x (y ∷ ys)
unfolding update
low_next x y ys high rest zs k q is low front = go (q priorityqueue) refl
  where
    go : (ps : List Ptr) → q priorityqueue ≡ ps → Comes x (2 * length (y ∷ ys) + 2) k
    go [] none_high =
        let n = equal_turn k q is y (ys ++ x ∷ zs) low none_high front in
        let l = first_low (ys ++ x ∷ zs) n (subst (AllLow k) front is.low) in
        Comes-later k n.after (2 * length ys + 2) _ n.turned (omega arith) (
          rest (zs ++ node k.running ∷ []) n.after _ n.by l
            (append_assoc ys (x ∷ zs) (node k.running ∷ [])))
    go (p ∷ ps) first = low_high x p (y ∷ ys) ps high zs k q is low first front

comes : (x : Ptr) (ys : List Ptr) → HighComes x ys × LowComes x ys
comes x [] = (high_first x, low_first x (high_first x))
comes x (y ∷ ys) =
    let (high, low) = comes x ys in
    let high' = high_next x y ys low in (high', low_next x y ys high' low)

-- With the queues in order and the tasks in them by their priority, a ready task of low priority runs
-- after at most two turns more than twice the number of the tasks in front of it, whatever tasks of
-- high priority wait: the code does not fail before.
pub turns-Comes :
    (x : Ptr) (ys zs : List Ptr) (k : Kernel) (q : Queues)
    → ByPriority k q
    → q readyqueue ≡ ys ++ x ∷ zs
    → Comes x (2 * length ys + 2) k
turns-Comes x ys zs k q is front = elim (Bool-cases ((current k).nice == 0)) [
  | inl high ↦
      let (n, k', le, e, chosen) = (comes x ys).0 zs k q is high front in
      (n, k', omega arith, e, chosen)
  | inr low ↦ (comes x ys).1 zs k q is low front
]

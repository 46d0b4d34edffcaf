-- ===== src/Sched/Turns.antt =====
-- The clock ticks on while the tasks take turns.
use so2_soa_fib.Common.{
  ℕ, zero, suc, ◌≡◌, refl, ap, subst, ◌∙◌, true, false, ◌&&◌, Option, some, ◌>>=◌, List, ◌∷◌,
  is_empty, update, ℤ, pos, negsuc, dec, is_pos,
}
use so2_soa_fib.ListHead.{Ptr}
use so2_soa_fib.Kernel.{Kernel, current, readyqueue, priorityqueue, node}
use so2_soa_fib.Sched.{schedule, update_sched_data_rr}
use so2_soa_fib.Sched.Queues.{Queues, push_back}
use so2_soa_fib.Sched.Policy.{IsScheduled, home, source, take_from, policy}
use so2_soa_fib.Sched.Policy.Turn.{Follows, schedule-Follows}

-- `n` ticks of the clock.
unfoldable pub ticks : ℕ → Kernel → Option Kernel
ticks zero k = some k
ticks (suc n) k = do k ← schedule k; ticks n k

-- The ticks up to the one at which the quantum is over.
abbrev pub quantum_left : ℤ → ℕ
quantum_left (pos (suc m)) = suc m
quantum_left (pos zero) = 1
quantum_left (negsuc m) = 1

-- The rest of the running task's quantum, and `n` such turns.
unfoldable pub turn : Kernel → Option Kernel
unfolding ticks
turn k = ticks (quantum_left k.quantum_ticks) k

unfoldable pub turns : ℕ → Kernel → Option Kernel
turns zero k = some k
turns (suc n) k = do k ← turn k; turns n k

-- The queues with the running task behind those like it.
abbrev pub joined : Kernel → Queues → Queues
joined k q = push_back q (home (current k).nice) (node k.running)

-- What a turn leads to: the first task of the queue that the policy names runs.
pub record Turned (k : Kernel) (q : Queues) (x : Ptr) (xs : List Ptr) (k' : Kernel) : Type 0 where
  pub scheduled : IsScheduled k' (update (joined k q) (source (current k).nice (joined k q)) xs)
  pub chosen : node k'.running ≡ x
  pub same_nice : (i : ℕ) → (k'.task i).nice ≡ (k.task i).nice

turn-ticks : (k : Kernel) (t : ℤ) → k.quantum_ticks ≡ t → turn k ≡ ticks (quantum_left t) k
unfolding turn
turn-ticks k t e = ap (λ r. ticks (quantum_left r) k) e

module _ (q : Queues) (x : Ptr) (xs : List Ptr)
    (waits : (is_empty (q readyqueue) && is_empty (q priorityqueue)) ≡ false) where
  -- The last tick of a quantum.
  last_tick :
      (k : Kernel)
      → IsScheduled k q
      → joined k q (source (current k).nice (joined k q)) ≡ x ∷ xs
      → is_pos (dec k.quantum_ticks) ≡ false
      → (k' : Kernel) × (schedule k ≡ some k') × Turned k q x xs k'
  unfolding policy take_from
  last_tick k is front over =
      let h = source (current k).nice (joined k q) in
      let f : Follows k (take_from h (joined k q) (joined k q h)) (schedule k) =
        rw (over, waits) at (schedule-Follows k q is) in
      let g : Follows k (take_from h (joined k q) (x ∷ xs)) (schedule k) =
        subst (λ ys. Follows k (take_from h (joined k q) ys) (schedule k)) front f in
      let (k', e, r) = g in
      (k', e, record { scheduled = r.scheduled; chosen = r.chosen; same_nice = λ i. (r.same i).3 })

  -- A tick while the quantum lasts.
  other_tick :
      (k : Kernel)
      → IsScheduled k q
      → is_pos (dec k.quantum_ticks) ≡ true
      → schedule k ≡ some (update_sched_data_rr k)
  unfolding policy
  other_tick k is left = rw left at (schedule-Follows k q is)

  one_tick :
      (k : Kernel)
      → IsScheduled k q
      → joined k q (source (current k).nice (joined k q)) ≡ x ∷ xs
      → is_pos (dec k.quantum_ticks) ≡ false
      → (k' : Kernel) × (ticks 1 k ≡ some k') × Turned k q x xs k'
  unfolding ticks
  one_tick k is front over = let (k', e, t) = last_tick k is front over in (k', rw e refl, t)

  all_ticks :
      (m : ℕ) (k : Kernel)
      → k.quantum_ticks ≡ pos (suc m)
      → IsScheduled k q
      → joined k q (source (current k).nice (joined k q)) ≡ x ∷ xs
      → (k' : Kernel) × (ticks (suc m) k ≡ some k') × Turned k q x xs k'
  unfolding ticks update_sched_data_rr
  all_ticks zero k e is front = one_tick k is front (rw e refl)
  all_ticks (suc m) k e is front =
      let k1 = update_sched_data_rr k in
      let is1 : IsScheduled k1 q = record { holds = is.holds; out = is.out } in
      let first : schedule k ≡ some k1 = other_tick k is (rw e refl) in
      let (k', f, t) = all_ticks m k1 (rw e refl) is1 front in
      (
        k',
        rw first f,
        record { scheduled = t.scheduled; chosen = t.chosen; same_nice = t.same_nice },
      )

  -- A turn ends with the switch to the task that the policy names.
  pub turn-Turned :
      (k : Kernel)
      → IsScheduled k q
      → joined k q (source (current k).nice (joined k q)) ≡ x ∷ xs
      → (k' : Kernel) × (turn k ≡ some k') × Turned k q x xs k'
  turn-Turned k is front = go k.quantum_ticks refl
    where
      go : (t : ℤ) → k.quantum_ticks ≡ t → (k' : Kernel) × (turn k ≡ some k') × Turned k q x xs k'
      go (pos (suc m)) e =
          let (k', f, t) = all_ticks m k e is front in (k', turn-ticks k (pos (suc m)) e ∙ f, t)
      go (pos zero) e =
          let (k', f, t) = one_tick k is front (rw e refl) in (k', turn-ticks k (pos zero) e ∙ f, t)
      go (negsuc m) e =
          let (k', f, t) = one_tick k is front (rw e refl) in (k', turn-ticks k (negsuc m) e ∙ f, t)

-- ===== src/Syscalls/Stats.antt =====
-- The task that `sys_get_stats` finds.
use so2_soa_fib.Common.{
  ℕ, zero, suc, ◌+◌, ◌≤◌, ◌<◌, ◌≡◌, true, false, Option, none, some, arith, ℤ, eq_ℤ, Bool-cases,
  inl, inr, ◌==◌, ==→eq, sym, subst,
}
use so2_soa_fib.Kernel.{Kernel}
use so2_soa_fib.Syscalls.{get_task_loop, get_task}

-- The result of a search for a task from `i` on and below `last`: the first one with the
-- identifier, or none.
pub data Found (pid : ℤ) (k : Kernel) (i last : ℕ) : Option ℕ → Type 0 where
  found :
      (t : ℕ)
      → i ≤ t
      → t < last
      → eq_ℤ (k.task t).pid pid ≡ true
      → ((j : ℕ) → i ≤ j → j < t → eq_ℤ (k.task j).pid pid ≡ false)
      → Found pid k i last (some t)
  missing : ((j : ℕ) → i ≤ j → j < last → eq_ℤ (k.task j).pid pid ≡ false) → Found pid k i last none

not_found_before :
    (pid : ℤ) (k : Kernel) (i j : ℕ)
    → eq_ℤ (k.task i).pid pid ≡ false
    → i ≤ j
    → (i < j → eq_ℤ (k.task j).pid pid ≡ false)
    → eq_ℤ (k.task j).pid pid ≡ false
not_found_before pid k i j here low later = elim (Bool-cases (j == i)) [
  | inl same ↦ subst (λ t. eq_ℤ (k.task t).pid pid ≡ false) (sym (==→eq j i same)) here
  | inr differs ↦ later (ground arith)
]

Found-before :
    (pid : ℤ) (k : Kernel) (i last : ℕ) {r : Option ℕ}
    → eq_ℤ (k.task i).pid pid ≡ false
    → Found pid k (suc i) last r
    → Found pid k i last r
Found-before pid k i last here (found t low high same first) =
    found t (omega arith) high same
      (λ j lj hj. not_found_before pid k i j here lj (λ l. first j (omega arith) hj))
Found-before pid k i last here (missing m) =
    missing (λ j lj hj. not_found_before pid k i j here lj (λ l. m j (omega arith) hj))

get_task_loop-Found :
    (n i : ℕ) (pid : ℤ) (k : Kernel) → Found pid k i (i + n) (get_task_loop n i pid k)
unfolding get_task_loop
get_task_loop-Found zero i pid k = missing (λ j l h. absurd (omega arith))
get_task_loop-Found (suc n) i pid k = elim (Bool-cases (eq_ℤ (k.task i).pid pid)) [
  | inl same ↦ rw same (found i (omega arith) (omega arith) same (λ j l h. absurd (omega arith)))
  | inr differs ↦
      let e : i + suc n ≡ suc i + n = omega arith in
      rw (differs, e)
        (Found-before pid k i (suc i + n) differs (get_task_loop-Found n (suc i) pid k))
]

-- `get_task` gives the first of the ten tasks with the identifier, or NULL if none has it.
pub get_task-Found : (pid : ℤ) (k : Kernel) → Found pid k 0 10 (get_task pid k)
unfolding get_task
get_task-Found pid k = get_task_loop-Found 10 0 pid k

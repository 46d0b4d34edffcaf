-- ===== src/Boot/Tasks.antt =====
-- The tasks and queues when the first process begins.
use so2_soa_fib.Common.{
  ℕ, zero, suc, ◌≡◌, ◌≢◌, refl, some, [], ◌∷◌, arith, ◌==◌, if◌then◌else◌, update, Apart, pos, neg,
}
use so2_soa_fib.ListHead.{Links, Ptr, list_del, list_first, list_add, set_next, set_prev}
use so2_soa_fib.ListHead.Queue.{IsQueue, list_first-first_of}
use so2_soa_fib.Kernel.{
  Kernel, Task, freequeue, set_task, allocate_dir, init_stat, list_head_to_task_struct,
}
use so2_soa_fib.Process.{in_space, set_user_pages, l_heap_start}
use so2_soa_fib.Sched.Queues.{Queues, IsHead, Nodes, Holds, Detached, list_del-Holds}
use so2_soa_fib.Sched.Policy.{IsScheduled}
use so2_soa_fib.Boot.{init_queues, init_sched, init_idle, init_task1, start}

-- All tasks wait in the queue of the free ones, the last one first.
abbrev pub all_free : Queues
all_free = λ h. if h == freequeue then 13 ∷ 12 ∷ 11 ∷ 10 ∷ 9 ∷ 8 ∷ 7 ∷ 6 ∷ 5 ∷ 4 ∷ [] else []

-- The queues without the tasks 9 and 8.
abbrev pub idle_taken : Queues
idle_taken = update all_free freequeue (12 ∷ 11 ∷ 10 ∷ 9 ∷ 8 ∷ 7 ∷ 6 ∷ 5 ∷ 4 ∷ [])

abbrev pub both_taken : Queues
both_taken = update idle_taken freequeue (11 ∷ 10 ∷ 9 ∷ 8 ∷ 7 ∷ 6 ∷ 5 ∷ 4 ∷ [])

-- What holds of the three heads holds of each.
heads {ℓ} : (P : ℕ → Type ℓ) → P 1 → P 2 → P 3 → (h : ℕ) → IsHead h → P h
heads P a b c zero ih = absurd (omega arith)
heads P a b c (suc zero) ih = a
heads P a b c (suc (suc zero)) ih = b
heads P a b c (suc (suc (suc zero))) ih = c
heads P a b c (suc (suc (suc (suc h)))) ih = absurd (omega arith)

all_free-Apart : (h h' : Ptr) → IsHead h → IsHead h' → h ≢ h' → Apart (all_free h) (all_free h')
all_free-Apart h h' ih ih' n =
    heads (λ a. a ≢ h' → Apart (all_free a) (all_free h'))
      (λ n.
        heads (λ b. 1 ≢ b → Apart (all_free 1) (all_free b)) (λ n. absurd (n refl))
          (λ n. omega arith) (λ n. omega arith) h' ih' n)
      (λ n. tt) (λ n. tt) h ih n

init_queues-Holds : (m : Links) → (m' : Links) × (init_queues m ≡ some m') × Holds m' all_free
unfolding init_queues list_add set_next set_prev update
init_queues-Holds m = (
  _,
  refl,
  record {
    queue =
        heads (λ h. IsQueue _ h (all_free h))
          (record {
            nonnull = omega arith;
            distinct = omega arith;
            forward = omega arith;
            backward = omega arith;
          })
          (record { nonnull = omega arith; distinct = (tt, tt); forward = refl; backward = refl })
          (record { nonnull = omega arith; distinct = (tt, tt); forward = refl; backward = refl });
    nodes = heads (λ h. Nodes (all_free h)) (omega arith) tt tt;
    apart = all_free-Apart;
  },
)

with_queues : Links → Kernel → Kernel
with_queues m k = record k { links = m; quantum_ticks = neg 1; spf_ticks = neg 1; spf_sem = neg 1 }

with_idle : Links → Kernel → Kernel
with_idle m k =
    let k' = set_task 9 (record (k.task 9) { pid = pos 0 }) (record k { links = m }) in
    record (allocate_dir 9 k') { idle_task = 9 }

with_task1 : Links → Kernel → Kernel
with_task1 m k =
    let t : Task = record (k.task 8) { pid = pos 1; brk = l_heap_start; quantum = 3; nice = 1 } in
    let k' = set_user_pages 8 (allocate_dir 8 (set_task 8 t (record k { links = m }))) in
    init_stat 8 (record k' { esp0 = 8; cr3 = (k'.task 8).dir })

init_sched-queues :
    (k : Kernel) (m : Links) → init_queues k.links ≡ some m → init_sched k ≡ some (with_queues m k)
unfolding init_sched with_queues
init_sched-queues k m e = rw e

init_idle-takes :
    (k : Kernel) (m : Links)
    → list_first freequeue k.links ≡ some 13
    → list_del 13 k.links ≡ some m
    → init_idle k ≡ some (with_idle m k)
unfolding init_idle with_idle list_head_to_task_struct
init_idle-takes k m f e = rw (f, e)

init_task1-takes :
    (k : Kernel) (m : Links)
    → list_first freequeue k.links ≡ some 12
    → list_del 12 k.links ≡ some m
    → init_task1 k ≡ some (with_task1 m k)
unfolding init_task1 with_task1 list_head_to_task_struct
init_task1-takes k m f e = rw (f, e)

-- What is settled when the first process begins: its stack and its directory are in use.
pub record Started (k : Kernel) : Type 0 where
  pub scheduled : IsScheduled (record k { running = k.esp0 }) both_taken
  pub idle : ((k.task k.idle_task).pid ≡ pos 0) × ((k.task k.idle_task).dir ≡ k.idle_task)
  pub first : ((k.task k.esp0).pid ≡ pos 1) × ((k.task k.esp0).dir ≡ k.cr3)
  pub low : (k.task k.esp0).nice ≡ 1

with_task1-Started :
    (m1 m2 : Links) (k : Kernel)
    → Holds m2 both_taken
    → Detached 12 m2 both_taken
    → Started (with_task1 m2 (with_idle m1 k))
unfolding with_task1 with_idle set_task allocate_dir init_stat set_user_pages in_space update
with_task1-Started m1 m2 k holds out = record {
  scheduled = record { holds = holds; out = out };
  idle = (refl, refl);
  first = (refl, refl);
  low = refl;
}

-- From any state `init_sched`, `init_idle` and `init_task1` succeed. Then eight tasks are free and
-- none is ready, and if the task whose stack and directory are set runs, it is in no queue; it has
-- the identifier 1 and low priority, the idle task has the identifier 0, and each has the directory
-- of its own index.
pub start-Started : (k : Kernel) → (k' : Kernel) × (start k ≡ some k') × Started k'
unfolding start with_idle with_queues update allocate_dir
start-Started k =
    let (m0, e0, holds0) = init_queues-Holds k.links in
    let ih : IsHead freequeue = omega arith in
    let f0 : list_first freequeue m0 ≡ some 13 = list_first-first_of _ (holds0.queue 1 ih) in
    let (m1, e1, holds1, out1) = list_del-Holds 1 13 _ ih holds0 refl in
    let f1 : list_first freequeue m1 ≡ some 12 = list_first-first_of _ (holds1.queue 1 ih) in
    let (m2, e2, holds2, out2) = list_del-Holds 1 12 _ ih holds1 refl in
    let k0 = with_queues m0 k in
    let k1 = with_idle m1 k0 in
    (
      with_task1 m2 k1,
      rw (init_sched-queues k m0 e0, init_idle-takes k0 m1 f0 e1, init_task1-takes k1 m2 f1 e2)
          refl,
      with_task1-Started m1 m2 k0 holds2 out2,
    )

-- ===== src/Sched/Tests.antt =====
-- Ticks of the clock over small queues.
use so2_soa_fib.Common.{◌≡◌, refl, inl, false, none, [], arith}
use so2_soa_fib.Kernel.{readyqueue, priorityqueue}
use so2_soa_fib.Sched.{schedule}
use so2_soa_fib.Sched.Policy.{policy}
use so2_soa_fib.Sched.Policy.Turn.{Follows, schedule-Follows}
use so2_soa_fib.Sched.Policy.Safe.{Safe, schedule-none, schedule-IsScheduled}
use so2_soa_fib.Sched.Priority.{ByPriority}
use so2_soa_fib.Sched.Fair.{Comes, turns-Comes}
use so2_soa_fib.Sched.Sample.{waiting, machine, machine-IsScheduled}

schedule-Follows_example :
    Follows
      (machine 1 readyqueue)
      (policy false 1 4 (waiting readyqueue))
      (schedule (machine 1 readyqueue))
schedule-Follows_example =
    schedule-Follows (machine 1 readyqueue) (waiting readyqueue)
      (machine-IsScheduled 1 readyqueue (omega arith))

schedule-IsScheduled_example : Safe (schedule (machine 1 readyqueue))
schedule-IsScheduled_example =
    schedule-IsScheduled (machine 1 readyqueue) (waiting readyqueue)
      (machine-IsScheduled 1 readyqueue (omega arith)) (inl (omega arith))

-- Two tasks of high priority and no other: the end of the first one's quantum.
schedule-none_example : schedule (machine 0 priorityqueue) ≡ none
schedule-none_example =
    schedule-none (machine 0 priorityqueue) (waiting priorityqueue) 5 []
      (machine-IsScheduled 0 priorityqueue (omega arith)) refl refl refl refl

-- Two tasks of low priority.
low_machine : ByPriority (machine 1 readyqueue) (waiting readyqueue)
low_machine = record {
  scheduled = machine-IsScheduled 1 readyqueue (omega arith);
  low = (λ e. omega (arith, e), tt);
  high = tt;
}

turns-Comes_example : Comes 5 2 (machine 1 readyqueue)
turns-Comes_example =
    turns-Comes 5 [] [] (machine 1 readyqueue) (waiting readyqueue) low_machine refl

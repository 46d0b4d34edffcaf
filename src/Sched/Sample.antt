-- ===== src/Sched/Sample.antt =====
-- Small queues for the tests, and their invariant.
use so2_soa_fib.Common.{
  ℕ, ◌≡◌, ◌≢◌, inl, false, [], ◌∷◌, arith, ◌==◌, if◌then◌else◌, pos, Bool-cases, inr, ==→eq,
}
use so2_soa_fib.ListHead.{Ptr, Links}
use so2_soa_fib.ListHead.Queue.{IsQueue}
use so2_soa_fib.Kernel.{Kernel}
use so2_soa_fib.Kernel.Sample.{no_stats, sample}
use so2_soa_fib.Sched.Queues.{Queues, IsHead, Holds}
use so2_soa_fib.Sched.Policy.{IsScheduled}

-- Task 0 runs. Task 1, of node 5, waits alone in the queue of head `h`.
abbrev pub one_waits : Ptr → Links
one_waits h = record {
  next = λ a. if a == h then 5 else if a == 5 then h else if a == 4 then 0 else a;
  prev = λ a. if a == h then 5 else if a == 5 then h else if a == 4 then 0 else a;
}

abbrev pub waiting : Ptr → Queues
waiting h = λ a. if a == h then 5 ∷ [] else []

-- Both tasks have the given priority, a quantum of 3, and the running one has a last tick.
abbrev pub machine : ℕ → Ptr → Kernel
machine nice h = record sample {
  task = λ i. record { pid = pos i; dir = i; quantum = 3; estat = no_stats; nice = nice; brk = 0 };
  links = one_waits h;
}

one_waits-IsQueue : (h : Ptr) → IsHead h → IsQueue (one_waits h) h (5 ∷ [])
one_waits-IsQueue h ih = record {
  nonnull = omega arith;
  distinct = omega arith;
  forward = ground arith;
  backward = ground arith;
}

one_waits-empty : (h a : Ptr) → IsHead h → IsHead a → a ≢ h → IsQueue (one_waits h) a []
one_waits-empty h a ih ia n = record {
  nonnull = omega arith;
  distinct = omega arith;
  forward = ground arith;
  backward = ground arith;
}

machine-Holds : (h : Ptr) → IsHead h → Holds (one_waits h) (waiting h)
machine-Holds h ih = record {
  queue = λ a ia. elim (Bool-cases (a == h)) [
    | inl same ↦ rw (same, ==→eq a h same) (one_waits-IsQueue h ih)
    | inr differs ↦ rw differs (one_waits-empty h a ih ia (ground arith))
  ];
  nodes = λ a ia. elim (Bool-cases (a == h)) [
    | inl same ↦ rw same (omega arith)
    | inr differs ↦ rw differs tt
  ];
  apart = λ a b ia ib n. elim (Bool-cases (a == h)) [
    | inl same ↦ let other : (b == h) ≡ false = ground arith in rw (same, other) (tt, tt)
    | inr differs ↦ rw differs tt
  ];
}

pub machine-IsScheduled : (nice h : ℕ) → IsHead h → IsScheduled (machine nice h) (waiting h)
machine-IsScheduled nice h ih = record {
  holds = machine-Holds h ih;
  out = record {
    is_node = omega arith;
    outside = λ a ia. elim (Bool-cases (a == h)) [
      | inl same ↦ rw same (omega arith)
      | inr differs ↦ rw differs tt
    ];
    next_null = ground arith;
    prev_null = ground arith;
  };
}

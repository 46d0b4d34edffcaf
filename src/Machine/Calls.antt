-- ===== src/Machine/Calls.antt =====
-- The system calls that do not change tasks keep the order of the queues.
use so2_soa_fib.Common.{
  ℕ, zero, suc, ◌+◌, ◌≡◌, refl, arith, ◌∙◌, Option, none, some, ltb, dec, List, ◌/◌, ℤ, pos, negsuc,
  Bool-cases, inl, inr,
}
use so2_soa_fib.Kernel.{Kernel, user_to_sys, sys_to_user_ready}
use so2_soa_fib.Fps.{sys_put_screen, sys_set_fps, schedule_fps, refill}
use so2_soa_fib.Syscalls.{
  console, write_chunks, sys_write, sys_get_key, sys_fflush, stats_of, get_task, sys_get_stats,
}
use so2_soa_fib.Frames.{PhysMem}
use so2_soa_fib.Process.{sys_sbrk, grown}

-- The links and the running task are those of before.
abbrev pub Still : Kernel → Kernel → Type 0
Still k k' = (k'.links ≡ k.links) × (k'.running ≡ k.running)

pub Still-trans : (k l m : Kernel) → Still k l → Still l m → Still k m
Still-trans k l m (a, b) (c, d) = (c ∙ a, d ∙ b)

pub user_to_sys-Still : (k : Kernel) → Still k (user_to_sys k)
unfolding user_to_sys
user_to_sys-Still k = (refl, refl)

pub sys_to_user_ready-Still : (k : Kernel) → Still k (sys_to_user_ready k)
unfolding sys_to_user_ready
sys_to_user_ready-Still k = (refl, refl)

pub sys_put_screen-Still : (s : ℕ) (k : Kernel) → Still k (sys_put_screen s k).1
unfolding sys_put_screen
sys_put_screen-Still s k = ground arith

pub sys_set_fps-Still : (fps : ℤ) (k : Kernel) → Still k (sys_set_fps fps k).1
unfolding sys_set_fps
sys_set_fps-Still fps k = ground arith

refill-Still : (k : Kernel) → Still k (refill k)
unfolding refill
refill-Still k = ground arith

pub schedule_fps-Still : (k : Kernel) → Still k (schedule_fps k)
unfolding schedule_fps
schedule_fps-Still k = ground (arith, refill-Still (record k { spf_ticks = dec k.spf_ticks }))

write_chunks-Still :
    (fuel i limit total buffer size : ℕ) (k : Kernel)
    → Still k (write_chunks fuel i limit total buffer size k).1
unfolding write_chunks console
write_chunks-Still zero i limit total buffer size k = (refl, refl)
write_chunks-Still (suc fuel) i limit total buffer size k = elim (Bool-cases (ltb i limit)) [
  | inl more ↦ rw more (write_chunks-Still fuel _ limit _ buffer size (console 500 (buffer + i) k))
  | inr over ↦ rw over (refl, refl)
]

pub sys_write-Still :
    (fd : ℤ) (buffer : ℕ) (size : ℤ) (k : Kernel) → Still k (sys_write fd buffer size k).1
unfolding sys_write
sys_write-Still fd buffer (pos size) k =
    ground (arith, write_chunks-Still (suc (size / 500)) 0 (size / 500) 0 buffer size k)
sys_write-Still fd buffer (negsuc size) k = ground arith

pub sys_get_key-Still : (c : ℕ) (k : Kernel) → Still k (sys_get_key c k).1
unfolding sys_get_key
sys_get_key-Still c k = ground arith

pub sys_fflush-Still : (k : Kernel) → Still k (sys_fflush k).1
unfolding sys_fflush
sys_fflush-Still k = (refl, refl)

stats_of-Still : (o : Option ℕ) (st : ℕ) (k : Kernel) → Still k (stats_of o st k).1
unfolding stats_of
stats_of-Still none st k = (refl, refl)
stats_of-Still (some i) st k = (refl, refl)

pub sys_get_stats-Still : (pid : ℤ) (st : ℕ) (k : Kernel) → Still k (sys_get_stats pid st k).1
unfolding sys_get_stats
sys_get_stats-Still pid st k = ground (arith, stats_of-Still (get_task pid k) st k)

grown-Still : (brk n : ℕ) (k : Kernel) (r : Option (List ℕ) × PhysMem) → Still k (grown brk n k r).1
unfolding grown
grown-Still brk n k (none, mem) = (refl, refl)
grown-Still brk n k (some fs, mem) = (refl, refl)

pub sys_sbrk-Still : (n : ℤ) (k : Kernel) → Still k (sys_sbrk n k).1
unfolding sys_sbrk
sys_sbrk-Still (pos zero) k = (refl, refl)
sys_sbrk-Still (pos (suc n)) k = grown-Still _ _ k _
sys_sbrk-Still (negsuc n) k = ground arith

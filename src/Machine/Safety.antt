-- ===== src/Machine/Safety.antt =====
-- Every state that the kernel reaches by interrupts and system calls is in order.
use so2_soa_fib.Common.{
  some-injective, bind-some, ℕ, ◌+◌, ◌≡◌, refl, sym, ◌∙◌, subst, Bool, true, false, if◌then◌else◌,
  Option, none, some, ℤ, pos, negsuc, ltb, get_elem?, update, Bool-cases, inl, inr,
}
use so2_soa_fib.Screen.{Screen}
use so2_soa_fib.Keyboard.{keyboard_routine}
use so2_soa_fib.Kernel.{Kernel, user_to_sys, sys_to_user_ready}
use so2_soa_fib.Fps.{schedule_fps}
use so2_soa_fib.Sched.Queues.{Queues}
use so2_soa_fib.Process.{sys_exit}
use so2_soa_fib.Fork.{sys_fork}
use so2_soa_fib.Pointers.{schedule_fps_reaches}
use so2_soa_fib.Boot.{start}
use so2_soa_fib.Main.{main, init_mm, move_program}
use so2_soa_fib.Screen.{printk}
use so2_soa_fib.Libc.{codes}
use so2_soa_fib.Sched.Policy.{IsScheduled}
use so2_soa_fib.Boot.Tasks.{start-Started, both_taken}
use so2_soa_fib.Machine.{
  clock_routine, clock_handler, keyboard_handler, Handler, ni_syscall, exit, fork, write, gettime,
  get_key, put_screen, set_fps, fflush, sbrk, getpid, get_stats, sys_call_table, max_syscall, Args,
  Reply, serve, reaches, handle, dispatch, system_call, Step, clock, keyboard, call, program, Reach,
  here, next,
}
use so2_soa_fib.Machine.Invariant.{
  total, IsOrderly, Orderly, orderly, same-IsOrderly, schedule-Orderly,
}
use so2_soa_fib.Machine.Calls.{
  Still, user_to_sys-Still, sys_to_user_ready-Still, schedule_fps-Still, sys_put_screen-Still,
  sys_set_fps-Still, sys_write-Still, sys_get_key-Still, sys_fflush-Still, sys_get_stats-Still,
  sys_sbrk-Still,
}
use so2_soa_fib.Machine.Tasks.{sys_fork-Orderly, sys_exit-Orderly}

Still-IsOrderly : (k k' : Kernel) (q : Queues) → Still k k' → IsOrderly k q → IsOrderly k' q
Still-IsOrderly k k' q (l, r) is = same-IsOrderly k' l r is

Still-Orderly : (k k' : Kernel) → Still k k' → Orderly k → Orderly k'
Still-Orderly k k' s (orderly q is) = orderly q (Still-IsOrderly k k' q s is)

-- The state in a handler's result.
given-Orderly :
    {r r' : Reply} {j k' : Kernel}
    → Orderly j
    → ◌≡◌ {A = Option (Reply × Kernel)} (some (r', j)) (some (r, k'))
    → Orderly k'
given-Orderly {j = j} {k' = k'} is e = let same : j ≡ k' = cc in subst Orderly same is

-- A handler that leaves the tasks alone.
plain-Orderly :
    {r r' : Reply} {k' : Kernel} (k : Kernel) (q : Queues) (j : Kernel)
    → IsOrderly k q
    → Still k j
    → ◌≡◌ {A = Option (Reply × Kernel)} (some (r', j)) (some (r, k'))
    → Orderly k'
plain-Orderly k q j is s e = given-Orderly (orderly q (Still-IsOrderly k j q s is)) e

-- A test that a result has passed.
guard-some {ℓ} :
    {A : Type ℓ} (b : Bool) (o : Option A) (y : A) → (if b then o else none) ≡ some y → o ≡ some y
guard-some true o y e = e
guard-some false o y e = absurd (cc e)

serve-Orderly :
    (h : Handler) (a : Args) (k k' : Kernel) (r : Reply) (q : Queues)
    → IsOrderly k q
    → serve h a k ≡ some (r, k')
    → Orderly k'
unfolding serve
serve-Orderly ni_syscall a k k' r q is e = plain-Orderly k q k is (refl, refl) e
serve-Orderly exit a k k' r q is e =
    let (j, f, g) = bind-some (sys_exit k) _ (r, k') e in
    given-Orderly (sys_exit-Orderly k j q is f) g
serve-Orderly fork a k k' r q is e =
    let ((r', j), f, g) = bind-some (sys_fork k) _ (r, k') e in
    given-Orderly (sys_fork-Orderly k j r' q is f) g
serve-Orderly write a k k' r q is e = plain-Orderly k q _ is (sys_write-Still _ a.ecx _ k) e
serve-Orderly gettime a k k' r q is e = plain-Orderly k q k is (refl, refl) e
serve-Orderly get_key a k k' r q is e = plain-Orderly k q _ is (sys_get_key-Still a.ebx k) e
serve-Orderly put_screen a k k' r q is e = plain-Orderly k q _ is (sys_put_screen-Still a.ebx k) e
serve-Orderly set_fps a k k' r q is e = plain-Orderly k q _ is (sys_set_fps-Still _ k) e
serve-Orderly fflush a k k' r q is e = plain-Orderly k q _ is (sys_fflush-Still k) e
serve-Orderly sbrk a k k' r q is e = plain-Orderly k q _ is (sys_sbrk-Still _ k) e
serve-Orderly getpid a k k' r q is e = plain-Orderly k q k is (refl, refl) e
serve-Orderly get_stats a k k' r q is e = plain-Orderly k q _ is (sys_get_stats-Still _ a.ecx k) e

-- Between the bookings of time.
booked-Orderly : (k : Kernel) → Orderly k → Orderly (sys_to_user_ready k)
booked-Orderly k is = Still-Orderly k _ (sys_to_user_ready-Still k) is

dispatch-Orderly :
    (n : ℕ) (a : Args) (k k' : Kernel) (r : Reply) (q : Queues)
    → IsOrderly k q
    → dispatch n a k ≡ some (r, k')
    → Orderly k'
unfolding dispatch handle
dispatch-Orderly n a k k' r q is e =
    let (h, f, g) = bind-some (get_elem? sys_call_table n) _ (r, k') e in
    let ((r', j), f', g') = bind-some (handle h a (user_to_sys k)) _ (r, k') g in
    let served = guard-some (reaches h a (user_to_sys k)) _ (r', j) f' in
    let start = Still-IsOrderly k (user_to_sys k) q (user_to_sys-Still k) is in
    given-Orderly (booked-Orderly j (serve-Orderly h a (user_to_sys k) j r' q start served)) g'

system_call-Orderly :
    (eax : ℤ) (a : Args) (k k' : Kernel) (r : Reply) (q : Queues)
    → IsOrderly k q
    → system_call eax a k ≡ some (r, k')
    → Orderly k'
unfolding system_call
system_call-Orderly (pos n) a k k' r q is e = elim (Bool-cases (ltb max_syscall n)) [
  | inl over ↦ given-Orderly (orderly q is) (rw over at e)
  | inr listed ↦ dispatch-Orderly n a k k' r q is (rw listed at e)
]
system_call-Orderly (negsuc n) a k k' r q is e = given-Orderly (orderly q is) e

clock_handler-Orderly :
    (show_clock : Screen → Screen) (k k' : Kernel) (q : Queues)
    → IsOrderly k q
    → clock_handler show_clock k ≡ some k'
    → Orderly k'
unfolding clock_handler clock_routine
clock_handler-Orderly show_clock k k' q is e =
    let (j, f, g) = bind-some (clock_routine show_clock (user_to_sys k)) _ k' e in
    let in_kernel = user_to_sys k in
    let shown : Kernel = record in_kernel {
      screen = show_clock in_kernel.screen;
      zeos_ticks = in_kernel.zeos_ticks + 1;
    } in
    let start = Still-IsOrderly k in_kernel q (user_to_sys-Still k) is in
    let limited =
      Still-IsOrderly shown (schedule_fps shown) q (schedule_fps-Still shown)
        (same-IsOrderly shown refl refl start) in
    let scheduled = guard-some (schedule_fps_reaches shown) _ j f in
    subst Orderly (some-injective g)
      (booked-Orderly j (schedule-Orderly (schedule_fps shown) j q limited scheduled))

keyboard_handler-Orderly :
    (value : ℕ) (k k' : Kernel) (q : Queues)
    → IsOrderly k q
    → keyboard_handler value k ≡ some k'
    → Orderly k'
unfolding keyboard_handler
keyboard_handler-Orderly value k k' q is e =
    let in_kernel = user_to_sys k in
    let (b, f, g) = bind-some (keyboard_routine value in_kernel.keyboard_buffer) _ k' e in
    let start = Still-IsOrderly k in_kernel q (user_to_sys-Still k) is in
    let read : Kernel = record in_kernel { keyboard_buffer = b } in
    subst Orderly (some-injective g)
      (booked-Orderly read (orderly q (same-IsOrderly read refl refl start)))

Step-Orderly :
    {show_clock : Screen → Screen} {k k' : Kernel} → Orderly k → Step show_clock k k' → Orderly k'
Step-Orderly {show_clock} {k} {k'} (orderly q is) (clock e) =
    clock_handler-Orderly show_clock k k' q is e
Step-Orderly {k = k} {k' = k'} (orderly q is) (keyboard value e) =
    keyboard_handler-Orderly value k k' q is e
Step-Orderly {k = k} {k' = k'} (orderly q is) (call eax a r e) =
    system_call-Orderly eax a k k' r q is e
Step-Orderly {k = k} {k' = k'} (orderly q is) (program ram e) =
    subst Orderly (sym e) (orderly q (same-IsOrderly (record k { ram = ram }) refl refl is))

pub Reach-Orderly :
    {show_clock : Screen → Screen} {k k' : Kernel} → Orderly k → Reach show_clock k k' → Orderly k'
Reach-Orderly is here = is
Reach-Orderly is (next before step) = Step-Orderly (Reach-Orderly is before) step

-- The state in which the first process begins.
main-Orderly : (k0 k : Kernel) → main k0 ≡ some k → Orderly k
unfolding main move_program total update
main-Orderly k0 k e =
    let loaded : Kernel = record k0 { screen = printk (codes "Kernel Loaded!    ") k0.screen } in
    let (j, f, g) = bind-some (start (init_mm loaded)) _ k e in
    let (j', f', started) = start-Started (init_mm loaded) in
    let same : j' ≡ j = some-injective (sym f' ∙ f) in
    let begun : IsScheduled (record j { running = j.esp0 }) both_taken =
      subst (λ (i : Kernel). IsScheduled (record i { running = i.esp0 }) both_taken) same
        started.scheduled in
    subst Orderly (some-injective g) (
      orderly both_taken
        (record { scheduled = record { holds = begun.holds; out = begun.out }; all = refl }))

-- After main, whatever interrupts and system calls come, in any order, and whatever the programs write
-- into the memory between them, as long as the code does not fault, on a pointer of a program too, and get_key and get_stats are not made to write into the
-- kernel's own frames: the queues are three lists of tasks' nodes, no node is twice in
-- them, the running task is in none, and eight tasks are in them.
pub main-Reach-Orderly :
    (show_clock : Screen → Screen) (k0 k k' : Kernel)
    → main k0 ≡ some k
    → Reach show_clock k k'
    → Orderly k'
main-Reach-Orderly show_clock k0 k k' e reach = Reach-Orderly (main-Orderly k0 k e) reach

-- ===== src/Fps/Clock.antt =====
-- What the ticks of the clock do with the limit.
use so2_soa_fib.Common.{
  ℕ, zero, suc, ◌-◌, ap, List, [], ◌∷◌, ◌<◌, ◌≡◌, refl, true, false, arith, ◌==◌, if◌then◌else◌,
  pos, eq_ℤ, is_pos, Bool-cases, inl, inr, add_ℕ, ℤ,
}
use so2_soa_fib.Kernel.{Kernel, current, user_memory}
use so2_soa_fib.Screen.{Screen, print_screen}
use so2_soa_fib.Fps.{
  text_at, show, minus_one, sys_put_screen, refill, schedule_fps, Event, put, tick, run, happen,
  happen_all,
}
use so2_soa_fib.Fps.Limit.{printed, memory_of, HasLeft, InPeriod, puts, put-null, put-shows}

renewed : Kernel → Kernel
renewed k = record k { spf_ticks = add_ℕ k.spf_ticks 18; spf_sem = k.gfps }

renewed-HasLeft :
    (g : ℕ) (k : Kernel)
    → eq_ℤ k.spf_pid (current k).pid ≡ true
    → k.spf_ticks ≡ pos 0
    → k.gfps ≡ pos g
    → HasLeft g (renewed k)
unfolding renewed
renewed-HasLeft g k own ticks limit = record { own = own; limited = rw ticks; left = limit }

refill-put :
    (k : Kernel)
    → refill k ≡ (
        if k.spf_last_screen == 0
        then renewed k
        else (sys_put_screen k.spf_last_screen (renewed k)).1)
unfolding refill renewed
refill-put k = refl

-- The screen with the one that was kept back, if there is any, printed from the user's memory.
abbrev pub kept_shown : Kernel → Screen
kept_shown k =
    if k.spf_last_screen == 0
    then k.screen
    else print_screen (text_at 2000 k.spf_last_screen (user_memory k)) k.screen

refill-HasLeft :
    (g : ℕ) (k : Kernel)
    → 0 < g
    → eq_ℤ k.spf_pid (current k).pid ≡ true
    → k.spf_ticks ≡ pos 0
    → k.gfps ≡ pos g
    → HasLeft (if k.spf_last_screen == 0 then g else g - 1) (refill k)
      × ((refill k).spf_ticks ≡ pos 18)
      × ((refill k).spf_last_screen ≡ 0)
      × ((refill k).screen ≡ kept_shown k)
unfolding show renewed user_memory
refill-HasLeft zero k lt own ticks limit = absurd (omega arith)
refill-HasLeft (suc g) k lt own ticks limit =
    let h = renewed-HasLeft (suc g) k own ticks limit in
    let nat_eq : suc g - 1 ≡ g = omega arith in
    elim (Bool-cases (k.spf_last_screen == 0)) [
      | inl nothing ↦ rw (refill-put k, nothing) (h, rw ticks, ground arith, refl)
      | inr kept ↦
          rw (refill-put k, kept, put-shows k.spf_last_screen g (renewed k) kept h)
            (record { own = h.own; limited = h.limited; left = rw nat_eq }, rw ticks, refl, refl)
    ]

schedule_fps-refill :
    (k : Kernel)
    → eq_ℤ k.spf_pid (current k).pid ≡ true
    → k.spf_ticks ≡ pos 1
    → schedule_fps k ≡ refill (record k { spf_ticks = pos 0 })
unfolding schedule_fps
schedule_fps-refill k own ticks = rw (ticks, own)

-- The last tick of a period while the limited process runs gives it a limit and a period of 18
-- ticks anew; a screen that was kept back is shown then, printed from the memory of the process, at
-- the cost of one of the new limit, and none is kept back any more; if none was, the screen stays as
-- it is.
pub schedule_fps-InPeriod :
    (g : ℕ) (k : Kernel)
    → 0 < g
    → eq_ℤ k.spf_pid (current k).pid ≡ true
    → k.spf_ticks ≡ pos 1
    → k.gfps ≡ pos g
    → InPeriod 18 (if k.spf_last_screen == 0 then g else g - 1) (schedule_fps k)
      × ((schedule_fps k).spf_last_screen ≡ 0)
      × ((schedule_fps k).screen ≡ kept_shown k)
unfolding user_memory
schedule_fps-InPeriod g k lt own ticks limit =
    let (has, count, none_kept, shown) =
      refill-HasLeft g (record k { spf_ticks = pos 0 }) lt own refl limit in
    rw (schedule_fps-refill k own ticks) (record { has = has; count = count }, none_kept, shown)

-- Without a limit a screen is shown.
put-off :
    (s : ℕ) (k : Kernel)
    → (s == 0) ≡ false
    → k.spf_ticks ≡ minus_one
    → (sem : ℤ) × (last : ℕ) × (sys_put_screen s k
        ≡ (pos 1, record (show s k) { spf_sem = sem; spf_last_screen = last }))
unfolding sys_put_screen show
put-off s k some_s off = elim (Bool-cases (eq_ℤ k.spf_pid (current k).pid)) [
  | inl own ↦ elim (Bool-cases (is_pos k.spf_sem)) [
    | inl left ↦ rw (some_s, own, left) (_, _, refl)
    | inr spent ↦ rw (some_s, own, spent, off) (_, _, refl)
  ]
  | inr other ↦ rw (some_s, other) (_, _, refl)
]

happen-put :
    (s : ℕ) (k k' : Kernel) → sys_put_screen s k ≡ (pos 1, k') → happen (put s) k ≡ (true, k')
unfolding happen
happen-put s k k' e = rw e refl

tick-off : (k : Kernel) → k.spf_ticks ≡ minus_one → happen tick k ≡ (false, k)
unfolding happen schedule_fps
tick-off k off = rw off

happen-run :
    (i : ℕ) (k : Kernel)
    → happen (run i) k ≡ (false, record k { running = i; cr3 = (k.task i).dir })
unfolding happen
happen-run i k = refl

happen_all-off :
    (es : List Event) (k : Kernel)
    → k.spf_ticks ≡ minus_one
    → ((happen_all es k).0 ≡ puts es)
      × ((happen_all es k).1.screen ≡ printed (puts es) es (memory_of k) (user_memory k) k.screen)
unfolding happen_all puts printed show user_memory
happen_all-off [] k off = (refl, refl)
happen_all-off (put s ∷ es) k off = elim (Bool-cases (s == 0)) [
  | inl null ↦ rw (put-null s k null, null) (happen_all-off es k off)
  | inr some_s ↦
      let (sem, last, e) = put-off s k some_s off in
      let k' = record (show s k) { spf_sem = sem; spf_last_screen = last } in
      let (shown, screen) = happen_all-off es k' off in
      rw (happen-put s k k' e, some_s) (ap suc shown, screen)
]
happen_all-off (tick ∷ es) k off = rw (tick-off k off) (happen_all-off es k off)
happen_all-off (run i ∷ es) k off =
    rw (happen-run i k) (happen_all-off es (record k { running = i; cr3 = (k.task i).dir }) off)

schedule_fps-off :
    (k : Kernel)
    → eq_ℤ k.spf_pid (current k).pid ≡ false
    → k.spf_ticks ≡ pos 0
    → schedule_fps k ≡ record k { spf_ticks = minus_one }
unfolding schedule_fps
schedule_fps-off k other ticks = rw (ticks, other)

-- If the count of ticks stands at 0 while another process runs, the next tick makes it -1, the mark
-- for no limit: as long as no process asks for a limit, every screen that is put from then on is
-- shown, printed from the memory of the process that puts it, whatever processes run and however many
-- ticks pass.
pub happen_all-schedule_fps :
    (es : List Event) (k : Kernel)
    → eq_ℤ k.spf_pid (current k).pid ≡ false
    → k.spf_ticks ≡ pos 0
    → ((schedule_fps k).spf_ticks ≡ minus_one)
      × ((happen_all es (schedule_fps k)).0 ≡ puts es)
      × ((happen_all es (schedule_fps k)).1.screen
          ≡ printed (puts es) es (memory_of k) (user_memory k) k.screen)
unfolding user_memory
happen_all-schedule_fps es k other ticks =
    rw (schedule_fps-off k other ticks)
      (let (n, s) = happen_all-off es (record k { spf_ticks = minus_one }) refl in (refl, n, s))

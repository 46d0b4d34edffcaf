-- ===== src/Fps/Tests.antt =====
-- A process that has asked for two screens a period.
use so2_soa_fib.Common.{ℕ, suc, ◌≡◌, refl, List, [], ◌∷◌, arith, pos}
use so2_soa_fib.Kernel.{Kernel, user_memory}
use so2_soa_fib.Kernel.Sample.{sample}
use so2_soa_fib.Fps.{minus_one, schedule_fps, Event, put, tick, run, happen_all}
use so2_soa_fib.Fps.Limit.{printed, memory_of, InPeriod, switches, ticks, puts, happen_all-min}
use so2_soa_fib.Fps.Clock.{kept_shown, schedule_fps-InPeriod, happen_all-schedule_fps}

-- `t` ticks are left of the period and `n` screens of the limit; a screen is kept back.
abbrev limited : ℕ → ℕ → Kernel
limited t n = record sample {
  spf_ticks = pos t;
  spf_sem = pos n;
  gfps = pos 2;
  spf_last_screen = 0x108000;
}

limited-InPeriod : (t n : ℕ) → InPeriod (suc t) n (limited (suc t) n)
limited-InPeriod t n = record {
  has = record { own = refl; limited = refl; left = refl };
  count = refl;
}

abbrev three_screens : List Event
three_screens = put 0x108000 ∷ put 0x108800 ∷ tick ∷ put 0x109000 ∷ []

happen_all-min_example :
    ((happen_all three_screens (limited 5 2)).0 ≡ 2)
    × ((happen_all three_screens (limited 5 2)).1.screen
        ≡ printed 2 three_screens (memory_of sample) (user_memory sample) sample.screen)
    × InPeriod 4 0 (happen_all three_screens (limited 5 2)).1
unfolding switches ticks puts user_memory
happen_all-min_example =
    happen_all-min three_screens 5 2 (limited 5 2) refl (omega arith) (limited-InPeriod 4 2)

schedule_fps-InPeriod_example :
    InPeriod 18 1 (schedule_fps (limited 1 0))
    × ((schedule_fps (limited 1 0)).spf_last_screen ≡ 0)
    × ((schedule_fps (limited 1 0)).screen ≡ kept_shown (limited 1 0))
schedule_fps-InPeriod_example = schedule_fps-InPeriod 2 (limited 1 0) (omega arith) refl refl refl

-- The limit belongs to process 1, and process 0 runs; later it is process 1's turn.
abbrev elsewhere : Kernel
elsewhere = record (limited 0 0) {
  spf_pid = pos 1;
  task = λ i. record (sample.task i) { pid = pos i };
}

abbrev later : List Event
later = run 1 ∷ put 0x108000 ∷ tick ∷ put 0x108800 ∷ []

happen_all-schedule_fps_example :
    ((schedule_fps elsewhere).spf_ticks ≡ minus_one)
    × ((happen_all later (schedule_fps elsewhere)).0 ≡ 2)
    × ((happen_all later (schedule_fps elsewhere)).1.screen
        ≡ printed 2 later (memory_of elsewhere) (user_memory elsewhere) elsewhere.screen)
unfolding puts
happen_all-schedule_fps_example = happen_all-schedule_fps later elsewhere refl refl

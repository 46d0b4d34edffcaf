-- ===== src/Fps/Limit.antt =====
-- How many of the screens of a limited process are shown.
use Prim.Native.Nat.{min}
use so2_soa_fib.Common.{
  ℕ, zero, suc, ◌-◌, ◌<◌, ◌≡◌, refl, sym, Bool, ◌||◌, true, false, List, [], ◌∷◌, arith, ◌==◌,
  if◌then◌else◌, pos, eq_ℤ, Bool-cases, inl, inr,
}
use so2_soa_fib.Kernel.{Kernel, current, view, user_memory}
use so2_soa_fib.PageTable.{pbase_addr}
use so2_soa_fib.Screen.{Screen, print_screen}
use so2_soa_fib.Utils.{Memory}
use so2_soa_fib.Fps.{
  text_at, show, minus_one, sys_put_screen, schedule_fps, Event, put, tick, run, happen, happen_all,
}

-- The running process has asked for a limit, and `n` screens are left of it.
pub record HasLeft (n : ℕ) (k : Kernel) : Type 0 where
  pub own : eq_ℤ k.spf_pid (current k).pid ≡ true
  pub limited : eq_ℤ k.spf_ticks minus_one ≡ false
  pub left : k.spf_sem ≡ pos n

-- The calls with a screen and not NULL, the ticks, and the switches among the events.
unfoldable pub puts : List Event → ℕ
puts [] = 0
puts (put s ∷ es) = if s == 0 then puts es else suc (puts es)
puts (tick ∷ es) = puts es
puts (run i ∷ es) = puts es

unfoldable pub ticks : List Event → ℕ
ticks [] = 0
ticks (put s ∷ es) = ticks es
ticks (tick ∷ es) = suc (ticks es)
ticks (run i ∷ es) = ticks es

unfoldable pub switches : List Event → ℕ
switches [] = 0
switches (put s ∷ es) = switches es
switches (tick ∷ es) = switches es
switches (run i ∷ es) = suc (switches es)

-- The memory of each task.
abbrev pub memory_of : Kernel → ℕ → Memory
memory_of k i = view (k.tables (pbase_addr (k.dir_pages (k.task i).dir))) k.ram

abbrev pub one_less : ℕ → ℕ
one_less zero = zero
one_less (suc n) = n

abbrev pub none_left : ℕ → Bool
none_left zero = true
none_left (suc n) = false

-- The screen after the first `n` of the screens that are put are printed, each from the memory of the
-- task that puts it.
unfoldable pub printed : ℕ → List Event → (ℕ → Memory) → Memory → Screen → Screen
printed n [] of mem s = s
printed n (put a ∷ es) of mem s =
    let without = printed n es of mem s in
    let shown = printed (one_less n) es of mem (print_screen (text_at 2000 a mem) s) in
    if a == 0 || none_left n then without else shown
printed n (tick ∷ es) of mem s = printed n es of mem s
printed n (run i ∷ es) of mem s = printed n es of (of i) s

pub put-null : (s : ℕ) (k : Kernel) → (s == 0) ≡ true → happen (put s) k ≡ (false, k)
unfolding happen sys_put_screen
put-null s k null = rw null

pub put-shows :
    (s n : ℕ) (k : Kernel)
    → (s == 0) ≡ false
    → HasLeft (suc n) k
    → sys_put_screen s k ≡ (pos 1, record (show s k) { spf_sem = pos n; spf_last_screen = 0 })
unfolding sys_put_screen
put-shows s n k some_s h = rw (some_s, h.own, h.left)

happen-shows :
    (s n : ℕ) (k : Kernel)
    → (s == 0) ≡ false
    → HasLeft (suc n) k
    → happen (put s) k ≡ (true, record (show s k) { spf_sem = pos n; spf_last_screen = 0 })
unfolding happen sys_put_screen
happen-shows s n k some_s h = rw (some_s, h.own, h.left)

happen-keeps :
    (s : ℕ) (k : Kernel)
    → (s == 0) ≡ false
    → HasLeft 0 k
    → happen (put s) k ≡ (false, record k { spf_last_screen = s })
unfolding happen sys_put_screen
happen-keeps s k some_s h = rw (some_s, h.own, h.left, h.limited)

pub schedule_fps-count :
    (t : ℕ) (k : Kernel)
    → k.spf_ticks ≡ pos (suc (suc t))
    → schedule_fps k ≡ record k { spf_ticks = pos (suc t) }
unfolding schedule_fps
schedule_fps-count t k count = rw count

-- The state has `t` ticks of its period left and `n` screens of its limit.
pub record InPeriod (t n : ℕ) (k : Kernel) : Type 0 where
  pub has : HasLeft n k
  pub count : k.spf_ticks ≡ pos t

happen-tick :
    (t : ℕ) (k : Kernel)
    → k.spf_ticks ≡ pos (suc (suc t))
    → happen tick k ≡ (false, record k { spf_ticks = pos (suc t) })
unfolding happen
happen-tick t k count = rw (schedule_fps-count t k count)

InPeriod-eq : {t t' n n' : ℕ} {k : Kernel} → t ≡ t' → n ≡ n' → InPeriod t n k → InPeriod t' n' k
InPeriod-eq {k} e e' p = rw (sym e, sym e') p

-- While its period lasts, with `t` ticks left and fewer than `t` among the events, as many of the
-- screens that a limited process puts are shown as are left of its limit and no more, whatever the
-- order of screens and ticks: the first ones, each printed on the screen from the memory of the
-- process, one after another, and no other; what is left falls by their number.
pub happen_all-min :
    (es : List Event) (t n : ℕ) (k : Kernel)
    → switches es ≡ 0
    → ticks es < t
    → InPeriod t n k
    → ((happen_all es k).0 ≡ min (puts es) n)
      × ((happen_all es k).1.screen ≡ printed n es (memory_of k) (user_memory k) k.screen)
      × InPeriod (t - ticks es) (n - min (puts es) n) (happen_all es k).1
unfolding happen_all puts ticks switches show printed user_memory
happen_all-min [] t n k own lt p = (omega arith, refl, InPeriod-eq (omega arith) (omega arith) p)
happen_all-min (put s ∷ es) t zero k own lt p = elim (Bool-cases (s == 0)) [
  | inl null ↦ rw (put-null s k null, null) (happen_all-min es t zero k own lt p)
  | inr some_s ↦
      let k' = record k { spf_last_screen = s } in
      let (shown, screen, p') = happen_all-min es t zero k' own lt (record {
        has = record { own = p.has.own; limited = p.has.limited; left = p.has.left };
        count = p.count;
      }) in
      rw (happen-keeps s k some_s p.has, some_s)
        (omega (arith, shown), screen, InPeriod-eq refl (omega arith) p')
]
happen_all-min (put s ∷ es) t (suc n) k own lt p = elim (Bool-cases (s == 0)) [
  | inl null ↦ rw (put-null s k null, null) (happen_all-min es t (suc n) k own lt p)
  | inr some_s ↦
      let k' = record (show s k) { spf_sem = pos n; spf_last_screen = 0 } in
      let (shown, screen, p') = happen_all-min es t n k' own lt (record {
        has = record { own = p.has.own; limited = p.has.limited; left = refl };
        count = p.count;
      }) in
      rw (happen-shows s n k some_s p.has, some_s)
        (omega (arith, shown), screen, InPeriod-eq refl (omega arith) p')
]
happen_all-min (tick ∷ es) zero n k own lt p = absurd (omega arith)
happen_all-min (tick ∷ es) (suc zero) n k own lt p = absurd (omega arith)
happen_all-min (tick ∷ es) (suc (suc t)) n k own lt p =
    let k' = record k { spf_ticks = pos (suc t) } in
    let (shown, screen, p') = happen_all-min es (suc t) n k' own (omega arith) (record {
      has = record { own = p.has.own; limited = refl; left = p.has.left };
      count = refl;
    }) in
    rw (happen-tick t k p.count) (shown, screen, InPeriod-eq (omega arith) refl p')
happen_all-min (run i ∷ es) t n k own lt p = absurd (omega arith)

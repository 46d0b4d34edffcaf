-- ===== src/Libc/Itoa/Text.antt =====
-- The text that `itoa` writes.
use so2_soa_fib.Common.{
  ℕ, zero, suc, ◌+◌, ◌-◌, ◌/◌, ◌≤◌, ◌<◌, ◌≡◌, refl, sym, ap, ◌∙◌, arith, subst, true, false, ltb,
  update, update_self, update_ne, pos,
}
use so2_soa_fib.Utils.{Memory}
use so2_soa_fib.Libc.Itoa.{write_digits, reverse_digits, itoa, decimal, IsDigit, Shows}
use so2_soa_fib.Libc.Itoa.Digits.{backward, Written, write_digits-Written}
use so2_soa_fib.Libc.Itoa.Turn.{reversed}

-- Read from the left what is written from the right.
decimal-backward :
    (n m : ℕ) (b b' : Memory)
    → ((j : ℕ) → j < n → b' j ≡ b (n - j - 1))
    → m ≤ n
    → decimal m b' ≡ backward m (n - m) b
unfolding decimal backward
decimal-backward n zero b b' turn le = refl
decimal-backward n (suc m) b b' turn le =
    let place : suc (n - suc m) ≡ n - m = omega arith in
    let image : n - m - 1 ≡ n - suc m = omega arith in
    rw (decimal-backward n m b b' turn (omega arith), turn m (omega arith), place, image) refl

text-Shows :
    (a n : ℕ) (b b1 : Memory)
    → 0 < a
    → Written a n 0 b b1
    → Shows a n b (update (reverse_digits (n / 2) 0 n b1) n 0)
text-Shows a n b b1 more w =
    let text = update (reverse_digits (n / 2) 0 n b1) n 0 in
    let turn : (j : ℕ) → j < n → text j ≡ b1 (n - j - 1) = λ j lt.
      let inside : ltb j n ≡ true = ground arith in
      update_ne _ n 0 (omega arith) ∙ reversed n b1 j ∙ rw inside refl in
    record {
      number =
          let none : n - n ≡ 0 = omega arith in
          decimal-backward n n b1 text turn (omega arith) ∙ rw none w.number;
      digits = λ j lt.
          subst IsDigit (sym (turn j lt)) (w.digits (n - j - 1) (omega arith) (omega arith));
      leading = λ _ e.
          let (some_n, high) = w.last more in
          let place : n - 0 - 1 ≡ 0 + n - 1 = omega arith in
          high (sym (turn 0 some_n ∙ ap b1 place) ∙ e);
      terminated = update_self _ n 0;
      beyond = λ j lt.
          let outside : ltb j n ≡ false = ground arith in
          update_ne _ n 0 (omega arith) ∙ reversed n b1 j ∙ rw outside (w.behind j (omega arith));
    }

-- `itoa` of a number that is not negative writes its decimal digits, none of them a leading 0 unless
-- the number is 0, and a NUL, and changes nothing behind the NUL: read as a decimal number, the text
-- gives the number back.
pub itoa-Shows : (a : ℕ) (b : Memory) → (n : ℕ) × Shows a n b (itoa (pos a) b)
unfolding itoa decimal update
itoa-Shows zero b = (
  1,
  record {
    number = refl;
    digits = λ j lt. ground arith;
    leading = λ z. absurd (z refl);
    terminated = refl;
    beyond = λ j lt. ground arith;
  },
)
itoa-Shows (suc a) b =
    let (n, e, w) = write_digits-Written (suc a) (suc a) 0 b (omega arith) in
    let same : (write_digits (suc a) (suc a) 0 b).0 ≡ n = omega (arith, e) in
    (n, rw same (text-Shows (suc a) n b _ (omega arith) w))

-- ===== src/Libc/Itoa.antt =====
-- `itoa` of zeOS/libc.c. The text is written from the start of a memory.
pub mod Digits
pub mod Turn
pub mod Text
use so2_soa_fib.Common.{
  ℕ, zero, suc, ◌+◌, ◌-◌, ◌*◌, ◌/◌, ◌%◌, ◌≤◌, ◌<◌, ◌≡◌, ◌≢◌, ◌&&◌, ◌||◌, leb, refl, sym, ap, ap₂,
  ◌∙◌, arith, subst, Bool, true, false, ltb, if◌then◌else◌, update, update_self, update_ne, ℤ, pos,
  negsuc, ==→eq, ◌==◌, Bool-cases, inl, inr,
}
use so2_soa_fib.Utils.{Memory}

-- The first loop, on fuel: the number of digits and the memory with them, the last digit first.
unfoldable pub write_digits : ℕ → ℕ → ℕ → Memory → ℕ × Memory
write_digits zero a i b = (i, b)
write_digits (suc fuel) a i b =
    let rest = write_digits fuel (a / 10) (suc i) (update b i (a % 10 + 48)) in
    if ltb 0 a then rest else (i, b)

-- The second loop, `n` rounds from `i1` on.
unfoldable pub reverse_digits : ℕ → ℕ → ℕ → Memory → Memory
reverse_digits zero i1 i b = b
reverse_digits (suc n) i1 i b =
    let c = b i1 in
    let b1 = update b i1 (b (i - i1 - 1)) in reverse_digits n (suc i1) i (update b1 (i - i1 - 1) c)

unfoldable pub itoa : ℤ → Memory → Memory
unfolding write_digits reverse_digits
itoa (pos zero) b = update (update b 0 48) 1 0
itoa (pos (suc a)) b =
    let (i, b1) = write_digits (suc a) (suc a) 0 b in update (reverse_digits (i / 2) 0 i b1) i 0
itoa (negsuc a) b = update b 0 0

-- The number that the first `n` characters give, read from the left.
unfoldable pub decimal : ℕ → Memory → ℕ
decimal zero b = 0
decimal (suc n) b = decimal n b * 10 + (b n - 48)

abbrev pub IsDigit : ℕ → Type 0
IsDigit c = (48 ≤ c) × (c < 58)

-- The text of `a` is `n` digits and a NUL, without a leading 0 unless it is the text of 0; the rest
-- of the memory is as it was.
pub record Shows (a : ℕ) (n : ℕ) (b b' : Memory) : Type 0 where
  pub number : decimal n b' ≡ a
  pub digits : (j : ℕ) → j < n → IsDigit (b' j)
  pub leading : a ≢ 0 → b' 0 ≢ 48
  pub terminated : b' n ≡ 0
  pub beyond : (j : ℕ) → n < j → b' j ≡ b j

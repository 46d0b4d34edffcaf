-- ===== src/Utils/Ticks.antt =====
-- `get_ticks` of zeOS/utils.c and its macro `do_div`: a division of 64 bits in two of 32.
use so2_soa_fib.Common.{
  ℕ, ◌+◌, ◌*◌, ◌/◌, ◌%◌, ◌^◌, ◌<◌, ◌≡◌, refl, Option, none, some, ◌>>=◌, arith, leb, ◌==◌, ==→eq,
  if◌then◌else◌, Bool-cases, inl, inr, false,
}
use so2_soa_fib.Kernel.{Kernel, ticks_at}

-- The instruction `divl`: quotient and rest of the 64 bits in `edx:eax`; it faults if the quotient
-- does not fit a register.
unfoldable pub divl : ℕ → ℕ → ℕ → Option (ℕ × ℕ)
divl edx eax base =
    if leb base edx then none else some ((edx * 2 ^ 32 + eax) / base, (edx * 2 ^ 32 + eax) % base)

-- CYCLESPERTICK, the base that the code divides by
abbrev pub cycles_per_tick : ℕ
cycles_per_tick = 109000

-- `do_div(n, CYCLESPERTICK)`: the new value of `n`, and the rest.
unfoldable pub do_div : ℕ → Option (ℕ × ℕ)
unfolding divl
do_div n = do
  let low = n % 2 ^ 32
  let high = n / 2 ^ 32
  let upper = if high == 0 then high else high % cycles_per_tick
  let high' = if high == 0 then high else high / cycles_per_tick
  (low', remainder) ← divl upper low cycles_per_tick
  some (high' * 2 ^ 32 + low', remainder)

-- The reading of the time-stamp counter comes in two registers.
unfoldable pub get_ticks : ℕ → Option ℕ
unfolding do_div
get_ticks tsc = do
  let eax = tsc % 2 ^ 32
  let edx = tsc / 2 ^ 32
  let ticks = edx * 2 ^ 32 + eax
  (ticks, remainder) ← do_div ticks
  some (ticks % 2 ^ 32)

-- The two divisions of 32 bits do not fault and give quotient and rest of all 64.
pub do_div_lem : (n : ℕ) → n < 2 ^ 64 → do_div n ≡ some (n / 109000, n % 109000)
unfolding do_div
do_div_lem n lt =
    let whole : n / 2 ^ 32 * 2 ^ 32 + n % 2 ^ 32 ≡ n = omega arith in
    let fits : leb 109000 (n / 2 ^ 32 % 109000) ≡ false = ground arith in
    let up = n / 2 ^ 32 % 109000 in
    let q = (up * 2 ^ 32 + n % 2 ^ 32) / 109000 in
    elim (Bool-cases (n / 2 ^ 32 == 0)) [
      | inl short ↦
          let none_high : n / 2 ^ 32 ≡ 0 = ==→eq (n / 2 ^ 32) 0 short in
          let low : n % 2 ^ 32 ≡ n = omega (arith, none_high) in
          let quotient : 0 * 2 ^ 32 + (0 * 2 ^ 32 + n) / 109000 ≡ n / 109000 = omega arith in
          let rest : (0 * 2 ^ 32 + n) % 109000 ≡ n % 109000 = omega arith in
          rw (short, none_high, low, quotient, rest) refl
      | inr long ↦
          let quotient : n / 2 ^ 32 / 109000 * 2 ^ 32 + q ≡ n / 109000 = omega arith in
          let rest : (up * 2 ^ 32 + n % 2 ^ 32) % 109000 ≡ n % 109000 = omega arith in
          rw (long, fits, quotient, rest) refl
    ]

-- At each reading of the counter that fits its 64 bits, `get_ticks` gives the time that the kernel
-- books.
pub get_ticks-ticks_at :
    (k : Kernel) (n : ℕ) → k.tsc n < 2 ^ 64 → get_ticks (k.tsc n) ≡ some (ticks_at k n)
unfolding get_ticks
get_ticks-ticks_at k n lt =
    let whole : k.tsc n / 2 ^ 32 * 2 ^ 32 + k.tsc n % 2 ^ 32 ≡ k.tsc n = omega arith in
    rw (whole, do_div_lem (k.tsc n) lt) refl

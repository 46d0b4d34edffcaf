-- ===== src/Libc/Tests.antt =====
-- The digits of a number.
use so2_soa_fib.Utils.{Memory}
use so2_soa_fib.Libc.Itoa.{itoa, Shows}
use so2_soa_fib.Libc.Itoa.Text.{itoa-Shows}
use so2_soa_fib.Common.{ℕ, pos}

abbrev blank : Memory
blank = λ j. 0

itoa-Shows_example : (n : ℕ) × Shows 1203 n blank (itoa (pos 1203) blank)
itoa-Shows_example = itoa-Shows 1203 blank

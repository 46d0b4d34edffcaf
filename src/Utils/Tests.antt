-- ===== src/Utils/Tests.antt =====
-- Copies of ten bytes, and the check of some pointers.
use so2_soa_fib.Kernel.{ticks_at}
use so2_soa_fib.Kernel.Sample.{sample}
use so2_soa_fib.Utils.Ticks.{get_ticks, get_ticks-ticks_at}
use so2_soa_fib.Common.{
  some, ◌+◌, ◌*◌, ◌≤◌, ◌<◌, ◌≡◌, ◌↔◌, refl, true, false, inr, pos, arith, update,
}
use so2_soa_fib.Utils.{
  Memory, copy_words, copy_bytes, copy_word, copy_data, copy_from_user, copy_to_user, verify_read,
  verify_write, access_ok,
}
use so2_soa_fib.Utils.Copy.{Copied, copies-Copied}
use so2_soa_fib.Utils.Access.{access_ok_iff}

abbrev counting : Memory
counting = λ a. a

last_byte : copy_data 100 200 10 counting 209 ≡ 109
unfolding copy_data copy_words copy_bytes copy_word update
last_byte = refl

copies-Copied_example :
    Copied 100 200 10 counting (copy_data 100 200 10 counting)
    × ((copy_from_user 100 200 10 counting).0 ≡ pos 0)
    × Copied 100 200 10 counting (copy_from_user 100 200 10 counting).1
    × ((copy_to_user 100 200 10 counting).0 ≡ pos 0)
    × Copied 100 200 10 counting (copy_to_user 100 200 10 counting).1
copies-Copied_example = copies-Copied 100 200 10 counting (inr (omega arith))

access_ok_iff_example :
    (access_ok verify_write (264 * 4096) 28 ≡ true)
    ↔ ((256 * 4096 ≤ 264 * 4096) × (264 * 4096 + 28 < 285 * 4096))
access_ok_iff_example = access_ok_iff verify_write (264 * 4096) 28 (omega arith) (omega arith)

null_refused : access_ok verify_read 0 28 ≡ false
unfolding access_ok
null_refused = refl

get_ticks-ticks_at_example : get_ticks (sample.tsc 3) ≡ some (ticks_at sample 3)
get_ticks-ticks_at_example = get_ticks-ticks_at sample 3 (omega arith)

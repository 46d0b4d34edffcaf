-- ===== src/PageTable/Tests.antt =====
-- The page tables at concrete entries.
use so2_soa_fib.Common.{ℕ, ◌≡◌, ◌≢◌, arith}
use so2_soa_fib.PageTable.{PageTable, present, rw_bit, user, set_ss_pag, get_frame}
use so2_soa_fib.PageTable.Entry.{set_ss_pag_lem}

abbrev junk : PageTable
junk = λ q. 0xffff_ffff

set_ss_pag_lem_example :
    (get_frame (set_ss_pag junk 264 300) 264 ≡ 300)
    × (present (set_ss_pag junk 264 300 264) ≡ 1)
    × (rw_bit (set_ss_pag junk 264 300 264) ≡ 1)
    × (user (set_ss_pag junk 264 300 264) ≡ 1)
    × ((other : ℕ) → other ≢ 264 → set_ss_pag junk 264 300 other ≡ junk other)
set_ss_pag_lem_example = set_ss_pag_lem junk 264 300 (omega arith)

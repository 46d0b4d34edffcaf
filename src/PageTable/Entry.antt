-- ===== src/PageTable/Entry.antt =====
-- Mapping and unmapping one page.
use so2_soa_fib.Common.{
  ℕ, ◌*◌, ◌+◌, ◌%◌, ◌^◌, ◌<◌, ◌≡◌, ◌≢◌, ap, arith, ◌==◌, if◌then◌else◌, update,
}
use so2_soa_fib.PageTable.{PageTable, present, rw_bit, user, set_ss_pag, del_ss_pag, get_frame}

-- The entry that `set_ss_pag` writes: the frame, and the bits user, rw and present.
pub set_ss_pag-update :
    (pt : PageTable) (page frame : ℕ)
    → set_ss_pag pt page frame ≡ update pt page (frame % 2 ^ 20 * 4096 + 7)
unfolding set_ss_pag
set_ss_pag-update pt page frame = ap (update pt page) (omega arith)

-- A frame number that fits its field is read back by `get_frame` after `set_ss_pag`, the page is
-- present, writable and the user's, and every other page keeps its entry.
pub set_ss_pag_lem :
    (pt : PageTable) (page frame : ℕ)
    → frame < 2 ^ 20
    → (get_frame (set_ss_pag pt page frame) page ≡ frame)
      × (present (set_ss_pag pt page frame page) ≡ 1)
      × (rw_bit (set_ss_pag pt page frame page) ≡ 1)
      × (user (set_ss_pag pt page frame page) ≡ 1)
      × ((other : ℕ) → other ≢ page → set_ss_pag pt page frame other ≡ pt other)
unfolding get_frame update
set_ss_pag_lem pt page frame h =
    rw set_ss_pag-update
      (ground arith, ground arith, ground arith, ground arith, λ o n. ground arith)

-- `del_ss_pag` after `set_ss_pag` leaves the page unmapped and every other page as it was.
pub del_ss_pag-set_ss_pag :
    (pt : PageTable) (page frame q : ℕ)
    → del_ss_pag (set_ss_pag pt page frame) page q ≡ (if q == page then 0 else pt q)
unfolding del_ss_pag update
del_ss_pag-set_ss_pag pt page frame q = rw set_ss_pag-update (ground arith)

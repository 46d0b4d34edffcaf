-- ===== src/Fork/Table.antt =====
-- The frames on which the child's pages stand.
use so2_soa_fib.Common.{
  ℕ, zero, suc, ◌+◌, ◌-◌, ◌^◌, ◌≤◌, ◌<◌, ◌≡◌, true, false, ◌&&◌, List, [], ◌∷◌, arith, length,
  get_or, ltb, leb, if◌then◌else◌, update,
}
use so2_soa_fib.PageTable.{PageTable, set_ss_pag, get_frame}
use so2_soa_fib.PageTable.Entry.{set_ss_pag-update}
use so2_soa_fib.Frames.{PhysMem}
use so2_soa_fib.Frames.Reserve.{AllFree}
use so2_soa_fib.Fork.{share_kernel, share_code, child_table}
use so2_soa_fib.Process.Map.{user_entry, map_frames_at}

share_code_at :
    (n page : ℕ) (parent pt : PageTable) (q : ℕ)
    → share_code n page parent pt q
      ≡ (if leb page q && ltb q (page + n) then user_entry (get_frame parent q) else pt q)
unfolding share_code update
share_code_at zero page parent pt q = ground arith
share_code_at (suc n) page parent pt q =
    rw
      (
        share_code_at n (suc page) parent (set_ss_pag pt page (get_frame parent page)) q,
        set_ss_pag-update pt page (get_frame parent page),
      )
      (ground arith)

share_kernel_at :
    (n i : ℕ) (parent pt : PageTable) (q : ℕ)
    → share_kernel n i parent pt q ≡ (if ltb i q && ltb q (1 + i + n) then parent q else pt q)
unfolding share_kernel update
share_kernel_at zero i parent pt q = ground arith
share_kernel_at (suc n) i parent pt q =
    rw (share_kernel_at n (suc i) parent (update pt (1 + i) (parent (1 + i))) q) (ground arith)

AllFree-lt :
    (fs : List ℕ) (mem : PhysMem) (i : ℕ) → AllFree fs mem → i < length fs → get_or fs i 0 < 2 ^ 20
AllFree-lt [] mem i a h = absurd (omega arith)
AllFree-lt (f ∷ fs) mem zero a h = omega (arith, a.0.below_total)
AllFree-lt (f ∷ fs) mem (suc i) a h = AllFree-lt fs mem i a.3 (omega arith)

-- The pages of code of the child stand on the frames of its parent's.
pub child_table-code :
    (frames : List ℕ) (parent pt : PageTable) (page : ℕ)
    → 256 ≤ page
    → page < 264
    → get_frame (child_table frames parent pt) page ≡ get_frame parent page
unfolding child_table get_frame
child_table-code frames parent pt page low high =
    let below : (leb 264 page && ltb page (264 + length frames)) ≡ false = ground arith in
    let code : (leb 256 page && ltb page (256 + 8)) ≡ true = ground arith in
    rw (map_frames_at frames 264 _ page, below, share_code_at 8 256 parent _ page, code)
      (ground arith)

-- The page of data number `i` stands on frame number `i` of those reserved.
pub child_table-data :
    (frames : List ℕ) (mem : PhysMem) (parent pt : PageTable) (i : ℕ)
    → AllFree frames mem
    → i < length frames
    → get_frame (child_table frames parent pt) (264 + i) ≡ get_or frames i 0
unfolding child_table get_frame
child_table-data frames mem parent pt i a h =
    let in_range : (leb 264 (264 + i) && ltb (264 + i) (264 + length frames)) ≡ true =
      ground arith in
    let index : 264 + i - 264 ≡ i = omega arith in
    let small = AllFree-lt frames mem i a h in
    rw (map_frames_at frames 264 _ (264 + i), in_range, index) (omega arith)

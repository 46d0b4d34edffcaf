-- ===== src/Process/Map.antt =====
-- The pages that the loop of `sys_sbrk` and its twin in `sys_fork` map.
use so2_soa_fib.Common.{
  ℕ, suc, ◌+◌, ◌-◌, ◌*◌, ◌%◌, ◌^◌, ◌≡◌, ◌≢◌, refl, true, false, ◌&&◌, List, [], ◌∷◌, arith, length,
  get_or, ◌==◌, ltb, leb, if◌then◌else◌, update, inl, inr, Bool-cases, ==→eq,
}
use so2_soa_fib.PageTable.{PageTable, set_ss_pag}
use so2_soa_fib.PageTable.Entry.{set_ss_pag-update}
use so2_soa_fib.Process.{map_frames}

-- The entry of a page that `set_ss_pag` maps on a frame.
abbrev pub user_entry : ℕ → ℕ
user_entry f = f % 2 ^ 20 * 4096 + 7

pub map_frames_at :
    (fs : List ℕ) (page : ℕ) (pt : PageTable) (q : ℕ)
    → map_frames fs page pt q ≡ (
        if leb page q && ltb q (page + length fs)
        then user_entry (get_or fs (q - page) 0)
        else pt q)
unfolding map_frames update
map_frames_at [] page pt q = ground arith
map_frames_at (f ∷ fs) page pt q = elim (Bool-cases (q == page)) [
  | inl here ↦
      let e : q ≡ page = ==→eq q page here in
      let past : (leb (suc page) q && ltb q (suc page + length fs)) ≡ false = ground arith in
      let in_range : (leb page q && ltb q (page + suc (length fs))) ≡ true = ground arith in
      let index : q - page ≡ 0 = omega arith in
      rw
        (
          map_frames_at fs (suc page) (set_ss_pag pt page f) q,
          past,
          in_range,
          index,
          set_ss_pag-update,
          here,
        )
        refl
  | inr differs ↦
      let n : q ≢ page = ground arith in
      rw (map_frames_at fs (suc page) (set_ss_pag pt page f) q, set_ss_pag-update, differs)
        (above n)
]
  where
    above :
        q ≢ page
        → (if leb (suc page) q && ltb q (suc page + length fs)
            then user_entry (get_or fs (q - suc page) 0)
            else pt q)
          ≡ (if leb page q && ltb q (page + suc (length fs))
              then user_entry (get_or (f ∷ fs) (q - page) 0)
              else pt q)
    above n = elim (Bool-cases (leb (suc page) q)) [
      | inl after ↦
          let index : q - page ≡ suc (q - suc page) = ground arith in rw index (ground arith)
      | inr before ↦ ground arith
    ]

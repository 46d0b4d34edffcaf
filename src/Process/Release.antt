-- ===== src/Process/Release.antt =====
-- What a range of pages that is given back leaves behind.
use so2_soa_fib.Common.{
  ℕ, zero, suc, ◌+◌, ◌<◌, ◌≡◌, refl, Bool, false, ◌&&◌, ◌||◌, arith, ◌==◌, ltb, leb, if◌then◌else◌,
  update, ap,
}
use so2_soa_fib.Frames.{num_pag_kernel, total_pages, free, free_frame}
use so2_soa_fib.PageTable.{PageTable, pbase_addr, get_frame, del_ss_pag}
use so2_soa_fib.Process.{Space, release}

-- The space after one page.
abbrev released : ℕ → Space → Space
released page s = record {
  frames = free_frame (get_frame s.table page) s.frames;
  table = del_ss_pag s.table page;
}

release-table :
    (n page : ℕ) (s : Space) (q : ℕ)
    → (release n page s).table q ≡ (if leb page q && ltb q (page + n) then 0 else s.table q)
unfolding release update
release-table zero page s q = ground arith
release-table (suc n) page s q = rw (release-table n (suc page) (released page s) q) (ground arith)

-- Whether one of `n` pages from `page` on stands on the frame `f`, in a table.
unfoldable pub on_frame : ℕ → ℕ → PageTable → ℕ → Bool
on_frame zero page pt f = false
on_frame (suc n) page pt f = (get_frame pt page == f) || on_frame n (suc page) pt f

on_frame-del :
    (n page gone : ℕ) (pt : PageTable) (f : ℕ)
    → gone < page
    → on_frame n page (del_ss_pag pt gone) f ≡ on_frame n page pt f
unfolding on_frame get_frame del_ss_pag update
on_frame-del zero page gone pt f lt = refl
on_frame-del (suc n) page gone pt f lt =
    let other : (page == gone) ≡ false = ground arith in
    rw other (
      ap (λ b. (pbase_addr (pt page) == f) || b)
        (on_frame-del n (suc page) gone pt f (omega arith)))

-- A frame that `free_frame` gives back.
abbrev pub is_freed : ℕ → Bool
is_freed f = ltb num_pag_kernel f && ltb f total_pages

release-frames :
    (n page : ℕ) (s : Space) (f : ℕ)
    → (release n page s).frames f
      ≡ (if is_freed f && on_frame n page s.table f then free else s.frames f)
unfolding release on_frame free_frame update
release-frames zero page s f = ground arith
release-frames (suc n) page s f =
    rw
      (
        release-frames n (suc page) (released page s) f,
        on_frame-del n (suc page) page s.table f (omega arith),
      )
      (ground arith)

-- Giving back `n` pages from `page` on unmaps them and no other page, and frees the frames on which
-- they stood, those above 256, and no other frame.
pub release_lem :
    (n page : ℕ) (s : Space) (q f : ℕ)
    → ((release n page s).table q ≡ (if leb page q && ltb q (page + n) then 0 else s.table q))
      × ((release n page s).frames f
          ≡ (if is_freed f && on_frame n page s.table f then free else s.frames f))
release_lem n page s q f = (release-table n page s q, release-frames n page s f)

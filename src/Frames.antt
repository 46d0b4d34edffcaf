-- ===== src/Frames.antt =====
-- The byte map of physical frames of zeOS/mm.c, and the loops of zeOS/sys.c that reserve several
-- frames or none.
pub mod Alloc
pub mod Reserve
mod Tests
use so2_soa_fib.Common.{
  ℕ, zero, suc, ◌+◌, Bool, ◌&&◌, Option, none, some, List, [], ◌∷◌, ◌++◌, ◌==◌, ltb, if◌then◌else◌,
  update,
}

abbrev pub total_pages : ℕ
total_pages = 1024

abbrev pub num_pag_kernel : ℕ
num_pag_kernel = 256

-- FREE_FRAME and USED_FRAME
abbrev pub free : ℕ
free = 0

abbrev pub used : ℕ
used = 1

-- The array `phys_mem`; no index at or above `total_pages` is read or written.
abbrev pub PhysMem : Type 0
PhysMem = ℕ → ℕ

-- One of the two loops of `init_frames`: `k` rounds from index `i` on.
unfoldable pub fill : ℕ → ℕ → ℕ → PhysMem → PhysMem
fill zero i v mem = mem
fill (suc k) i v mem = fill k (suc i) v (update mem i v)

unfoldable pub init_frames : PhysMem → PhysMem
unfolding fill
init_frames mem = fill num_pag_kernel 0 used (fill total_pages 0 free mem)

-- The loop of `alloc_frame` on fuel; -1 is `none`.
unfoldable pub alloc_loop : ℕ → ℕ → PhysMem → Option ℕ × PhysMem
alloc_loop zero i mem = (none, mem)
alloc_loop (suc fuel) i mem =
    let rest = alloc_loop fuel (i + 2) mem in
    if ltb i total_pages
    then (if mem i == free then (some i, update mem i used) else rest)
    else (none, mem)

unfoldable pub alloc_frame : PhysMem → Option ℕ × PhysMem
unfolding alloc_loop
alloc_frame mem = alloc_loop total_pages num_pag_kernel mem

unfoldable pub free_frame : ℕ → PhysMem → PhysMem
free_frame frame mem =
    if ltb num_pag_kernel frame && ltb frame total_pages then update mem frame free else mem

-- `for (j = 0; j < i; j++) free_frame(frames[j])`
unfoldable pub free_frames : List ℕ → PhysMem → PhysMem
unfolding free_frame
free_frames [] mem = mem
free_frames (f ∷ fs) mem = free_frames fs (free_frame f mem)

-- The loop of `sys_fork` and of `sys_sbrk` that reserves frames: `n` rounds left, with `frames`
-- reserved. If one fails, all are given back. `reserve_next` is the body after `alloc_frame`.
unfoldable pub reserve_next :
    (List ℕ → PhysMem → Option (List ℕ) × PhysMem)
    → List ℕ
    → Option ℕ × PhysMem
    → Option (List ℕ) × PhysMem
reserve_next rest frames (none, mem) = (none, free_frames frames mem)
reserve_next rest frames (some x, mem) = rest (frames ++ x ∷ []) mem

unfoldable pub reserve_loop : ℕ → List ℕ → PhysMem → Option (List ℕ) × PhysMem
unfolding reserve_next
reserve_loop zero frames mem = (some frames, mem)
reserve_loop (suc n) frames mem = reserve_next (reserve_loop n) frames (alloc_frame mem)

unfoldable pub reserve : ℕ → PhysMem → Option (List ℕ) × PhysMem
reserve n mem = reserve_loop n [] mem

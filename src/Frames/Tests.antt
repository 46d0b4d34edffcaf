-- ===== src/Frames/Tests.antt =====
-- The frame map at concrete states.
use so2_soa_fib.Common.{◌≡◌, refl, some, none, [], ◌∷◌, ltb, ◌==◌, if◌then◌else◌, update}
use so2_soa_fib.Frames.{PhysMem, alloc_frame, free_frame, reserve, reserve_loop}
use so2_soa_fib.Frames.Alloc.{free_frame-alloc_frame, Allocated, alloc_frame-Allocated}
use so2_soa_fib.Frames.Reserve.{Reserved, reserve-Reserved}

abbrev raw : PhysMem
raw = λ q. 7

-- After boot: frames 0 to 255 are used.
abbrev booted : PhysMem
booted = λ q. if ltb q 256 then 1 else 0

first_frames : (reserve 3 booted).0 ≡ some (256 ∷ 258 ∷ 260 ∷ [])
unfolding reserve reserve_loop alloc_frame update
first_frames = refl

-- All even frames but 1022 are used.
abbrev nearly_full : PhysMem
nearly_full = λ q. if q == 1022 then 0 else 1

not_enough : (reserve 2 nearly_full).0 ≡ none
unfolding reserve reserve_loop alloc_frame update
not_enough = refl

alloc-nearly_full : alloc_frame nearly_full ≡ (some 1022, update nearly_full 1022 1)
unfolding alloc_frame
alloc-nearly_full = refl

free_frame-alloc_frame_example : free_frame 1022 (update nearly_full 1022 1) ≡ nearly_full
free_frame-alloc_frame_example =
    free_frame-alloc_frame nearly_full (update nearly_full 1022 1) 1022 alloc-nearly_full

alloc_frame-Allocated_example : Allocated 256 booted (alloc_frame booted)
alloc_frame-Allocated_example = alloc_frame-Allocated booted

reserve-Reserved_example : Reserved 2 nearly_full (reserve 2 nearly_full)
reserve-Reserved_example = reserve-Reserved 2 nearly_full

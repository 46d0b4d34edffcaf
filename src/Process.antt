-- ===== src/Process.antt =====
-- The memory of a process: `set_user_pages` and `free_user_pages` of zeOS/mm.c, `sys_sbrk` and
-- `sys_exit` of zeOS/sys.c.
pub mod Release
pub mod Exit
pub mod Map
pub mod Heap
mod Tests
use so2_soa_fib.Common.{
  ℕ, zero, suc, ◌+◌, ◌-◌, ◌/◌, ◌%◌, ◌^◌, Bool, Option, none, some, List, [], ◌∷◌, ◌>>=◌, ◌==◌, ltb,
  if◌then◌else◌, update, ℤ, pos, negsuc, neg,
}
use so2_soa_fib.Frames.{PhysMem, alloc_frame, free_frame, reserve}
use so2_soa_fib.PageTable.{
  PageTable, with_present, with_rw, with_user, with_pbase_addr, set_ss_pag, del_ss_pag, get_frame,
}
use so2_soa_fib.Kernel.{Kernel, Task, current, set_task, get_pt, freequeue}
use so2_soa_fib.Sched.{update_process_state_rr, sched_next_rr}

-- PAG_LOG_INIT_CODE, NUM_PAG_CODE, PAG_LOG_INIT_DATA, NUM_PAG_DATA, L_HEAP_START and HEAP_FIRST_PAGE
abbrev pub pag_log_init_code : ℕ
pag_log_init_code = 256

abbrev pub num_pag_code : ℕ
num_pag_code = 8

abbrev pub pag_log_init_data : ℕ
pag_log_init_data = 264

abbrev pub num_pag_data : ℕ
num_pag_data = 20

abbrev pub l_heap_start : ℕ
l_heap_start = 0x11c000

abbrev pub heap_first_page : ℕ
heap_first_page = 284

-- PAG_HEAP of an `unsigned long`.
abbrev pub pag_heap : ℕ → ℕ
pag_heap brk = (brk + 2 ^ 32 - l_heap_start) % 2 ^ 32 / 4096

-- The frames and one page table.
pub record Space : Type 0 where
  pub frames : PhysMem
  pub table : PageTable

-- The frame that `alloc_frame` gives, as an `int` that is stored in 20 bits: -1 is all ones.
abbrev pub frame_bits : Option ℕ → ℕ
frame_bits none = 2 ^ 32 - 1
frame_bits (some f) = f

-- An entry of the code, and one of the data.
unfoldable pub code_entry : ℕ → ℕ
unfolding with_present with_user with_pbase_addr
code_entry f = with_present (with_user (with_pbase_addr f 0))

unfoldable pub data_entry : ℕ → ℕ
unfolding with_present with_rw with_user with_pbase_addr
data_entry f = with_present (with_rw (with_user (with_pbase_addr f 0)))

-- One of the two loops of `set_user_pages`, over `n` pages from `page` on.
unfoldable pub user_pages : (ℕ → ℕ) → ℕ → ℕ → Space → Space
user_pages entry zero page s = s
user_pages entry (suc n) page s =
    let (f, frames) = alloc_frame s.frames in
    user_pages entry n (suc page)
      (record { frames = frames; table = update s.table page (entry (frame_bits f)) })

-- The table of a task and the frames, taken out of the state and put back.
unfoldable pub in_space : (Space → Space) → ℕ → Kernel → Kernel
in_space f i k =
    let page = get_pt k (k.task i) in
    let s = f (record { frames = k.phys_mem; table = k.tables page }) in
    record k { phys_mem = s.frames; tables = update k.tables page s.table }

unfoldable pub set_user_pages : ℕ → Kernel → Kernel
unfolding in_space user_pages code_entry data_entry
set_user_pages i k =
    in_space
      (λ s.
        user_pages data_entry num_pag_data pag_log_init_data
          (user_pages code_entry num_pag_code pag_log_init_code s))
      i k

-- `free_frame` of the frame of each of `n` pages from `page` on, and the page unmapped.
unfoldable pub release : ℕ → ℕ → Space → Space
unfolding get_frame del_ss_pag
release zero page s = s
release (suc n) page s = release n (suc page) (record {
  frames = free_frame (get_frame s.table page) s.frames;
  table = del_ss_pag s.table page;
})

unfoldable pub free_user_pages : ℕ → Kernel → Kernel
unfolding in_space release
free_user_pages i k = in_space (release num_pag_data pag_log_init_data) i k

-- NUM_PAG_DATA_HEAP, the rounds of the loops of `sys_exit` and `sys_fork`. In the code `brk` is an
-- `int` and PAG_HEAP an arithmetic shift: the pages of the heap are a negative number where the
-- difference from L_HEAP_START is one, and where the sum is negative the loops do nothing.
unfoldable pub num_pag_data_heap : ℕ → ℕ
num_pag_data_heap brk =
    let difference = (brk + 2 ^ 32 - l_heap_start) % 2 ^ 32 in
    let rest = if brk % 4096 == 0 then 0 else 1 in
    if ltb difference (2 ^ 31)
    then num_pag_data + difference / 4096 + rest
    else num_pag_data + rest - (2 ^ 32 - difference + 4095) / 4096

unfoldable pub sys_exit : Kernel → Option Kernel
unfolding in_space release num_pag_data_heap set_task
sys_exit k = do
  let k = in_space (release (num_pag_data_heap (current k).brk) pag_log_init_data) k.running k
  let t = current k
  let k = set_task k.running (record t { pid = neg 1 }) k
  k ← update_process_state_rr k.running freequeue k
  sched_next_rr k

-- The second loop of `sys_sbrk`: the frames are mapped one page after another.
unfoldable pub map_frames : List ℕ → ℕ → PageTable → PageTable
map_frames [] page pt = pt
map_frames (f ∷ fs) page pt = map_frames fs (suc page) (set_ss_pag pt page f)

unfoldable pub set_brk : ℕ → Kernel → Kernel
unfolding set_task
set_brk brk k = let t = current k in set_task k.running (record t { brk = brk }) k

-- The first page of the heap behind an address that may be in the middle of a page.
abbrev pub next_page : ℕ → ℕ
next_page a = heap_first_page + pag_heap a + (if a % 4096 == 0 then 0 else 1)

-- The difference of two pages of the heap, and one page more if `a` is the start of a page. Where the
-- `int` of the code is negative, its loops do nothing, as for 0.
abbrev pub pages_between : ℕ → ℕ → ℕ → ℕ
pages_between low high a = pag_heap high + (if a % 4096 == 0 then 1 else 0) - pag_heap low

unfoldable pub grown : ℕ → ℕ → Kernel → Option (List ℕ) × PhysMem → ℤ × Kernel
unfolding map_frames set_brk
grown brk n k (none, mem) = (neg 1, record k { phys_mem = mem })
grown brk n k (some fs, mem) =
    let page = get_pt k (current k) in
    let pt = map_frames fs (next_page brk) (k.tables page) in
    (
      pos brk,
      set_brk ((brk + n) % 2 ^ 32) (record k { phys_mem = mem; tables = update k.tables page pt }),
    )

-- `brk + n` does not wrap: the array of a negative number of frames is not defined in C.
unfoldable pub grow : ℕ → ℕ → Kernel → ℤ × Kernel
unfolding grown
grow brk n k = grown brk n k (reserve (pages_between brk (brk + n) brk) k.phys_mem)

unfoldable pub shrink : ℕ → ℕ → Kernel → ℤ × Kernel
unfolding in_space release set_brk
shrink brk n k =
    let low = (brk + 2 ^ 32 - n) % 2 ^ 32 in
    let dest = if ltb low l_heap_start then l_heap_start else low in
    (
      pos brk,
      set_brk dest (in_space (release (pages_between dest brk dest) (next_page dest)) k.running k),
    )

unfoldable pub sys_sbrk : ℤ → Kernel → ℤ × Kernel
unfolding grow shrink set_brk
sys_sbrk (pos zero) k = (pos (current k).brk, set_brk (current k).brk k)
sys_sbrk (pos (suc n)) k = grow (current k).brk (suc n) k
sys_sbrk (negsuc n) k =
    if (current k).brk == l_heap_start then (neg 1, k) else shrink (current k).brk (suc n) k

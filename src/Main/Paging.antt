-- ===== src/Main/Paging.antt =====
-- The address spaces once `init_mm` is done.
use so2_soa_fib.Common.{
  ℕ, ◌+◌, ◌-◌, ◌/◌, ◌^◌, ◌≤◌, ◌<◌, ◌≡◌, ◌⊎◌, refl, arith, true, ◌&&◌, leb, ltb, if◌then◌else◌,
  update,
}
use so2_soa_fib.Frames.{used, free}
use so2_soa_fib.Frames.Alloc.{init_frames_lem}
use so2_soa_fib.PageTable.{
  PageTable, present, pbase_addr, get_frame, init_table_pages, init_dir_pages,
}
use so2_soa_fib.PageTable.Boot.{init_table_pages_lem, init_dir_pages_lem}
use so2_soa_fib.Kernel.{Kernel, nr_tasks, cr3_table, translate}
use so2_soa_fib.Main.{init_tables, init_mm}

-- An address space of the kernel alone: its pages are present and stand on the frames of their numbers.
abbrev pub KernelOnly : PageTable → Type 0
KernelOnly pt =
    ((a : ℕ) → 4096 ≤ a → a < 2 ^ 20 → translate pt a ≡ a)
    × ((page : ℕ) → 1 ≤ page → page < 256 → present (pt page) ≡ 1)
    × ((page : ℕ) → (page < 1) ⊎ (256 ≤ page) → page < 1024 → present (pt page) ≡ 0)

-- Paging begins in such a space, each task has one, and the kernel's frames are in use.
pub record Paged (k : Kernel) : Type 0 where
  pub running : (present (k.dir_pages k.cr3) ≡ 1) × KernelOnly (cr3_table k)
  pub tasks :
      (t : ℕ)
      → t < nr_tasks
      → (present (k.dir_pages t) ≡ 1) × KernelOnly (k.tables (pbase_addr (k.dir_pages t)))
  pub frames : (f : ℕ) → f < 1024 → k.phys_mem f ≡ (if ltb f 256 then used else free)

module _ (k : Kernel) (fits : k.pagusr_page + nr_tasks ≤ 2 ^ 20) (t : ℕ) (lt : t < nr_tasks) where
  table_of :
      init_tables k (pbase_addr (init_dir_pages k.pagusr_page nr_tasks 0 k.dir_pages t))
      ≡ init_table_pages nr_tasks 0 (λ j. k.tables (k.pagusr_page + j)) t
  unfolding init_tables
  table_of =
      let low : leb k.pagusr_page (k.pagusr_page + t) ≡ true = ground arith in
      let high : ltb (k.pagusr_page + t) (k.pagusr_page + nr_tasks) ≡ true = ground arith in
      let index : k.pagusr_page + t - k.pagusr_page ≡ t = omega arith in
      rw ((init_dir_pages_lem k.pagusr_page k.dir_pages t lt fits).0, low, high, index) refl

  table_of-KernelOnly :
      KernelOnly
        (init_tables k (pbase_addr (init_dir_pages k.pagusr_page nr_tasks 0 k.dir_pages t)))
  unfolding translate get_frame
  table_of-KernelOnly =
      let entry = init_table_pages_lem (λ j. k.tables (k.pagusr_page + j)) t in
      (
        λ a low high.
            let kernel : (ltb 0 (a / 4096) && ltb (a / 4096) 256) ≡ true = ground arith in
            rw (table_of, entry (a / 4096) lt (omega arith), kernel) (omega arith),
        λ page low high.
            let kernel : (ltb 0 page && ltb page 256) ≡ true = ground arith in
            rw (table_of, entry page lt (omega arith), kernel) (omega arith),
        λ page out high. rw (table_of, entry page lt high) (ground arith),
      )

-- If the page tables stand below 2 ^ 32, then after init_mm paging begins in the space of task 0, and
-- there, as in the space of each of the ten tasks, every address of the kernel's pages, 4096 to
-- 2 ^ 20 - 1, is on a page that is present, as the directory's entry is, and is found where it was
-- without paging, and page 0 and the pages from 256 on are not present; and of the frames the first
-- 256 are in use and the others free.
pub init_mm-Paged : (k : Kernel) → k.pagusr_page + nr_tasks ≤ 2 ^ 20 → Paged (init_mm k)
unfolding init_mm update
init_mm-Paged k fits = record {
  running = (directory 0 (omega arith), table_of-KernelOnly k fits 0 (omega arith));
  tasks = λ t lt. (directory t lt, table_of-KernelOnly k fits t lt);
  frames = λ f lt. init_frames_lem k.phys_mem f lt;
}
  where
    directory :
        (t : ℕ) → t < nr_tasks → present (init_dir_pages k.pagusr_page nr_tasks 0 k.dir_pages t) ≡ 1
    directory t lt = (init_dir_pages_lem k.pagusr_page k.dir_pages t lt fits).1

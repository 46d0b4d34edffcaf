-- ===== src/PageTable.antt =====
-- The page tables of zeOS/mm.c. A `page_table_entry` is its 32-bit word; its bit fields are read
-- and written by division and remainder. A table is a memory of such words by page number.
pub mod Entry
pub mod Boot
mod Tests
use so2_soa_fib.Common.{ℕ, zero, suc, ◌+◌, ◌*◌, ◌/◌, ◌%◌, ◌^◌, update}

abbrev pub PageTable : Type 0
PageTable = ℕ → ℕ

-- bits.present, bits.rw, bits.user and bits.pbase_addr
abbrev pub present : ℕ → ℕ
present e = e % 2

abbrev pub rw_bit : ℕ → ℕ
rw_bit e = e / 2 % 2

abbrev pub user : ℕ → ℕ
user e = e / 4 % 2

abbrev pub pbase_addr : ℕ → ℕ
pbase_addr e = e / 4096 % 2 ^ 20

-- The word after `bits.present = 1` and so on. A value is cut to the width of its field.
unfoldable pub with_present : ℕ → ℕ
with_present e = e / 2 * 2 + 1

unfoldable pub with_rw : ℕ → ℕ
with_rw e = e / 4 * 4 + 2 + e % 2

unfoldable pub with_user : ℕ → ℕ
with_user e = e / 8 * 8 + 4 + e % 4

unfoldable pub with_pbase_addr : ℕ → ℕ → ℕ
with_pbase_addr frame e = frame % 2 ^ 20 * 4096 + e % 4096

unfoldable pub set_ss_pag : PageTable → ℕ → ℕ → PageTable
unfolding with_present with_rw with_user with_pbase_addr
set_ss_pag pt page frame =
    let e = with_pbase_addr frame 0 in
    let e = with_user e in let e = with_rw e in update pt page (with_present e)

unfoldable pub del_ss_pag : PageTable → ℕ → PageTable
del_ss_pag pt page = update pt page 0

unfoldable pub get_frame : PageTable → ℕ → ℕ
get_frame pt page = pbase_addr (pt page)

-- The two loops of `init_table_pages` for one table: `k` rounds from page `i` on.
unfoldable pub reset_loop : ℕ → ℕ → PageTable → PageTable
reset_loop zero i pt = pt
reset_loop (suc k) i pt = reset_loop k (suc i) (update pt i 0)

-- A kernel page: the frame of the same number, writable, present, and not the user's.
unfoldable pub kernel_entry : ℕ → ℕ → ℕ
unfolding with_present with_rw with_pbase_addr
kernel_entry i e = with_present (with_rw (with_pbase_addr i e))

unfoldable pub kernel_loop : ℕ → ℕ → PageTable → PageTable
kernel_loop zero i pt = pt
kernel_loop (suc k) i pt = kernel_loop k (suc i) (update pt i (kernel_entry i (pt i)))

unfoldable pub init_table : PageTable → PageTable
init_table pt = kernel_loop 255 1 (reset_loop 1024 0 pt)

-- `init_table_pages` over the tables of the tasks, from task `j` on.
unfoldable pub init_table_pages : ℕ → ℕ → (ℕ → PageTable) → ℕ → PageTable
init_table_pages zero j tables = tables
init_table_pages (suc k) j tables =
    init_table_pages k (suc j) (update tables j (init_table (tables j)))

-- `init_dir_pages`: `base` is the page at which `pagusr_table` stands, and each directory's entry 0
-- points to its task's table.
unfoldable pub dir_entry : ℕ → ℕ → ℕ
unfolding with_present with_rw with_user with_pbase_addr
dir_entry base i = with_present (with_rw (with_user (with_pbase_addr (base + i) 0)))

unfoldable pub init_dir_pages : ℕ → ℕ → ℕ → (ℕ → ℕ) → ℕ → ℕ
init_dir_pages base zero i dir = dir
init_dir_pages base (suc k) i dir = init_dir_pages base k (suc i) (update dir i (dir_entry base i))

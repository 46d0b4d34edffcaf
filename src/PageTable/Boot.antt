-- ===== src/PageTable/Boot.antt =====
-- The tables and directories after boot.
use so2_soa_fib.Common.{
  ℕ, zero, suc, ◌*◌, ◌+◌, ◌^◌, ◌<◌, ◌≤◌, ◌≡◌, ap, ◌∙◌, arith, ltb, if◌then◌else◌, ◌&&◌, update,
}
use so2_soa_fib.PageTable.{
  PageTable, present, pbase_addr, reset_loop, kernel_loop, kernel_entry, init_table,
  init_table_pages, dir_entry, init_dir_pages,
}

reset_loop_lem :
    (k i : ℕ) (pt : PageTable) (q : ℕ)
    → reset_loop k i pt q ≡ (if ltb q i then pt q else if ltb q (i + k) then 0 else pt q)
unfolding reset_loop update
reset_loop_lem zero i pt q = ground arith
reset_loop_lem (suc k) i pt q = ground (arith, reset_loop_lem k (suc i) (update pt i 0) q)

kernel_loop_lem :
    (k i : ℕ) (pt : PageTable) (q : ℕ)
    → kernel_loop k i pt q
      ≡ (if ltb q i then pt q else if ltb q (i + k) then kernel_entry q (pt q) else pt q)
unfolding kernel_loop update
kernel_loop_lem zero i pt q = ground arith
kernel_loop_lem (suc k) i pt q =
    ground (arith, kernel_loop_lem k (suc i) (update pt i (kernel_entry i (pt i))) q)

kernel_entry_zero : (i : ℕ) → i < 1024 → kernel_entry i 0 ≡ i * 4096 + 3
unfolding kernel_entry
kernel_entry_zero i h = omega arith

init_table_lem :
    (pt : PageTable) (q : ℕ)
    → q < 1024
    → init_table pt q ≡ (if ltb 0 q && ltb q 256 then q * 4096 + 3 else 0)
unfolding init_table
init_table_lem pt q h = ground (
  arith,
  kernel_loop_lem 255 1 (reset_loop 1024 0 pt) q,
  reset_loop_lem 1024 0 pt q,
  kernel_entry_zero q h,
)

init_table_pages_at :
    (k j : ℕ) (tables : ℕ → PageTable) (t : ℕ)
    → init_table_pages k j tables t
      ≡ (if ltb t j then tables t else if ltb t (j + k) then init_table (tables t) else tables t)
unfolding init_table_pages update
init_table_pages_at zero j tables t = ground arith
init_table_pages_at (suc k) j tables t =
    ground (arith, init_table_pages_at k (suc j) (update tables j (init_table (tables j))) t)

-- After `init_table_pages` the table of each of the ten tasks maps pages 1 to 255 to the frames of
-- the same numbers, writable and not the user's, and no other page: page 0 stays unmapped.
pub init_table_pages_lem :
    (tables : ℕ → PageTable) (t q : ℕ)
    → t < 10
    → q < 1024
    → init_table_pages 10 0 tables t q ≡ (if ltb 0 q && ltb q 256 then q * 4096 + 3 else 0)
init_table_pages_lem tables t q ht hq =
    ap (λ pt. pt q) (init_table_pages_at 10 0 tables t ∙ inside t ht)
    ∙ init_table_lem (tables t) q hq
  where
    inside :
        (s : ℕ)
        → s < 10
        → (if ltb s 0 then tables s else if ltb s (0 + 10) then init_table (tables s) else tables s)
          ≡ init_table (tables s)
    inside s h = ground arith

init_dir_pages_at :
    (base k i : ℕ) (dir : ℕ → ℕ) (t : ℕ)
    → init_dir_pages base k i dir t
      ≡ (if ltb t i then dir t else if ltb t (i + k) then dir_entry base t else dir t)
unfolding init_dir_pages update
init_dir_pages_at base zero i dir t = ground arith
init_dir_pages_at base (suc k) i dir t =
    ground (arith, init_dir_pages_at base k (suc i) (update dir i (dir_entry base i)) t)

dir_entry_fields :
    (base t : ℕ)
    → base + t < 2 ^ 20
    → (pbase_addr (dir_entry base t) ≡ base + t) × (present (dir_entry base t) ≡ 1)
unfolding dir_entry
dir_entry_fields base t h = omega arith

-- After `init_dir_pages` entry 0 of the directory of each of the ten tasks gives the page of that
-- task's own table and is present, if the tables stand below 2 ^ 32.
pub init_dir_pages_lem :
    (base : ℕ) (dir : ℕ → ℕ) (t : ℕ)
    → t < 10
    → base + 10 ≤ 2 ^ 20
    → (pbase_addr (init_dir_pages base 10 0 dir t) ≡ base + t)
      × (present (init_dir_pages base 10 0 dir t) ≡ 1)
init_dir_pages_lem base dir t ht hb =
    rw (init_dir_pages_at base 10 0 dir t ∙ inside t ht) (dir_entry_fields base t (omega arith))
  where
    inside :
        (s : ℕ)
        → s < 10
        → (if ltb s 0 then dir s else if ltb s (0 + 10) then dir_entry base s else dir s)
          ≡ dir_entry base s
    inside s h = ground arith

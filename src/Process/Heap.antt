-- ===== src/Process/Heap.antt =====
-- The heap that `sys_sbrk` gives and takes.
use so2_soa_fib.Common.{
  ℕ, zero, suc, ◌+◌, ◌-◌, ◌*◌, ◌/◌, ◌%◌, ◌^◌, ◌≤◌, ◌<◌, ◌≡◌, sym, ap, subst, ◌∙◌, arith, false,
  ◌&&◌, List, length, ◌==◌, ltb, leb, if◌then◌else◌, update, update_self, ℤ, pos, negsuc,
  Bool-cases, inl, inr,
}
use so2_soa_fib.Frames.{PhysMem}
use so2_soa_fib.Frames.Reserve.{all, mark, too_few, reserve-Reserved}
use so2_soa_fib.PageTable.{PageTable, present, pbase_addr}
use so2_soa_fib.Kernel.{Kernel, Task, current, get_pt, set_task}
use so2_soa_fib.Process.{
  Space, release, map_frames, set_brk, next_page, pages_between, pag_heap, l_heap_start,
  heap_first_page, grow, shrink, sys_sbrk,
}
use so2_soa_fib.Process.Release.{release_lem}
use so2_soa_fib.Process.Map.{map_frames_at}

-- Every byte of the heap is on a page that is present in the table.
abbrev pub HasHeap : ℕ → PageTable → Type 0
HasHeap brk pt =
    (l_heap_start ≤ brk) × ((a : ℕ) → l_heap_start ≤ a → a < brk → present (pt (a / 4096)) ≡ 1)

abbrev pub IsHeap : Kernel → Type 0
IsHeap k = HasHeap (current k).brk (k.tables (get_pt k (current k)))

-- The number by which the heap is to change does not lead out of the 32 bits.
abbrev pub Fits : ℤ → ℕ → Type 0
Fits (pos n) brk = brk + n < 2 ^ 32
Fits (negsuc n) brk = n < brk

-- The pages of the heap, counted from the one where it starts.
pag_heap-sub : (v : ℕ) → l_heap_start ≤ v → v < 2 ^ 32 → pag_heap v + 284 ≡ v / 4096
pag_heap-sub v low high = omega arith

-- The bytes below an address `v` are on pages in front of the next one; `h` is its page in the heap.
below_page :
    (v h n a : ℕ)
    → h + 284 ≡ v / 4096
    → a < v
    → let next = heap_first_page + h + (if v % 4096 == 0 then 0 else 1) in
      (leb next (a / 4096) && ltb (a / 4096) (next + n)) ≡ false
below_page v h n a pages high = ground arith

below_next :
    (v n a : ℕ)
    → l_heap_start ≤ v
    → v < 2 ^ 32
    → a < v
    → (leb (next_page v) (a / 4096) && ltb (a / 4096) (next_page v + n)) ≡ false
below_next v n a above lt high = below_page v (pag_heap v) n a (pag_heap-sub v above lt) high

-- A byte of the new heap whose page was not mapped anew is on a page that the heap had.
old_page :
    (brk h h' n a : ℕ)
    → h + 284 ≡ brk / 4096
    → h' + 284 ≡ (brk + n) / 4096
    → a < brk + n
    → let next = heap_first_page + h + (if brk % 4096 == 0 then 0 else 1) in
      let d = h' + (if brk % 4096 == 0 then 1 else 0) - h in
      (leb next (a / 4096) && ltb (a / 4096) (next + d)) ≡ false → a / 4096 * 4096 < brk
old_page brk h h' n a pages pages' high old = ground arith

old_byte :
    (brk n a d : ℕ)
    → l_heap_start ≤ brk
    → brk + n < 2 ^ 32
    → d ≡ pages_between brk (brk + n) brk
    → a < brk + n
    → (leb (next_page brk) (a / 4096) && ltb (a / 4096) (next_page brk + d)) ≡ false
    → a / 4096 * 4096 < brk
old_byte brk n a d above fits len high old =
    old_page brk (pag_heap brk) (pag_heap (brk + n)) n a (pag_heap-sub brk above (omega arith))
      (pag_heap-sub (brk + n) (omega arith) fits) high
      (sym (ap (λ e. leb (next_page brk) (a / 4096) && ltb (a / 4096) (next_page brk + e)) len)
        ∙ old)

-- A page that was present for a byte of it is present for all its bytes.
grown-HasHeap :
    (brk n : ℕ) (fs : List ℕ) (pt : PageTable)
    → brk + n < 2 ^ 32
    → length fs ≡ pages_between brk (brk + n) brk
    → HasHeap brk pt
    → HasHeap ((brk + n) % 2 ^ 32) (map_frames fs (next_page brk) pt)
grown-HasHeap brk n fs pt fits len (above, mapped) = (
  omega arith,
  λ a low high.
      elim (Bool-cases
        (leb (next_page brk) (a / 4096) && ltb (a / 4096) (next_page brk + length fs))) [
          | inl new ↦ rw (map_frames_at fs (next_page brk) pt (a / 4096), new) (omega arith)
          | inr old ↦
              let start : a / 4096 * 4096 / 4096 ≡ a / 4096 = omega arith in
              rw (map_frames_at fs (next_page brk) pt (a / 4096), old)
                (ap (λ p. present (pt p)) (sym start)
                  ∙ mapped (a / 4096 * 4096) (omega arith)
                      (old_byte brk n a (length fs) above fits len (omega arith) old))
        ],
)

shrunk-HasHeap :
    (brk dest n : ℕ) (s : Space)
    → l_heap_start ≤ dest
    → dest ≤ brk
    → dest < 2 ^ 32
    → HasHeap brk s.table
    → HasHeap dest (release n (next_page dest) s).table
shrunk-HasHeap brk dest n s above le lt (_, mapped) = (
  above,
  λ a low high.
      let kept : (leb (next_page dest) (a / 4096) && ltb (a / 4096) (next_page dest + n)) ≡ false =
        below_next dest n a above lt high in
      rw ((release_lem n (next_page dest) s (a / 4096) 0).0, kept) (mapped a low (omega arith)),
)

-- The state in which the running task gets a table and another end of its heap.
set_brk-IsHeap :
    (v : ℕ) (pt : PageTable) (mem : PhysMem) (k : Kernel)
    → HasHeap v pt
    → IsHeap (
        set_brk v (record k { phys_mem = mem; tables = update k.tables (get_pt k (current k)) pt }))
unfolding set_brk set_task
set_brk-IsHeap v pt mem k h =
    let page = get_pt k (current k) in
    subst (λ (t : Task). HasHeap t.brk (update k.tables page pt (pbase_addr (k.dir_pages t.dir))))
      (sym (update_self k.task k.running (record (current k) { brk = v })))
      (subst (HasHeap v) (sym (update_self k.tables page pt)) h)

grow-IsHeap :
    (n : ℕ) (k : Kernel)
    → (current k).brk + n < 2 ^ 32
    → IsHeap k
    → IsHeap (grow (current k).brk n k).1
unfolding grow
grow-IsHeap n k fits h =
    let brk = (current k).brk in
    let d = pages_between brk (brk + n) brk in
    elim (reserve-Reserved d k.phys_mem) [
      | all fs len free e ↦ rw e (
          set_brk-IsHeap ((brk + n) % 2 ^ 32) _ (mark fs k.phys_mem) k
            (grown-HasHeap brk n fs (k.tables (get_pt k (current k))) fits len h))
      | too_few fs len free none_left e ↦ rw e h
    ]

shrink-IsHeap :
    (n : ℕ) (k : Kernel)
    → n ≤ (current k).brk
    → (current k).brk < 2 ^ 32
    → IsHeap k
    → IsHeap (shrink (current k).brk n k).1
unfolding shrink
shrink-IsHeap n k le lt h =
    let brk = (current k).brk in
    let low = (brk + 2 ^ 32 - n) % 2 ^ 32 in
    let dest = if ltb low l_heap_start then l_heap_start else low in
    let d = pages_between dest brk dest in
    let page = get_pt k (current k) in
    let s : Space = record { frames = k.phys_mem; table = k.tables page } in
    set_brk-IsHeap dest (release d (next_page dest) s).table (release d (next_page dest) s).frames k
      (shrunk-HasHeap brk dest d s (ground arith) (ground (arith, h.0)) (ground arith) h)

-- If every byte of the running task's heap is on a present page, and the heap starts at L_HEAP_START
-- and ends below 2 ^ 32 before and after the call, then after `sys_sbrk` of any number, whether it
-- gives memory, takes memory or finds too few frames, every byte of the heap is on a present page.
pub sys_sbrk-IsHeap :
    (n : ℤ) (k : Kernel)
    → (current k).brk < 2 ^ 32
    → Fits n (current k).brk
    → IsHeap k
    → IsHeap (sys_sbrk n k).1
unfolding sys_sbrk set_brk set_task
sys_sbrk-IsHeap (pos zero) k lt fits h =
    subst (λ (t : Task). HasHeap t.brk (k.tables (pbase_addr (k.dir_pages t.dir))))
      (sym (update_self k.task k.running (record (current k) { brk = (current k).brk }))) h
sys_sbrk-IsHeap (pos (suc n)) k lt fits h = grow-IsHeap (suc n) k fits h
sys_sbrk-IsHeap (negsuc n) k lt fits h = elim (Bool-cases ((current k).brk == l_heap_start)) [
  | inl bottom ↦ rw bottom h
  | inr above ↦ rw above (shrink-IsHeap (suc n) k (omega arith) lt h)
]

-- ===== src/Fork/Views.antt =====
-- The memory of the child of `sys_fork` and of its parent.
use so2_soa_fib.Common.{
  ℕ, ◌+◌, ◌-◌, ◌*◌, ◌/◌, ◌%◌, ◌≤◌, ◌<◌, ◌≡◌, ◌≢◌, sym, ap, ◌∙◌, List, [], ◌∷◌, arith, length, ltb,
  Out, Distinct, inl, inr, subst, Bool-cases,
}
use so2_soa_fib.Utils.{Memory}
use so2_soa_fib.PageTable.{PageTable, pbase_addr, get_frame}
use so2_soa_fib.Frames.{PhysMem, free}
use so2_soa_fib.Frames.Reserve.{AllFree}
use so2_soa_fib.Kernel.{view, translate}
use so2_soa_fib.Fork.{Copying, child_table, copy_pages}
use so2_soa_fib.Fork.Copy.{Copies, copy_pages-Copies}
use so2_soa_fib.Fork.Table.{child_table-code, child_table-data}

AllFree-Distinct : (fs : List ℕ) (mem : PhysMem) → AllFree fs mem → Distinct fs
AllFree-Distinct [] mem a = tt
AllFree-Distinct (f ∷ fs) mem a = (a.2, AllFree-Distinct fs mem a.3)

-- A frame in use is none of those reserved.
used-Out : (g : ℕ) (fs : List ℕ) (mem : PhysMem) → mem g ≢ free → AllFree fs mem → Out g fs
used-Out g [] mem u a = tt
used-Out g (f ∷ fs) mem u a = ((λ e. u (ap mem e ∙ a.1)), used-Out g fs mem u a.3)

-- The pages of code and the `n` pages of data of a table stand on frames in use.
abbrev pub InUse : ℕ → PageTable → PhysMem → Type 0
InUse n pt mem = (page : ℕ) → 256 ≤ page → page < 264 + n → mem (get_frame pt page) ≢ free

-- Two tables with memories show the same bytes on the pages of code and `n` pages of data.
abbrev pub SameView : ℕ → PageTable → Memory → PageTable → Memory → Type 0
SameView n pt ram pt' ram' =
    (a : ℕ) → 256 * 4096 ≤ a → a < (264 + n) * 4096 → view pt' ram' a ≡ view pt ram a

module _ (n : ℕ) (frames : List ℕ) (mem : PhysMem) (pt old : PageTable) (ram : Memory)
    (all : AllFree frames mem) (len : length frames ≡ n) (used : InUse n pt mem) where
  abbrev before : Copying
  before = record { table = pt; ram = ram }

  abbrev after : Copying
  after = copy_pages n frames 264 before

  copies : Copies n frames 264 before after
  copies =
      copy_pages-Copies n frames 264 before (omega arith) (AllFree-Distinct frames mem all) (λ i h.
        used-Out (get_frame pt (264 + i)) frames mem (used (264 + i) (omega arith) (omega arith))
          all)

  -- The memory of the pages of the parent is as it was.
  untouched :
      (page o : ℕ)
      → 256 ≤ page
      → page < 264 + n
      → o < 4096
      → after.ram (get_frame pt page * 4096 + o) ≡ ram (get_frame pt page * 4096 + o)
  untouched page o low high h =
      let frame : (get_frame pt page * 4096 + o) / 4096 ≡ get_frame pt page = omega arith in
      copies.others _ (
        subst (λ g. Out g frames) (sym frame)
          (used-Out (get_frame pt page) frames mem (used page low high) all))

  pub parent_view : SameView n pt ram after.table after.ram
  unfolding view translate get_frame
  parent_view a low high =
      let page : a / 4096 < 264 + n = omega arith in
      ap (λ e. after.ram (pbase_addr e * 4096 + a % 4096))
        (copies.table (a / 4096) (inl (omega arith)))
      ∙ untouched (a / 4096) (a % 4096) (omega arith) page (omega arith)

  pub child_view : SameView n pt ram (child_table frames pt old) after.ram
  unfolding view translate
  child_view a low high = elim (Bool-cases (ltb (a / 4096) 264)) [
    | inl code ↦
        ap (λ g. after.ram (g * 4096 + a % 4096))
          (child_table-code frames pt old (a / 4096) (omega arith) (ground arith))
        ∙ untouched (a / 4096) (a % 4096) (omega arith) (omega arith) (omega arith)
    | inr data_page ↦
        let i : ℕ = a / 4096 - 264 in
        let page : a / 4096 ≡ 264 + i = ground arith in
        let lt : i < length frames = ground arith in
        ap (λ p. after.ram (get_frame (child_table frames pt old) p * 4096 + a % 4096)) page
        ∙ ap (λ g. after.ram (g * 4096 + a % 4096)) (child_table-data frames mem pt old i all lt)
        ∙ copies.copied i (a % 4096) lt (omega arith)
        ∙ ap (λ p. ram (get_frame pt p * 4096 + a % 4096)) (sym page)
  ]

-- ===== src/Fork/Inherit.antt =====
-- The tables and the memory after the child has inherited, seen from both.
use so2_soa_fib.Common.{
  ℕ, ◌≡◌, ◌≢◌, sym, ap, ◌∙◌, List, length, update, update_ne, update_self, subst,
}
use so2_soa_fib.PageTable.{PageTable}
use so2_soa_fib.Frames.{PhysMem}
use so2_soa_fib.Frames.Reserve.{AllFree}
use so2_soa_fib.Kernel.{Kernel, current, get_pt}
use so2_soa_fib.Fork.{Copying, child_table, copy_pages, inherit}
use so2_soa_fib.Fork.Views.{InUse, SameView, parent_view, child_view}

module _ (n child : ℕ) (frames : List ℕ) (mem : PhysMem) (j : Kernel)
    (all_free : AllFree frames mem) (len : length frames ≡ n)
    (used : InUse n (j.tables (get_pt j (current j))) mem)
    (apart : get_pt j (current j) ≢ get_pt j (j.task child)) where
  abbrev parent_page : ℕ
  parent_page = get_pt j (current j)

  abbrev child_page : ℕ
  child_page = get_pt j (j.task child)

  abbrev new_table : PageTable
  new_table = child_table frames (j.tables parent_page) (j.tables child_page)

  abbrev copying : Copying
  copying = copy_pages n frames 264 (record { table = j.tables parent_page; ram = j.ram })

  copying-start :
      copy_pages n frames 264
        (record { table = update j.tables child_page new_table parent_page; ram = j.ram })
      ≡ copying
  copying-start =
      ap (λ t. copy_pages n frames 264 (record { table = t; ram = j.ram }))
        (update_ne j.tables child_page new_table apart)

  inherit-ram : (inherit child n frames j).ram ≡ copying.ram
  unfolding inherit
  inherit-ram = ap (λ c. c.ram) copying-start

  inherit-child :
      SameView n
        (j.tables parent_page)
        j.ram
        ((inherit child n frames j).tables child_page)
        (inherit child n frames j).ram
  inherit-child =
      subst
        (λ r.
          SameView n (j.tables parent_page) j.ram ((inherit child n frames j).tables child_page) r)
        (sym inherit-ram)
        (subst (λ t. SameView n (j.tables parent_page) j.ram t copying.ram) (sym table)
          (child_view n frames mem (j.tables parent_page) (j.tables child_page) j.ram all_free len
            used))
    where
      table : (inherit child n frames j).tables child_page ≡ new_table
      table =
          unfold inherit in
          (update_ne _ parent_page _ (λ e. apart (sym e))
            ∙ update_self j.tables child_page new_table)

  inherit-parent :
      SameView n
        (j.tables parent_page)
        j.ram
        ((inherit child n frames j).tables parent_page)
        (inherit child n frames j).ram
  inherit-parent =
      subst
        (λ r.
          SameView n (j.tables parent_page) j.ram ((inherit child n frames j).tables parent_page) r)
        (sym inherit-ram)
        (subst (λ t. SameView n (j.tables parent_page) j.ram t copying.ram) (sym table)
          (parent_view n frames mem (j.tables parent_page) (j.tables child_page) j.ram all_free len
            used))
    where
      table : (inherit child n frames j).tables parent_page ≡ copying.table
      table = unfold inherit in (update_self _ parent_page _ ∙ ap (λ c. c.table) copying-start)

pub inherit-views :
    (n child : ℕ) (frames : List ℕ) (mem : PhysMem) (j : Kernel) (pp cp : ℕ)
    → AllFree frames mem
    → length frames ≡ n
    → get_pt j (current j) ≡ pp
    → get_pt j (j.task child) ≡ cp
    → InUse n (j.tables pp) mem
    → pp ≢ cp
    → SameView n
        (j.tables pp)
        j.ram
        ((inherit child n frames j).tables cp)
        (inherit child n frames j).ram
      × SameView n
          (j.tables pp)
          j.ram
          ((inherit child n frames j).tables pp)
          (inherit child n frames j).ram
inherit-views n child frames mem j pp cp free len parent own used apart =
    subst (λ p. AtPages p cp) parent
      (subst (AtPages (get_pt j (current j))) own (λ u a. (
        inherit-child n child frames mem j free len u a,
        inherit-parent n child frames mem j free len u a,
      )))
      used apart
  where
    AtPages : ℕ → ℕ → Type 0
    AtPages p c =
        InUse n (j.tables p) mem
        → p ≢ c
        → SameView n (j.tables p) j.ram ((inherit child n frames j).tables c)
            (inherit child n frames j).ram
          × SameView n (j.tables p) j.ram ((inherit child n frames j).tables p)
              (inherit child n frames j).ram

-- ===== src/Fork/Copy.antt =====
-- The loop of `sys_fork` that copies the pages of data into the child's frames.
use so2_soa_fib.Common.{
  ℕ, zero, suc, ◌+◌, ◌-◌, ◌*◌, ◌/◌, ◌%◌, ◌^◌, ◌≤◌, ◌<◌, ◌≡◌, ◌≢◌, refl, sym, ap, ◌∙◌, true, false,
  ◌&&◌, List, [], ◌∷◌, arith, length, get_or, ◌==◌, ltb, leb, update_ne, ◌⊎◌, Out, Distinct, inl,
  inr, subst,
}
use so2_soa_fib.Utils.{Memory}
use so2_soa_fib.Utils.Copy.{copies-Copied}
use so2_soa_fib.PageTable.{PageTable, set_ss_pag, del_ss_pag, get_frame, pbase_addr}
use so2_soa_fib.PageTable.Entry.{set_ss_pag-update, del_ss_pag-set_ss_pag}
use so2_soa_fib.Kernel.{view, translate}
use so2_soa_fib.Fork.{Copying, copy_page, copy_pages}

-- The memory at a page and an offset in it.
pub view_at :
    (pt : PageTable) (ram : Memory) (page o : ℕ)
    → o < 4096
    → view pt ram (page * 4096 + o) ≡ ram (get_frame pt page * 4096 + o)
unfolding view translate
view_at pt ram page o h =
    let p : (page * 4096 + o) / 4096 ≡ page = omega arith in
    let r : (page * 4096 + o) % 4096 ≡ o = omega arith in rw (p, r)

copy_page_in :
    (pt : PageTable) (page to f : ℕ) (ram : Memory) (o : ℕ)
    → page < to
    → o < 4096
    → copy_page pt page to f ram (f * 4096 + o) ≡ ram (get_frame pt page * 4096 + o)
unfolding copy_page
copy_page_in pt page to f ram o lt h =
    let inside : (leb (f * 4096) (f * 4096 + o) && ltb (f * 4096 + o) (f * 4096 + 4096)) ≡ true =
      ground arith in
    let offset : f * 4096 + o - f * 4096 ≡ o = omega arith in
    let copied =
      (copies-Copied (page * 4096) (to * 4096) 4096 (view pt ram) (inr (omega arith))).0 in
    rw (inside, offset) (copied.block o h ∙ view_at pt ram page o h)

copy_page_out :
    (pt : PageTable) (page to f : ℕ) (ram : Memory) (a : ℕ)
    → a / 4096 ≢ f
    → copy_page pt page to f ram a ≡ ram a
unfolding copy_page
copy_page_out pt page to f ram a n =
    let outside : (leb (f * 4096) a && ltb a (f * 4096 + 4096)) ≡ false = ground arith in rw outside

-- One round: the table, at the page that was mapped for it and at others.
abbrev round : ℕ → ℕ → ℕ → Copying → Copying
round gap f page c = record {
  table = del_ss_pag (set_ss_pag c.table (page + gap) f) (page + gap);
  ram = copy_page (set_ss_pag c.table (page + gap) f) page (page + gap) f c.ram;
}

round-table :
    (gap f page : ℕ) (c : Copying) (q : ℕ)
    → q ≢ page + gap
    → (round gap f page c).table q ≡ c.table q
round-table gap f page c q n =
    let other : (q == page + gap) ≡ false = ground arith in
    del_ss_pag-set_ss_pag c.table (page + gap) f q ∙ rw other

set_ss_pag-other : (pt : PageTable) (page f q : ℕ) → q ≢ page → set_ss_pag pt page f q ≡ pt q
set_ss_pag-other pt page f q n = rw set_ss_pag-update (update_ne pt page (f % 2 ^ 20 * 4096 + 7) n)

round-in :
    (gap f page : ℕ) (c : Copying) (o : ℕ)
    → 0 < gap
    → o < 4096
    → (round gap f page c).ram (f * 4096 + o) ≡ c.ram (get_frame c.table page * 4096 + o)
unfolding get_frame
round-in gap f page c o lt h =
    copy_page_in (set_ss_pag c.table (page + gap) f) page (page + gap) f c.ram o (omega arith) h
    ∙ ap (λ e. c.ram (pbase_addr e * 4096 + o))
        (set_ss_pag-other c.table (page + gap) f page (omega arith))

-- The frames have got the pages of the data, byte for byte; other memory, and the table but for the
-- pages that were mapped in between, are as before.
pub record Copies (gap : ℕ) (fs : List ℕ) (page : ℕ) (c c' : Copying) : Type 0 where
  pub copied :
      (i o : ℕ)
      → i < length fs
      → o < 4096
      → c'.ram (get_or fs i 0 * 4096 + o) ≡ c.ram (get_frame c.table (page + i) * 4096 + o)
  pub others : (a : ℕ) → Out (a / 4096) fs → c'.ram a ≡ c.ram a
  pub table : (q : ℕ) → (q < page + gap) ⊎ (page + gap + length fs ≤ q) → c'.table q ≡ c.table q

Copies-cons :
    (gap f page : ℕ) (fs : List ℕ) (c c' : Copying)
    → length fs < gap
    → Out f fs
    → ((i : ℕ) → i < suc (length fs) → Out (get_frame c.table (page + i)) (f ∷ fs))
    → Copies gap fs (suc page) (round gap f page c) c'
    → Copies gap (f ∷ fs) page c c'
unfolding get_frame
Copies-cons gap f page fs c c' len out source rest = record {
  copied = copied;
  others = λ a o. rest.others a o.1 ∙ copy_page_out _ page (page + gap) f c.ram a o.0;
  table = λ q h. rest.table q (outside q h) ∙ round-table gap f page c q (apart_of q h);
}
  where
    outside :
        (q : ℕ)
        → (q < page + gap) ⊎ (page + gap + suc (length fs) ≤ q)
        → (q < suc page + gap) ⊎ (suc page + gap + length fs ≤ q)
    outside q (inl below) = inl (omega arith)
    outside q (inr above) = inr (omega arith)

    apart_of : (q : ℕ) → (q < page + gap) ⊎ (page + gap + suc (length fs) ≤ q) → q ≢ page + gap
    apart_of q (inl below) = omega arith
    apart_of q (inr above) = omega arith

    first : (o : ℕ) → o < 4096 → c'.ram (f * 4096 + o) ≡ c.ram (get_frame c.table page * 4096 + o)
    first o h =
        let frame : (f * 4096 + o) / 4096 ≡ f = omega arith in
        rest.others (f * 4096 + o) (subst (λ g. Out g fs) (sym frame) out)
        ∙ round-in gap f page c o (omega arith) h

    copied :
        (i o : ℕ)
        → i < suc (length fs)
        → o < 4096
        → c'.ram (get_or (f ∷ fs) i 0 * 4096 + o) ≡ c.ram (get_frame c.table (page + i) * 4096 + o)
    copied zero o lt h = first o h ∙ ap (λ p. c.ram (get_frame c.table p * 4096 + o)) (omega arith)
    copied (suc i) o lt h =
        let p : suc page + i ≡ page + suc i = omega arith in
        let g = get_frame c.table (page + suc i) in
        let same : get_frame (round gap f page c).table (suc page + i) ≡ g =
          ap pbase_addr (round-table gap f page c (suc page + i) (omega arith))
          ∙ ap (get_frame c.table) p in
        let frame : (g * 4096 + o) / 4096 ≡ g = omega arith in
        rest.copied i o (omega arith) h
        ∙ ap (λ x. (round gap f page c).ram (x * 4096 + o)) same
        ∙ copy_page_out _ page (page + gap) f c.ram (g * 4096 + o)
            (λ e. (source (suc i) lt).0 (sym frame ∙ e))

-- Each frame gets the page of data of its place, if the frames are distinct, no page of the data
-- stands on one of them, and the pages that are mapped in between lie above the data.
pub copy_pages-Copies :
    (gap : ℕ) (fs : List ℕ) (page : ℕ) (c : Copying)
    → length fs ≤ gap
    → Distinct fs
    → ((i : ℕ) → i < length fs → Out (get_frame c.table (page + i)) fs)
    → Copies gap fs page c (copy_pages gap fs page c)
unfolding copy_pages get_frame
copy_pages-Copies gap [] page c len dis source = record {
  copied = λ i o h. absurd (omega arith);
  others = λ a o. refl;
  table = λ q h. refl;
}
copy_pages-Copies gap (f ∷ fs) page c len dis source =
    Copies-cons gap f page fs c _ (omega arith) dis.0 source
      (copy_pages-Copies gap fs (suc page) (round gap f page c) (omega arith) dis.1 rest)
  where
    rest : (i : ℕ) → i < length fs → Out (get_frame (round gap f page c).table (suc page + i)) fs
    rest i h =
        let p : suc page + i ≡ page + suc i = omega arith in
        subst (λ g. Out g fs)
          (sym (
            ap pbase_addr (round-table gap f page c (suc page + i) (omega arith))
            ∙ ap (get_frame c.table) p))
          (source (suc i) (omega arith)).1

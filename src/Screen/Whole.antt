-- ===== src/Screen/Whole.antt =====
-- `print_screen`, which replaces the whole screen, and `printc_xy`.
use so2_soa_fib.Common.{
  ℕ, zero, suc, ◌+◌, ◌≤◌, ◌<◌, ◌≡◌, ◌⊎◌, inl, inr, refl, ap, ◌∙◌, List, [], ◌∷◌, arith, length,
  update, update_self, update_ne, get_or,
}
use so2_soa_fib.Screen.{Screen, cell, paint, print_screen}
use so2_soa_fib.Screen.Cursor.{screen_size, position}

paint_rest :
    (text : List ℕ) (q : ℕ) (cells : ℕ → ℕ) (a : ℕ)
    → (a < q) ⊎ (q + length text ≤ a)
    → paint text q cells a ≡ cells a
unfolding paint
paint_rest [] q cells a h = refl
paint_rest (c ∷ cs) q cells a h =
    paint_rest cs (q + 1) (update cells q (cell c)) a (omega arith)
    ∙ update_ne cells q (cell c) (omega arith)

paint_at :
    (text : List ℕ) (q i : ℕ) (cells : ℕ → ℕ)
    → i < length text
    → paint text q cells (q + i) ≡ cell (get_or text i 0)
unfolding paint
paint_at [] q i cells h = absurd (omega arith)
paint_at (c ∷ cs) q zero cells h =
    let e : q + 0 ≡ q = omega arith in
    ap (paint cs (q + 1) (update cells q (cell c))) e
    ∙ (paint_rest cs (q + 1) (update cells q (cell c)) q (inl (omega arith))
        ∙ update_self cells q (cell c))
paint_at (c ∷ cs) q (suc i) cells h =
    let e : q + suc i ≡ q + 1 + i = omega arith in
    ap (paint cs (q + 1) (update cells q (cell c))) e
    ∙ paint_at cs (q + 1) i (update cells q (cell c)) (omega arith)

-- `print_screen` of 2000 characters shows the i-th of them in the i-th cell for each i, changes no
-- cell behind the screen, and leaves the cursor at the first cell.
pub print_screen_lem :
    (text : List ℕ) (s : Screen)
    → length text ≡ screen_size
    → ((i : ℕ) → i < screen_size → (print_screen text s).cells i ≡ cell (get_or text i 0))
      × ((a : ℕ) → screen_size ≤ a → (print_screen text s).cells a ≡ s.cells a)
      × (position (print_screen text s) ≡ 0)
unfolding print_screen
print_screen_lem text s len = (
  λ i h.
      let e : i ≡ 0 + i = omega arith in
      ap (paint text 0 s.cells) e ∙ paint_at text 0 i s.cells (omega arith),
  λ a h. paint_rest text 0 s.cells a (inr (omega arith)),
  refl,
)

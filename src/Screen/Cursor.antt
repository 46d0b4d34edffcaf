-- ===== src/Screen/Cursor.antt =====
-- The cursor stays on the screen and goes on cell by cell.
use mathlib.Core.Path.{subst₂}
use so2_soa_fib.Common.{
  ℕ, zero, suc, ◌+◌, ◌*◌, ◌%◌, ◌≤◌, ◌<◌, ◌≡◌, ◌≢◌, refl, sym, ap, ◌∙◌, leb→le, false, List, [], ◌∷◌,
  arith, length, ◌==◌, leb, update, update_self, update_ne, Out, get_or, Bool-cases, inl, inr,
}
use so2_soa_fib.Screen.{num_columns, num_rows, Screen, cell, printc, write_loop}

pub record OnScreen (s : Screen) : Type 0 where
  pub x_in : s.x < num_columns
  pub y_in : s.y < num_rows

abbrev pub screen_size : ℕ
screen_size = num_rows * num_columns

-- The cell under the cursor.
abbrev pub position : Screen → ℕ
position s = s.y * num_columns + s.x

pub printc-OnScreen : (c : ℕ) (s : Screen) → OnScreen s → OnScreen (printc c s)
unfolding printc
printc-OnScreen c s on = ground arith

printc-position :
    (c : ℕ) (s : Screen)
    → OnScreen s
    → c ≢ b'\n'
    → position (printc c s) ≡ (position s + 1) % screen_size
unfolding printc
printc-position c s on n =
    let other : (c == b'\n') ≡ false = ground arith in
    rw other (elim (Bool-cases (leb num_columns ((s.x + 1) % 256))) [
      | inl full ↦ rw full (omega (arith, leb→le _ _ full, on.x_in, on.y_in))
      | inr room ↦
          let le : (s.x + 1) % 256 < num_columns = ground arith in
          rw room (omega (arith, on.x_in, on.y_in))
    ])

printc-cells :
    (c : ℕ) (s : Screen) → c ≢ b'\n' → (printc c s).cells ≡ update s.cells (position s) (cell c)
unfolding printc
printc-cells c s n =
    let other : (c == b'\n') ≡ false = ground arith in
    rw other (elim (Bool-cases (leb num_columns ((s.x + 1) % 256))) [
      | inl full ↦ rw full
      | inr room ↦ rw room
    ])

-- `text` stands in the cells from `start` on, going round at the end of the screen, and the other
-- cells are as they were.
pub record Shows (text : List ℕ) (start : ℕ) (before after : ℕ → ℕ) : Type 0 where
  pub shown : (i : ℕ) → i < length text → after ((start + i) % screen_size) ≡ cell (get_or text i 0)
  pub others :
      (a : ℕ) → ((i : ℕ) → i < length text → a ≢ (start + i) % screen_size) → after a ≡ before a

Shows-cons :
    (c : ℕ) (text : List ℕ) (start : ℕ) (before after : ℕ → ℕ)
    → start < screen_size
    → length text < screen_size
    → Shows text ((start + 1) % screen_size) (update before start (cell c)) after
    → Shows (c ∷ text) start before after
Shows-cons c text start before after lt len rest = record {
  shown = first;
  others = λ a n.
      rest.others a (λ i h e. n (suc i) (omega arith) (omega arith))
      ∙ update_ne before start (cell c) (λ e. n 0 (omega arith) (omega arith));
}
  where
    first :
        (i : ℕ)
        → i < suc (length text)
        → after ((start + i) % screen_size) ≡ cell (get_or (c ∷ text) i 0)
    first zero h =
        let e : (start + 0) % screen_size ≡ start = omega arith in
        ap after e
        ∙ (rest.others start (λ i lt_i e'. omega arith) ∙ update_self before start (cell c))
    first (suc i) h =
        let e : (start + suc i) % screen_size ≡ ((start + 1) % screen_size + i) % screen_size =
          omega arith in
        ap after e ∙ rest.shown i (omega arith)

-- `sys_write_console` of a text with no newline, no longer than the screen, puts it cell after cell
-- from the cursor on, going round at the end of the screen, leaves every other cell as it was, and
-- leaves the cursor on the screen, behind the text.
pub write_loop-Shows :
    (text : List ℕ) (s : Screen)
    → OnScreen s
    → Out b'\n' text
    → length text ≤ screen_size
    → OnScreen (write_loop text s)
      × (position (write_loop text s) ≡ (position s + length text) % screen_size)
      × Shows text (position s) s.cells (write_loop text s).cells
unfolding write_loop
write_loop-Shows [] s on out len = (
  on,
  omega (arith, on.x_in, on.y_in),
  record { shown = λ i h. absurd (omega arith); others = λ a n. refl },
)
write_loop-Shows (c ∷ cs) s on out len =
    let n : c ≢ b'\n' = λ e. out.0 (sym e) in
    let (on', pos', rest) =
      write_loop-Shows cs (printc c s) (printc-OnScreen c s on) out.1 (omega arith) in
    let here = printc-position c s on n in
    (
      on',
      pos' ∙ omega (arith, here),
      Shows-cons c cs (position s) s.cells _ (omega (arith, on.x_in, on.y_in)) (omega arith) (
          subst₂ (λ p cells. Shows cs p cells (write_loop cs (printc c s)).cells) here
            (printc-cells c s n) rest),
    )

-- ===== src/Screen/Tests.antt =====
-- Texts on an empty screen.
use so2_soa_fib.Common.{
  ℕ, ◌+◌, ◌%◌, ◌≤◌, ◌<◌, ◌≡◌, refl, List, [], ◌∷◌, arith, length, replicate, get_or,
}
use so2_soa_fib.Screen.{Screen, cell, printc, print_screen, write_loop}
use so2_soa_fib.Screen.Cursor.{OnScreen, Shows, position, screen_size, write_loop-Shows}
use so2_soa_fib.Screen.Whole.{print_screen_lem}

-- The cursor stands on the last but one cell.
abbrev near_end : Screen
near_end = record { cells = λ a. 0; x = 78; y = 24 }

abbrev text : List ℕ
text = b'a' ∷ b'b' ∷ b'c' ∷ []

near_end-OnScreen : OnScreen near_end
near_end-OnScreen = omega arith

write_loop-Shows_example :
    OnScreen (write_loop text near_end)
    × (position (write_loop text near_end) ≡ (position near_end + length text) % screen_size)
    × Shows text (position near_end) near_end.cells (write_loop text near_end).cells
write_loop-Shows_example =
    write_loop-Shows text near_end near_end-OnScreen (omega arith) (omega arith)

newline_at_end : (printc b'\n' near_end).y ≡ 0
unfolding printc
newline_at_end = refl

abbrev blank : List ℕ
blank = replicate 2000 b' '

blank-length : length blank ≡ screen_size
blank-length = refl

print_screen_lem_example :
    ((i : ℕ) → i < screen_size → (print_screen blank near_end).cells i ≡ cell (get_or blank i 0))
    × ((a : ℕ) → screen_size ≤ a → (print_screen blank near_end).cells a ≡ near_end.cells a)
    × (position (print_screen blank near_end) ≡ 0)
print_screen_lem_example = print_screen_lem blank near_end blank-length

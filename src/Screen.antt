-- ===== src/Screen.antt =====
-- zeOS/io.c and zeOS/devices.c: the text screen of 25 rows of 80 cells at 0xb8000, and the cursor.
-- A cell is a 16-bit word; the copy of each character to the port 0xe9 of the emulator is left out.
pub mod Cursor
pub mod Whole
mod Tests
use so2_soa_fib.Common.{
  ℕ, zero, suc, ◌+◌, ◌*◌, ◌%◌, List, [], ◌∷◌, ◌==◌, leb, if◌then◌else◌, update, ℤ, pos,
}

abbrev pub num_columns : ℕ
num_columns = 80

abbrev pub num_rows : ℕ
num_rows = 25

-- The memory of the screen by cell, and the bytes `x` and `y`.
pub record Screen : Type 0 where
  pub cells : ℕ → ℕ
  pub x : ℕ
  pub y : ℕ

-- `(c & 0x00FF) | 0x0200`: the character in green.
abbrev pub cell : ℕ → ℕ
cell c = c % 256 + 512

unfoldable pub printc : ℕ → Screen → Screen
printc c s =
    if c == b'\n'
    then record s { x = 0; y = (s.y + 1) % num_rows }
    else (let cells = update s.cells (s.y * num_columns + s.x) (cell c) in
        let x = (s.x + 1) % 256 in
        if leb num_columns x
        then record { cells = cells; x = 0; y = (s.y + 1) % num_rows }
        else record { cells = cells; x = x; y = s.y })

-- The loop of `print_screen`: what is left of the text, from cell `q` on.
unfoldable pub paint : List ℕ → ℕ → (ℕ → ℕ) → ℕ → ℕ
paint [] q cells = cells
paint (c ∷ cs) q cells = paint cs (q + 1) (update cells q (cell c))

-- `text` is what `copy_from_user` copied: 2000 characters.
unfoldable pub print_screen : List ℕ → Screen → Screen
unfolding paint
print_screen text s = record { cells = paint text 0 s.cells; x = 0; y = 0 }

unfoldable pub printc_xy : ℕ → ℕ → ℕ → Screen → Screen
printc_xy mx my c s =
    let s' = printc c (record s { x = mx; y = my }) in record s' { x = s.x; y = s.y }

-- `printk` of the characters before the NUL.
unfoldable pub printk : List ℕ → Screen → Screen
printk [] s = s
printk (c ∷ cs) s = printk cs (printc c s)

-- `sys_write_console` of the `size` characters of the buffer, with the value that it returns.
unfoldable pub write_loop : List ℕ → Screen → Screen
write_loop [] s = s
write_loop (c ∷ cs) s = write_loop cs (printc c s)

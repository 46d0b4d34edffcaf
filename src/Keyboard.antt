-- ===== src/Keyboard.antt =====
-- `keyboard_routine` of zeOS/interrupt.c. The argument `value` is the byte that `inb(0x60)` gave.
-- `none` is a read behind the end of `char_map`, whose result the language does not define.
pub mod Keys
mod Tests
use so2_soa_fib.Common.{
  ℕ, ◌/◌, ◌%◌, Bool, Option, none, some, List, [], ◌∷◌, ◌==◌, ltb, if◌then◌else◌, get_elem?, ◌>>=◌,
}
use so2_soa_fib.CircularBuffer.{CircularBuffer, circular_write}

-- The table in rows of eight; the characters beyond ASCII are bytes of ISO 8859-1.
abbrev pub char_map : List ℕ
char_map =
    0 ∷ 0 ∷ b'1' ∷ b'2' ∷ b'3' ∷ b'4' ∷ b'5' ∷ b'6' ∷ b'7' ∷ b'8' ∷ b'9' ∷ b'0' ∷ 39 ∷ 0xa1 ∷ 0 ∷ 0
    ∷ b'q' ∷ b'w' ∷ b'e' ∷ b'r' ∷ b't' ∷ b'y' ∷ b'u' ∷ b'i' ∷ b'o' ∷ b'p' ∷ b'`' ∷ b'+' ∷ 0 ∷ 0
    ∷ b'a' ∷ b's' ∷ b'd' ∷ b'f' ∷ b'g' ∷ b'h' ∷ b'j' ∷ b'k' ∷ b'l' ∷ 0xf1 ∷ 0 ∷ 0xba ∷ 0 ∷ 0xe7
    ∷ b'z' ∷ b'x' ∷ b'c' ∷ b'v' ∷ b'b' ∷ b'n' ∷ b'm' ∷ b',' ∷ b'.' ∷ b'-' ∷ 0 ∷ b'*' ∷ 0 ∷ 0 ∷ 0 ∷ 0
    ∷ 0 ∷ 0 ∷ 0 ∷ 0 ∷ 0 ∷ 0 ∷ 0 ∷ 0 ∷ 0 ∷ 0 ∷ 0 ∷ b'7' ∷ b'8' ∷ b'9' ∷ b'-' ∷ b'4' ∷ b'5' ∷ b'6'
    ∷ b'+' ∷ b'1' ∷ b'2' ∷ b'3' ∷ b'0' ∷ 0 ∷ 0 ∷ 0 ∷ b'<' ∷ 0 ∷ 0 ∷ 0 ∷ 0 ∷ 0 ∷ 0 ∷ 0 ∷ 0 ∷ 0 ∷ 0
    ∷ 0 ∷ []

-- The character that a code writes: 'C' where the table has none, and for a code behind it.
unfoldable pub key_of : ℕ → Option ℕ
key_of code =
    if ltb 98 code
    then some b'C'
    else (do key ← get_elem? char_map code; some (if key == 0 then b'C' else key))

unfoldable pub keyboard_routine : ℕ → CircularBuffer → Option CircularBuffer
keyboard_routine value b =
    if value / 128 % 2 == 1
    then (do key ← key_of (value % 128); some (circular_write b key))
    else some b

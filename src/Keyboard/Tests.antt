-- ===== src/Keyboard/Tests.antt =====
-- The releases of three keys.
use so2_soa_fib.Common.{ℕ, ◌+◌, ◌≡◌, ◌≢◌, refl, none, some, arith, replicate}
use so2_soa_fib.CircularBuffer.{CircularBuffer, circular_write}
use so2_soa_fib.Keyboard.{key_of, keyboard_routine}
use so2_soa_fib.Keyboard.Keys.{keyboard_routine_lem}

abbrev empty : CircularBuffer
empty = record { buffer = replicate 8 0; read = 0; write = 0 }

-- 'q' is code 16; Escape, code 1, has no character.
keys : (key_of 16 ≡ some b'q') × (key_of 1 ≡ some b'C') × (key_of 120 ≡ some b'C')
unfolding key_of
keys = (refl, refl, refl)

keyboard_routine_lem_example :
    (keyboard_routine 16 empty ≡ some empty)
    × ((key : ℕ) × (key_of 16 ≡ some key)
        × (0 ≢ key)
        × (keyboard_routine (128 + 16) empty ≡ some (circular_write empty key)))
    × (keyboard_routine (128 + 98) empty ≡ none)
keyboard_routine_lem_example = keyboard_routine_lem 16 empty (omega arith) (omega arith)

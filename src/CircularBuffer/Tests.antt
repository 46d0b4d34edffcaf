-- ===== src/CircularBuffer/Tests.antt =====
-- The ring at concrete inputs; the second test of tests/README.md.
use so2_soa_fib.Common.{◌≡◌, refl, List, [], ◌∷◌, arith, ℕ, pos, neg, replicate}
use so2_soa_fib.CircularBuffer.{
  CircularBuffer, max_val, circular_init, circular_read, circular_write,
}
use so2_soa_fib.CircularBuffer.View.{
  IsValid, view, put, take_first, Reply, view-circular_write, view-circular_read,
}
use so2_soa_fib.CircularBuffer.Fifo.{run, run_queue, write_char, read_char, run-fifo, Call}
use so2_soa_fib.CircularBuffer.Overwrite.{write_all, drain, drain-write_all}

-- Storage as it is found before `circular_init`.
abbrev raw : CircularBuffer
raw = record { buffer = replicate 8 7; read = 3; write = 9 }

-- 'e' and 'r' wait, from index 7 round to index 0.
abbrev wrapped : CircularBuffer
wrapped = record { buffer = b'r' ∷ 0 ∷ 0 ∷ 0 ∷ 0 ∷ 0 ∷ 0 ∷ b'e' ∷ []; read = 7; write = 1 }

wrapped-IsValid : IsValid wrapped
wrapped-IsValid = record { size = refl; read_in = omega arith; write_in = omega arith }

-- The keys q w e r t y u i, then o p.
abbrev first_keys : List ℕ
first_keys = b'q' ∷ b'w' ∷ b'e' ∷ b'r' ∷ b't' ∷ b'y' ∷ b'u' ∷ b'i' ∷ []

abbrev late_keys : List ℕ
late_keys = b'o' ∷ b'p' ∷ []

abbrev calls : List Call
calls = write_char b'a' ∷ write_char b'b' ∷ read_char ∷ read_char ∷ read_char ∷ []

run-calls : run (circular_init raw) calls ≡ (b'a', pos 1) ∷ (b'b', pos 1) ∷ (0, neg 55) ∷ []
unfolding run circular_init circular_read circular_write
run-calls = refl

run-fifo_example : run (circular_init raw) calls ≡ run_queue [] calls
run-fifo_example = run-fifo raw calls refl (omega arith)

-- o p e r t y u i
drain-write_all_example :
    drain max_val (write_all (write_all (circular_init raw) first_keys) late_keys)
    ≡ b'o' ∷ b'p' ∷ b'e' ∷ b'r' ∷ b't' ∷ b'y' ∷ b'u' ∷ b'i' ∷ []
drain-write_all_example =
    drain-write_all raw first_keys late_keys refl refl (omega arith) (omega arith) (omega arith)

view-circular_write_example : view (circular_write wrapped b't') ≡ put b't' (view wrapped)
view-circular_write_example = view-circular_write b't' wrapped-IsValid

view-circular_read_example :
    Reply (circular_read wrapped) (take_first (view wrapped)).0
    × (view (circular_read wrapped).after ≡ (take_first (view wrapped)).1)
view-circular_read_example = view-circular_read wrapped-IsValid

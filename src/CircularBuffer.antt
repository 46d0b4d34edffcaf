-- ===== src/CircularBuffer.antt =====
-- zeOS/circular_buffer.c: the keyboard's ring of eight characters. A character is its byte, and 0
-- marks a cell that holds none. A write through the pointer `rd` is part of the result.
pub mod View
pub mod Fifo
pub mod Overwrite
mod Tests
use so2_soa_fib.Common.{
  ℕ, zero, suc, ◌+◌, ◌%◌, Bool, List, ◌==◌, if◌then◌else◌, get_or, set, ℤ, pos, neg,
}

-- MAX_VAL
abbrev pub max_val : ℕ
max_val = 8

-- ENOINP of errno.h
abbrev pub enoinp : ℕ
enoinp = 55

-- The type `struct circular_buffer`.
pub record CircularBuffer : Type 0 where
  pub buffer : List ℕ
  pub read : ℕ
  pub write : ℕ

-- The loop of `circular_init`, with `k` rounds left.
unfoldable pub init_loop : ℕ → ℕ → List ℕ → List ℕ
init_loop zero i buffer = buffer
init_loop (suc k) i buffer = init_loop k (i + 1) (set buffer i 0)

unfoldable pub circular_init : CircularBuffer → CircularBuffer
unfolding init_loop
circular_init b = record { buffer = init_loop max_val 0 b.buffer; read = 0; write = 0 }

unfoldable pub circular_empty : CircularBuffer → Bool
circular_empty b = get_or b.buffer b.read 0 == 0

-- What `circular_read` leaves: the buffer, `*rd`, and the value returned.
pub record ReadResult : Type 0 where
  pub after : CircularBuffer
  pub rd : ℕ
  pub ret : ℤ

unfoldable pub circular_read : CircularBuffer → ReadResult
unfolding circular_empty
circular_read b =
    if circular_empty b then record { after = b; rd = 0; ret = neg enoinp } else record {
      after = record {
        buffer = set b.buffer b.read 0;
        read = (b.read + 1) % max_val;
        write = b.write;
      };
      rd = get_or b.buffer b.read 0;
      ret = pos 1;
    }

unfoldable pub circular_write : CircularBuffer → ℕ → CircularBuffer
circular_write b wr = record b { buffer = set b.buffer b.write wr; write = (b.write + 1) % max_val }

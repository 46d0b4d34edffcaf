-- ===== src/Keyboard/Keys.antt =====
-- What `keyboard_routine` writes.
use so2_soa_fib.Common.{
  ℕ, zero, suc, ◌+◌, ◌/◌, ◌%◌, ◌<◌, ◌≡◌, ◌≢◌, refl, true, false, none, some, List, [], ◌∷◌, arith,
  length, get_elem?, ◌==◌, ltb, Bool-cases, inl, inr,
}
use so2_soa_fib.CircularBuffer.{CircularBuffer, circular_write}
use so2_soa_fib.Keyboard.{char_map, key_of, keyboard_routine}

get_elem?-some {ℓ} :
    {A : Type ℓ} (xs : List A) (i : ℕ) → i < length xs → (x : A) × (get_elem? xs i ≡ some x)
get_elem?-some [] i h = absurd (omega arith)
get_elem?-some (x ∷ xs) zero h = (x, refl)
get_elem?-some (x ∷ xs) (suc i) h = get_elem?-some xs i (omega arith)

pub key_of-some : (code : ℕ) → code ≢ 98 → (key : ℕ) × (key_of code ≡ some key) × (0 ≢ key)
unfolding key_of
key_of-some code n = elim (Bool-cases (ltb 98 code)) [
  | inl behind ↦ (b'C', rw behind, omega arith)
  | inr inside ↦
      let (x, e) = get_elem?-some char_map code (ground arith) in
      rw (inside, e)
        (elim (Bool-cases (x == 0)) [
          | inl zero_key ↦ (b'C', rw zero_key, omega arith)
          | inr other ↦ (x, rw other, ground arith)
        ])
]

keyboard_routine-key :
    (value code key : ℕ) (b : CircularBuffer)
    → (value / 128 % 2 == 1) ≡ true
    → value % 128 ≡ code
    → key_of code ≡ some key
    → keyboard_routine value b ≡ some (circular_write b key)
unfolding keyboard_routine
keyboard_routine-key value code key b bit low e = rw (bit, low, e)

-- For a code below 128 other than 98, the byte `code` leaves the ring as it is, and the byte
-- `128 + code` writes one character, the one of the code, and it is not NUL. For code 98 the table
-- is read behind its end.
pub keyboard_routine_lem :
    (code : ℕ) (b : CircularBuffer)
    → code < 128
    → code ≢ 98
    → (keyboard_routine code b ≡ some b)
      × ((key : ℕ) × (key_of code ≡ some key)
          × (0 ≢ key)
          × (keyboard_routine (128 + code) b ≡ some (circular_write b key)))
      × (keyboard_routine (128 + 98) b ≡ none)
unfolding keyboard_routine
keyboard_routine_lem code b h n = (
  let clear : (code / 128 % 2 == 1) ≡ false = ground arith in rw clear,
  let bit : ((128 + code) / 128 % 2 == 1) ≡ true = ground arith in
      let (key, e, ne) = key_of-some code n in
      (key, e, ne, keyboard_routine-key (128 + code) code key b bit (omega arith) e),
  unfold key_of in refl,
)

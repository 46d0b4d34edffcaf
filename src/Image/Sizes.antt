-- ===== src/Image/Sizes.antt =====
-- What the lengths that end the building of the image write.
use so2_soa_fib.Common.{
  ℕ, ◌+◌, ◌-◌, ◌/◌, ◌%◌, ◌^◌, ◌≤◌, ◌<◌, ◌≡◌, refl, ◌∙◌, arith, true, false, ◌&&◌, List, [], ◌∷◌,
  ltb, leb, if◌then◌else◌, length, Bool,
}
use so2_soa_fib.Image.{at, write_at, size_bytes, write_sizes}
use so2_soa_fib.Image.Parts.{at-write_at, length-write_at}

-- One of `n` places from `p` on.
abbrev within : ℕ → ℕ → ℕ → Bool
within p n i = leb p i && ltb i (p + n)

abbrev total_bytes : ℕ → ℕ → List ℕ
total_bytes s u = let n = (s + u + 15) % 2 ^ 32 / 16 in n % 256 ∷ n / 2 ^ 8 % 256 ∷ []

-- The four writes, the last one first.
at-write_sizes :
    (s u : ℕ) (out : List ℕ) (i : ℕ)
    → at (write_sizes s u out) i ≡ (
        if within 520 4 i
        then at (size_bytes 0x7e3b) (i - 520)
        else if within 516 4 i
        then at (size_bytes u) (i - 516)
        else if within 512 4 i
        then at (size_bytes s) (i - 512)
        else if within 500 2 i
        then at (total_bytes s u) (i - 500)
        else at out i)
unfolding write_sizes
at-write_sizes s u out i =
    let out1 = write_at 500 (total_bytes s u) out in
    let out2 = write_at 512 (size_bytes s) out1 in
    let out3 = write_at 516 (size_bytes u) out2 in
    rw
      (
        at-write_at 520 (size_bytes 0x7e3b) out3 i,
        at-write_at 516 (size_bytes u) out2 i,
        at-write_at 512 (size_bytes s) out1 i,
        at-write_at 500 (total_bytes s u) out i,
      )
      refl

-- Behind the lengths, and in front of them, the output is as it was.
pub write_sizes-kept :
    (s u : ℕ) (out : List ℕ) (i : ℕ)
    → within 500 2 i ≡ false
    → within 512 12 i ≡ false
    → at (write_sizes s u out) i ≡ at out i
write_sizes-kept s u out i a b =
    let c1 : within 520 4 i ≡ false = ground arith in
    let c2 : within 516 4 i ≡ false = ground arith in
    let c3 : within 512 4 i ≡ false = ground arith in
    at-write_sizes s u out i ∙ rw (c1, c2, c3, a) refl

-- The bytes of the three lengths.
pub write_sizes-system :
    (s u : ℕ) (out : List ℕ) (j : ℕ)
    → j < 4
    → at (write_sizes s u out) (512 + j) ≡ at (size_bytes s) j
write_sizes-system s u out j lt =
    let c1 : within 520 4 (512 + j) ≡ false = ground arith in
    let c2 : within 516 4 (512 + j) ≡ false = ground arith in
    let c3 : within 512 4 (512 + j) ≡ true = ground arith in
    let place : 512 + j - 512 ≡ j = omega arith in
    at-write_sizes s u out (512 + j) ∙ rw (c1, c2, c3, place) refl

pub write_sizes-user :
    (s u : ℕ) (out : List ℕ) (j : ℕ)
    → j < 4
    → at (write_sizes s u out) (516 + j) ≡ at (size_bytes u) j
write_sizes-user s u out j lt =
    let c1 : within 520 4 (516 + j) ≡ false = ground arith in
    let c2 : within 516 4 (516 + j) ≡ true = ground arith in
    let place : 516 + j - 516 ≡ j = omega arith in
    at-write_sizes s u out (516 + j) ∙ rw (c1, c2, place) refl

pub write_sizes-total :
    (s u : ℕ) (out : List ℕ) (j : ℕ)
    → j < 2
    → at (write_sizes s u out) (500 + j) ≡ at (total_bytes s u) j
write_sizes-total s u out j lt =
    let c1 : within 520 4 (500 + j) ≡ false = ground arith in
    let c2 : within 516 4 (500 + j) ≡ false = ground arith in
    let c3 : within 512 4 (500 + j) ≡ false = ground arith in
    let c4 : within 500 2 (500 + j) ≡ true = ground arith in
    let place : 500 + j - 500 ≡ j = omega arith in
    at-write_sizes s u out (500 + j) ∙ rw (c1, c2, c3, c4, place) refl

pub length-write_sizes :
    (s u : ℕ) (out : List ℕ) → 524 ≤ length out → length (write_sizes s u out) ≡ length out
unfolding write_sizes
length-write_sizes s u out le =
    let out1 = write_at 500 (total_bytes s u) out in
    let out2 = write_at 512 (size_bytes s) out1 in
    let out3 = write_at 516 (size_bytes u) out2 in
    let e1 = length-write_at 500 (total_bytes s u) out (omega arith) in
    let e2 = length-write_at 512 (size_bytes s) out1 (omega (arith, e1)) in
    let e3 = length-write_at 516 (size_bytes u) out2 (omega (arith, e1, e2)) in
    length-write_at 520 (size_bytes 0x7e3b) out3 (omega (arith, e1, e2, e3)) ∙ e3 ∙ e2 ∙ e1

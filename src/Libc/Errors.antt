-- ===== src/Libc/Errors.antt =====
-- What `perror` writes.
use Prim.Native.String.{String}
use so2_soa_fib.Common.{
  ℕ, zero, suc, ◌-◌, ◌≤◌, ◌<◌, ◌≡◌, refl, Bool, true, false, not, ◌&&◌, ◌||◌, some, List, [], ◌∷◌,
  ◌++◌, ◌==◌, ltb, length, get_elem?, arith, Out,
}
use so2_soa_fib.Libc.{codes, etos, strlen, c_string, perror}

-- A text with no NUL in it has the length that `strlen` counts.
pub strlen-length : (xs rest : List ℕ) → Out 0 xs → strlen (xs ++ 0 ∷ rest) ≡ some (length xs)
unfolding strlen
strlen-length [] rest out = refl
strlen-length (x ∷ xs) rest out =
    let some_x : (x == 0) ≡ false = ground (arith, out.0) in
    rw (some_x, strlen-length xs rest out.1)

-- No byte is NUL.
clean : List ℕ → Bool
clean [] = true
clean (x ∷ xs) = not (x == 0) && clean xs

both : (a b : Bool) → (a && b) ≡ true → (a ≡ true) × (b ≡ true)
both a b e = (ground (arith, e), ground (arith, e))

clean-Out : (xs : List ℕ) → clean xs ≡ true → Out 0 xs
unfolding clean
clean-Out [] c = tt
clean-Out (x ∷ xs) c =
    let (first, tail) = both (not (x == 0)) (clean xs) c in
    (ground (arith, first), clean-Out xs tail)

-- The first `n` texts of a table are there, and all its texts are clean.
all_clean : ℕ → List String → Bool
unfolding clean
all_clean zero [] = true
all_clean (suc n) [] = false
all_clean zero (s ∷ table) = clean (codes s) && all_clean zero table
all_clean (suc n) (s ∷ table) = clean (codes s) && all_clean n table

text_of :
    (n i : ℕ) (table : List String)
    → all_clean n table ≡ true
    → i < n
    → (s : String) × (get_elem? table i ≡ some s) × Out 0 (codes s)
unfolding all_clean
text_of zero i table r lt = absurd (omega arith)
text_of (suc n) i [] r lt = absurd (ground (arith, r))
text_of (suc n) zero (s ∷ table) r lt =
    (s, refl, clean-Out (codes s) (both (clean (codes s)) (all_clean n table) r).0)
text_of (suc n) (suc i) (s ∷ table) r lt =
    text_of n i table (both (clean (codes s)) (all_clean n table) r).1 (omega arith)

etos-clean : all_clean 133 etos ≡ true
unfolding all_clean
etos-clean = refl

perror-text :
    (i : ℕ) (s : String)
    → i < 133
    → get_elem? etos i ≡ some s
    → Out 0 (codes s)
    → perror (suc i) ≡ some (c_string s, length (codes s))
unfolding perror
perror-text i s lt e out =
    let known : (ltb 133 (suc i) || ltb (suc i) 1) ≡ false = ground arith in
    let index : suc i - 1 ≡ i = omega arith in rw (known, index, e, strlen-length (codes s) [] out)

-- For each `errno` from 1 to 133 `perror` writes the text of that number in the table, all of it,
-- and reads nothing behind the table.
pub perror_lem :
    (errno : ℕ)
    → 1 ≤ errno
    → errno ≤ 133
    → (s : String) × (get_elem? etos (errno - 1) ≡ some s)
      × (perror errno ≡ some (c_string s, length (codes s)))
perror_lem zero low high = absurd (omega arith)
perror_lem (suc i) low high =
    let (s, e, out) = text_of 133 i etos etos-clean (omega arith) in
    let index : suc i - 1 ≡ i = omega arith in (s, rw index e, perror-text i s (omega arith) e out)

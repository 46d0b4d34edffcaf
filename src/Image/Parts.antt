-- ===== src/Image/Parts.antt =====
-- What the parts of the image builder write.
use so2_soa_fib.Common.{
  ℕ, zero, suc, ◌+◌, ◌-◌, ◌≤◌, ◌<◌, ◌≡◌, refl, sym, ap, ◌∙◌, arith, true, false, ◌&&◌, none, some,
  List, [], ◌∷◌, ◌++◌, ◌==◌, ltb, leb, if◌then◌else◌, length,
}
use so2_soa_fib.Image.{take, drop, at, copy_file, write_at}

pub at-append :
    (xs ys : List ℕ) (i : ℕ)
    → at (xs ++ ys) i ≡ (if ltb i (length xs) then at xs i else at ys (i - length xs))
at-append [] ys i =
    let e : i - 0 ≡ i = omega arith in
    let none_front : ltb i 0 ≡ false = ground arith in rw (none_front, e) refl
at-append (x ∷ xs) ys zero = let e : ltb 0 (suc (length xs)) ≡ true = ground arith in rw e refl
at-append (x ∷ xs) ys (suc i) =
    let e : ltb (suc i) (suc (length xs)) ≡ ltb i (length xs) = ground arith in
    let d : suc i - suc (length xs) ≡ i - length xs = omega arith in rw (e, d) (at-append xs ys i)

pub length-take : (n : ℕ) (xs : List ℕ) → n ≤ length xs → length (take n xs) ≡ n
length-take zero xs le = refl
length-take (suc n) [] le = absurd (omega arith)
length-take (suc n) (x ∷ xs) le = ap suc (length-take n xs (omega arith))

length-drop : (n : ℕ) (xs : List ℕ) → length (drop n xs) ≡ length xs - n
length-drop zero xs = omega arith
length-drop (suc n) [] = omega arith
length-drop (suc n) (x ∷ xs) = omega (arith, length-drop n xs)

take-drop : (n : ℕ) (xs : List ℕ) → take n xs ++ drop n xs ≡ xs
take-drop zero xs = refl
take-drop (suc n) [] = refl
take-drop (suc n) (x ∷ xs) = ap (λ ys. x ∷ ys) (take-drop n xs)

append_assoc : (xs ys zs : List ℕ) → (xs ++ ys) ++ zs ≡ xs ++ (ys ++ zs)
append_assoc [] ys zs = refl
append_assoc (x ∷ xs) ys zs = ap (λ r. x ∷ r) (append_assoc xs ys zs)

append_nil : (xs : List ℕ) → xs ++ [] ≡ xs
append_nil [] = refl
append_nil (x ∷ xs) = ap (λ r. x ∷ r) (append_nil xs)

length-zero : (xs : List ℕ) → length xs ≡ 0 → xs ≡ []
length-zero [] e = refl
length-zero (x ∷ xs) e = absurd (omega (arith, e))

-- One round of the loop.
one_chunk :
    (fuel l : ℕ) (bytes out : List ℕ)
    → l ≤ length bytes
    → copy_file fuel (length (drop l bytes)) (drop l bytes) (out ++ take l bytes)
      ≡ some ((out ++ take l bytes) ++ drop l bytes)
    → (if length (take l bytes) == l
        then copy_file fuel (length bytes - l) (drop l bytes) (out ++ take l bytes)
        else none)
      ≡ some (out ++ bytes)
one_chunk fuel l bytes out le ih =
    let full : (length (take l bytes) == l) ≡ true = ground (arith, length-take l bytes le) in
    rw (full, sym (length-drop l bytes))
      (ih
        ∙ ap some (
            append_assoc out (take l bytes) (drop l bytes)
            ∙ ap (λ ys. out ++ ys) (take-drop l bytes)))

-- The loop copies the whole file, chunk by chunk.
pub copy_file-append :
    (fuel : ℕ) (bytes out : List ℕ)
    → length bytes ≤ fuel
    → copy_file fuel (length bytes) bytes out ≡ some (out ++ bytes)
unfolding copy_file
copy_file-append zero bytes out le =
    ap some (sym (append_nil out) ∙ ap (λ ys. out ++ ys) (sym (length-zero bytes (omega arith))))
copy_file-append (suc fuel) [] out le = ap some (sym (append_nil out))
copy_file-append (suc fuel) (x ∷ xs) out le =
    let more : ltb 0 (suc (length xs)) ≡ true = ground arith in
    let l : ℕ = if ltb 1024 (suc (length xs)) then 1024 else suc (length xs) in
    let small : l ≤ suc (length xs) = ground arith in
    let some_l : 0 < l = ground arith in
    rw more (
      one_chunk fuel l (x ∷ xs) out small (
        copy_file-append fuel (drop l (x ∷ xs)) (out ++ take l (x ∷ xs))
          (omega (arith, length-drop l (x ∷ xs)))))

next_byte :
    (b : ℕ) (bs : List ℕ) (i o r : ℕ)
    → r ≡ (if leb 0 i && ltb i (0 + length bs) then at bs (i - 0) else o)
    → r
      ≡ (if leb 0 (suc i) && ltb (suc i) (0 + suc (length bs)) then at (b ∷ bs) (suc i - 0) else o)
next_byte b bs i o r e =
    let low : leb 0 i ≡ true = ground arith in
    let low' : leb 0 (suc i) ≡ true = ground arith in
    let same : ltb (suc i) (0 + suc (length bs)) ≡ ltb i (0 + length bs) = ground arith in
    let start : i - 0 ≡ i = omega arith in
    let start' : suc i - 0 ≡ suc i = omega arith in
    let f : r ≡ (if ltb i (0 + length bs) then at bs i else o) = rw (low, start) at e in
    rw (low', same, start') f

next_place :
    (p : ℕ) (bs : List ℕ) (i o r : ℕ)
    → r ≡ (if leb p i && ltb i (p + length bs) then at bs (i - p) else o)
    → r ≡ (
        if leb (suc p) (suc i) && ltb (suc i) (suc p + length bs) then at bs (suc i - suc p) else o)
next_place p bs i o r e =
    let low : leb (suc p) (suc i) ≡ leb p i = ground arith in
    let high : ltb (suc i) (suc p + length bs) ≡ ltb i (p + length bs) = ground arith in
    let place : suc i - suc p ≡ i - p = omega arith in rw (low, high, place) e

-- Each byte of the output, after a write and before it.
pub at-write_at :
    (p : ℕ) (bs out : List ℕ) (i : ℕ)
    → at (write_at p bs out) i
      ≡ (if leb p i && ltb i (p + length bs) then at bs (i - p) else at out i)
unfolding write_at
at-write_at zero [] out i =
    let none_written : ltb i (0 + 0) ≡ false = ground arith in
    let low : leb 0 i ≡ true = ground arith in rw (low, none_written) refl
at-write_at zero (b ∷ bs) [] zero =
    let e : ltb 0 (0 + suc (length bs)) ≡ true = ground arith in rw e refl
at-write_at zero (b ∷ bs) (o ∷ out) zero =
    let e : ltb 0 (0 + suc (length bs)) ≡ true = ground arith in rw e refl
at-write_at zero (b ∷ bs) [] (suc i) = next_byte b bs i 0 _ (at-write_at zero bs [] i)
at-write_at zero (b ∷ bs) (o ∷ out) (suc i) =
    next_byte b bs i (at out i) _ (at-write_at zero bs out i)
at-write_at (suc p) bs [] zero = let e : leb (suc p) 0 ≡ false = ground arith in rw e refl
at-write_at (suc p) bs (o ∷ out) zero = let e : leb (suc p) 0 ≡ false = ground arith in rw e refl
at-write_at (suc p) bs [] (suc i) = next_place p bs i 0 _ (at-write_at p bs [] i)
at-write_at (suc p) bs (o ∷ out) (suc i) = next_place p bs i (at out i) _ (at-write_at p bs out i)

pub length-write_at :
    (p : ℕ) (bs out : List ℕ) → p + length bs ≤ length out → length (write_at p bs out) ≡ length out
unfolding write_at
length-write_at zero [] out le = refl
length-write_at zero (b ∷ bs) [] le = absurd (omega arith)
length-write_at zero (b ∷ bs) (o ∷ out) le = ap suc (length-write_at zero bs out (omega arith))
length-write_at (suc p) bs [] le = absurd (omega arith)
length-write_at (suc p) bs (o ∷ out) le = ap suc (length-write_at p bs out (omega arith))

pub take-all : (n : ℕ) (xs : List ℕ) → length xs ≤ n → take n xs ≡ xs
take-all zero [] le = refl
take-all zero (x ∷ xs) le = absurd (omega arith)
take-all (suc n) [] le = refl
take-all (suc n) (x ∷ xs) le = ap (λ ys. x ∷ ys) (take-all n xs (omega arith))

-- ===== src/Libc/Itoa/Turn.antt =====
-- What the second loop of `itoa` leaves.
use so2_soa_fib.Common.{
  ℕ, zero, suc, ◌+◌, ◌-◌, ◌*◌, ◌/◌, ◌≤◌, ◌≡◌, ◌&&◌, ◌||◌, leb, refl, ap, ◌∙◌, arith, Bool, true,
  false, ltb, if◌then◌else◌, update, update_self, update_ne, ==→eq, ◌==◌, Bool-cases, inl, inr,
}
use so2_soa_fib.Utils.{Memory}
use so2_soa_fib.Libc.Itoa.{reverse_digits}

-- `j` is one of `n` places from `i1` on, or the mirror image of one.
abbrev turned : ℕ → ℕ → ℕ → ℕ → Bool
turned n i1 i j = leb i1 j && ltb j (i1 + n) || leb (i - i1 - n) j && ltb j (i - i1)

-- After the second loop a digit stands where its mirror image stood.
reverse_digits-mirror :
    (n i1 i : ℕ) (b : Memory)
    → (i1 + n) * 2 ≤ i
    → (j : ℕ) → reverse_digits n i1 i b j ≡ (if turned n i1 i j then b (i - j - 1) else b j)
unfolding reverse_digits
reverse_digits-mirror zero i1 i b le j = ground arith
reverse_digits-mirror (suc n) i1 i b le j =
    let b1 = update b i1 (b (i - i1 - 1)) in
    let b2 = update b1 (i - i1 - 1) (b i1) in
    reverse_digits-mirror n (suc i1) i b2 (omega arith) j ∙ elim (Bool-cases (j == i1)) [
      | inl first ↦
          let e : j ≡ i1 = ==→eq j i1 first in
          let inner : turned n (suc i1) i j ≡ false = ground arith in
          let outer : turned (suc n) i1 i j ≡ true = ground arith in
          let image : i - j - 1 ≡ i - i1 - 1 = omega (arith, e) in
          rw (inner, outer, image)
            (update_ne b1 (i - i1 - 1) (b i1) (omega (arith, e))
              ∙ ap (update b i1 (b (i - i1 - 1))) e
              ∙ update_self b i1 (b (i - i1 - 1)))
      | inr other ↦ elim (Bool-cases (j == i - i1 - 1)) [
        | inl last ↦
            let e : j ≡ i - i1 - 1 = ==→eq j (i - i1 - 1) last in
            let inner : turned n (suc i1) i j ≡ false = ground arith in
            let outer : turned (suc n) i1 i j ≡ true = ground arith in
            let image : i - j - 1 ≡ i1 = omega (arith, e) in
            rw (inner, outer, image) (ap b2 e ∙ update_self b1 (i - i1 - 1) (b i1))
        | inr between ↦
            let same : turned (suc n) i1 i j ≡ turned n (suc i1) i j = ground arith in
            rw same (elim (Bool-cases (turned n (suc i1) i j)) [
              | inl inside ↦ rw inside (
                  update_ne b1 (i - i1 - 1) (b i1) (ground arith)
                  ∙ update_ne b i1 (b (i - i1 - 1)) (ground arith))
              | inr outside ↦ rw outside (
                  update_ne b1 (i - i1 - 1) (b i1) (ground arith)
                  ∙ update_ne b i1 (b (i - i1 - 1)) (ground arith))
            ])
      ]
    ]

-- All the digits are turned round, and nothing behind them.
pub reversed :
    (n : ℕ) (b : Memory) (j : ℕ)
    → reverse_digits (n / 2) 0 n b j ≡ (if ltb j n then b (n - j - 1) else b j)
reversed n b j =
    reverse_digits-mirror (n / 2) 0 n b (omega arith) j ∙ elim (Bool-cases (turned (n / 2) 0 n j)) [
      | inl inside ↦ rw inside (let lt : ltb j n ≡ true = ground arith in rw lt refl)
      | inr outside ↦ elim (Bool-cases (ltb j n)) [
        | inl middle ↦ let image : n - j - 1 ≡ j = ground arith in rw (outside, middle, image) refl
        | inr behind ↦ rw (outside, behind) refl
      ]
    ]

-- ===== src/Libc/Itoa/Digits.antt =====
-- What the first loop of `itoa` writes.
use so2_soa_fib.Common.{
  ℕ, zero, suc, ◌+◌, ◌-◌, ◌*◌, ◌/◌, ◌%◌, ◌≤◌, ◌<◌, ◌≡◌, ◌≢◌, refl, sym, ◌∙◌, arith, ltb, update,
  update_self, update_ne, ==→eq, ◌==◌, Bool-cases, inl, inr,
}
use so2_soa_fib.Utils.{Memory}
use so2_soa_fib.Libc.Itoa.{write_digits, IsDigit}

-- The number that `n` characters from `i` on give, the last digit first.
unfoldable pub backward : ℕ → ℕ → Memory → ℕ
backward zero i b = 0
backward (suc n) i b = backward n (suc i) b * 10 + (b i - 48)

-- What the first loop has written.
pub record Written (a n i : ℕ) (b b' : Memory) : Type 0 where
  pub number : backward n i b' ≡ a
  pub digits : (j : ℕ) → i ≤ j → j < i + n → IsDigit (b' j)
  pub none_left : a ≡ 0 → n ≡ 0
  pub last : 0 < a → (0 < n) × (b' (i + n - 1) ≢ 48)
  pub before : (j : ℕ) → j < i → b' j ≡ b j
  pub behind : (j : ℕ) → i + n ≤ j → b' j ≡ b j

-- One digit before those of a tenth.
one_more :
    (fuel a i : ℕ) (b : Memory)
    → 0 < a
    → let r = write_digits fuel (a / 10) (suc i) (update b i (a % 10 + 48)) in
      (n : ℕ) × (r.0 ≡ suc i + n) × Written (a / 10) n (suc i) (update b i (a % 10 + 48)) r.1
      → (n : ℕ) × (r.0 ≡ i + n) × Written a n i b r.1
unfolding backward
one_more fuel a i b more (n, e, w) =
    let r = write_digits fuel (a / 10) (suc i) (update b i (a % 10 + 48)) in
    let first : r.1 i ≡ a % 10 + 48 = w.before i (omega arith) ∙ update_self b i (a % 10 + 48) in
    (
      suc n,
      omega (arith, e),
      record {
        number = rw (w.number, first) (omega arith);
        digits = λ j low high. elim (Bool-cases (j == i)) [
          | inl same ↦ rw (==→eq j i same, first) (omega arith)
          | inr differs ↦ w.digits j (ground arith) (omega arith)
        ];
        none_left = λ z. omega arith;
        last = λ p. (
          omega arith,
          elim (Bool-cases (a / 10 == 0)) [
            | inl done ↦
                let none_behind : n ≡ 0 = w.none_left (==→eq (a / 10) 0 done) in
                let place : i + suc n - 1 ≡ i = omega (arith, none_behind) in
                rw (place, first) (ground arith)
            | inr goes_on ↦
                let place : i + suc n - 1 ≡ suc i + n - 1 = omega arith in
                rw place (w.last (ground arith)).1
          ],
        );
        before = λ j lt. w.before j (omega arith) ∙ update_ne b i (a % 10 + 48) (omega arith);
        behind = λ j le. w.behind j (omega arith) ∙ update_ne b i (a % 10 + 48) (omega arith);
      },
    )

pub write_digits-Written :
    (fuel a i : ℕ) (b : Memory)
    → a ≤ fuel
    → (n : ℕ) × ((write_digits fuel a i b).0 ≡ i + n) × Written a n i b (write_digits fuel a i b).1
unfolding write_digits backward
write_digits-Written zero a i b le = (
  0,
  omega arith,
  record {
    number = omega arith;
    digits = λ j low high. omega arith;
    none_left = λ z. refl;
    last = λ p. omega arith;
    before = λ j lt. refl;
    behind = λ j le. refl;
  },
)
write_digits-Written (suc fuel) a i b le = elim (Bool-cases (ltb 0 a)) [
  | inl more ↦ rw more (
      one_more fuel a i b (ground arith)
        (write_digits-Written fuel (a / 10) (suc i) _ (ground arith)))
  | inr over ↦
      let zero_a : a ≡ 0 = ground arith in
      rw over (
        0,
        omega arith,
        record {
          number = sym zero_a;
          digits = λ j low high. omega arith;
          none_left = λ z. refl;
          last = λ p. omega arith;
          before = λ j lt. refl;
          behind = λ j le. refl;
        },
      )
]

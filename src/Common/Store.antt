-- ===== src/Common/Store.antt =====
-- Memory that is addressed by numbers: a function, and a write at one address.
use Prim.Native.Nat.{ℕ}
use mathlib.Core.Path.{◌≡◌, sym, subst, ◌∙◌}
use mathlib.Core.Logic.{◌≢◌, inl, inr}
use mathlib.Core.Bool.{true, false}
use native.Mathlib.Omega.{arith}
use so2_soa_fib.Common.Tests.{◌==◌, if◌then◌else◌, Bool-cases, ==→eq, eq→==}

module _ {ℓ} {A : Type ℓ} where
  unfoldable pub update : (ℕ → A) → ℕ → A → ℕ → A
  update f p v q = if q == p then v else f q

  pub update_self : (f : ℕ → A) (p : ℕ) (v : A) → update f p v p ≡ v
  unfolding update
  update_self f p v = ground arith

  pub update_ne : (f : ℕ → A) (p : ℕ) (v : A) {q : ℕ} → q ≢ p → update f p v q ≡ f q
  unfolding update
  update_ne f p v h = ground arith

  -- What holds at the written address and at every other holds after the write.
  pub update_cases {κ} :
      (P : ℕ → A → Type κ) (f : ℕ → A) (p : ℕ) (v : A)
      → P p v
      → ((a : ℕ) → a ≢ p → P a (f a))
      → (a : ℕ) → P a (update f p v a)
  update_cases P f p v at_p other a = elim (Bool-cases (a == p)) [
    | inl same ↦
        let s : a ≡ p = ==→eq a p same in
        subst (λ b. P b (update f p v b)) (sym s) (subst (P p) (sym (update_self f p v)) at_p)
    | inr differs ↦
        let n : a ≢ p = λ e. absurd_bool (sym (eq→== a p e) ∙ differs) in
        subst (P a) (sym (update_ne f p v n)) (other a n)
  ]
    where
      absurd_bool : true ≡ false → ⊥
      absurd_bool e = cc

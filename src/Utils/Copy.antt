-- ===== src/Utils/Copy.antt =====
-- The copies move a block as a whole.
use so2_soa_fib.Common.{
  ℕ, zero, suc, ◌+◌, ◌-◌, ◌≤◌, ◌<◌, ◌≡◌, ◌⊎◌, inl, inr, refl, sym, ap, ◌∙◌, arith, ltb, update,
  update_self, update_ne, Bool-cases, ltb→lt, subst, pos,
}
use native.Mathlib.Decide.{dec_lt}
use native.Mathlib.Nat.{add-zero}
use so2_soa_fib.Utils.{
  Memory, copy_bytes, copy_word, copy_words, copy_data, copy_from_user, copy_to_user,
}

-- The block of `size` bytes at `p` has been written at `q`, and nothing else.
pub record Copied (p q size : ℕ) (mem mem' : Memory) : Type 0 where
  pub block : (i : ℕ) → i < size → mem' (q + i) ≡ mem (p + i)
  pub rest : (a : ℕ) → (a < q) ⊎ (q + size ≤ a) → mem' a ≡ mem a

-- A copy upwards may not reach the part of the source that is still to be read.
abbrev pub CanCopy : ℕ → ℕ → ℕ → Type 0
CanCopy p q size = (q ≤ p) ⊎ (p + size ≤ q)

-- The first `k` bytes, and then the others.
Copied-append :
    (p q k n : ℕ) (m0 m1 m2 : Memory)
    → CanCopy p q (k + n)
    → Copied p q k m0 m1
    → Copied (p + k) (q + k) n m1 m2
    → Copied p q (k + n) m0 m2
Copied-append p q k n m0 m1 m2 can c d = record {
  block = λ i h. elim (dec_lt i k) [
    | yes front ↦ d.rest (q + i) (inl (omega arith)) ∙ c.block i front
    | no back ↦
        let source : p + k + (i - k) ≡ p + i = omega arith in
        let target : q + k + (i - k) ≡ q + i = omega arith in
        ap m2 (sym target)
        ∙ (d.block (i - k) (omega arith) ∙ (ap m1 source ∙ c.rest (p + i) (omega arith)))
  ];
  rest = λ a h. d.rest a (omega arith) ∙ c.rest a (omega arith);
}

one-Copied : (p q : ℕ) (mem : Memory) → Copied p q 1 mem (update mem q (mem p))
one-Copied p q mem = record {
  block = λ i h.
      let z : i ≡ 0 = omega arith in
      let e : q + i ≡ q = omega arith in
      let f : p ≡ p + i = omega arith in
      ap (update mem q (mem p)) e ∙ (update_self mem q (mem p) ∙ ap mem f);
  rest = λ a h. update_ne mem q (mem p) (omega arith);
}

copy_bytes-Copied :
    (n p q : ℕ) (mem : Memory) → CanCopy p q n → Copied p q n mem (copy_bytes n p q mem)
unfolding copy_bytes
copy_bytes-Copied zero p q mem can = record {
  block = λ i h. absurd (omega arith);
  rest = λ a h. refl;
}
copy_bytes-Copied (suc n) p q mem can =
    let size : 1 + n ≡ suc n = omega arith in
    let m1 = update mem q (mem p) in
    subst (λ s. Copied p q s mem (copy_bytes n (p + 1) (q + 1) m1)) size
      (Copied-append p q 1 n mem m1 (copy_bytes n (p + 1) (q + 1) m1) (omega arith)
        (one-Copied p q mem) (copy_bytes-Copied n (p + 1) (q + 1) m1 (omega arith)))

-- The byte that the word's copy leaves at each of its four addresses.
copy_word-at :
    (p q : ℕ) (mem : Memory)
    → (copy_word p q mem q ≡ mem p)
      × (copy_word p q mem (q + 1) ≡ mem (p + 1))
      × (copy_word p q mem (q + 2) ≡ mem (p + 2))
      × (copy_word p q mem (q + 3) ≡ mem (p + 3))
unfolding copy_word update
copy_word-at p q mem = (ground arith, ground arith, ground arith, ground arith)

copy_word-block : (p q : ℕ) (mem : Memory) (i : ℕ) → i < 4 → copy_word p q mem (q + i) ≡ mem (p + i)
copy_word-block p q mem i h =
    let (a, b, c, d) = copy_word-at p q mem in
    elim (dec_lt i 1) [
      | yes x ↦ let z : i ≡ 0 = omega arith in rw (z, add-zero, add-zero) a
      | no n1 ↦ elim (dec_lt i 2) [
        | yes x ↦ let z : i ≡ 1 = omega arith in rw z b
        | no n2 ↦ elim (dec_lt i 3) [
          | yes x ↦ let z : i ≡ 2 = omega arith in rw z c
          | no n3 ↦ let z : i ≡ 3 = omega arith in rw z d
        ]
      ]
    ]

copy_word-Copied : (p q : ℕ) (mem : Memory) → Copied p q 4 mem (copy_word p q mem)
unfolding copy_word update
copy_word-Copied p q mem = record { block = copy_word-block p q mem; rest = λ a h. ground arith }

copy_words-Copied :
    (fuel p q size : ℕ) (mem : Memory)
    → CanCopy p q size
    → Copied p q size mem (copy_words fuel p q size mem)
unfolding copy_words
copy_words-Copied zero p q size mem can = copy_bytes-Copied size p q mem can
copy_words-Copied (suc fuel) p q size mem can = elim (Bool-cases (ltb 4 size)) [
  | inl more ↦
      let m1 = copy_word p q mem in
      let split : 4 + (size - 4) ≡ size = ground arith in
      rw more (
        subst (λ s. Copied p q s mem (copy_words fuel (p + 4) (q + 4) (size - 4) m1)) split
          (Copied-append p q 4 (size - 4) mem m1 _ (rw split can) (copy_word-Copied p q mem)
            (copy_words-Copied fuel (p + 4) (q + 4) (size - 4) m1 (omega (arith, ltb→lt)))))
  | inr last ↦ rw last (copy_bytes-Copied size p q mem can)
]

-- `copy_data`, `copy_from_user` and `copy_to_user` write the block of `size` bytes at `start` to
-- `dest` and change no other byte, if the blocks do not overlap or `dest` is not above `start`; the
-- two that return a value return 0.
pub copies-Copied :
    (start dest size : ℕ) (mem : Memory)
    → CanCopy start dest size
    → Copied start dest size mem (copy_data start dest size mem)
      × ((copy_from_user start dest size mem).0 ≡ pos 0)
      × Copied start dest size mem (copy_from_user start dest size mem).1
      × ((copy_to_user start dest size mem).0 ≡ pos 0)
      × Copied start dest size mem (copy_to_user start dest size mem).1
unfolding copy_data copy_from_user copy_to_user
copies-Copied start dest size mem can =
    let c = copy_words-Copied size start dest size mem can in (c, refl, c, refl, c)

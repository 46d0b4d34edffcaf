-- ===== src/Common/Lists.antt =====
-- Lists measured and indexed by native numbers, under the library's names.
use Prim.Native.Nat.{ℕ, zero, suc, ◌+◌, ◌<◌}
use mathlib.Core.Path.{◌≡◌, refl, sym, ap}
use mathlib.Core.Logic.{◌≢◌}
use mathlib.Core.Bool.{Bool, true, false}
use mathlib.Core.List.{List, [], ◌∷◌, ◌++◌}
use mathlib.Core.Option.{Option, none, some}
use native.Mathlib.Omega.{arith}

module _ {ℓ} {A : Type ℓ} where
  abbrev pub length : List A → ℕ
  length [] = 0
  length (x ∷ xs) = suc (length xs)

  abbrev pub get_elem? : List A → ℕ → Option A
  get_elem? [] i = none
  get_elem? (x ∷ xs) zero = some x
  get_elem? (x ∷ xs) (suc i) = get_elem? xs i

  abbrev pub get_or : List A → ℕ → A → A
  get_or [] i d = d
  get_or (x ∷ xs) zero d = x
  get_or (x ∷ xs) (suc i) d = get_or xs i d

  -- A write out of bounds changes nothing.
  abbrev pub set : List A → ℕ → A → List A
  set [] i v = []
  set (x ∷ xs) zero v = v ∷ xs
  set (x ∷ xs) (suc i) v = x ∷ set xs i v

  abbrev pub replicate : ℕ → A → List A
  replicate zero a = []
  replicate (suc n) a = a ∷ replicate n a

  pub length-append : (xs ys : List A) → length (xs ++ ys) ≡ length xs + length ys
  length-append [] ys = omega arith
  length-append (x ∷ xs) ys = omega (arith, length-append xs ys)

  pub length-set : (xs : List A) (i : ℕ) (v : A) → length (set xs i v) ≡ length xs
  length-set [] i v = refl
  length-set (x ∷ xs) zero v = refl
  length-set (x ∷ xs) (suc i) v = ap suc (length-set xs i v)

  pub get_or-set_self :
      (xs : List A) (i : ℕ) (v d : A) → i < length xs → get_or (set xs i v) i d ≡ v
  get_or-set_self [] i v d h = absurd (omega arith)
  get_or-set_self (x ∷ xs) zero v d h = refl
  get_or-set_self (x ∷ xs) (suc i) v d h = get_or-set_self xs i v d (omega arith)

  pub get_or-set_ne :
      (xs : List A) {i j : ℕ} (v d : A) → i ≢ j → get_or (set xs i v) j d ≡ get_or xs j d
  get_or-set_ne [] v d h = refl
  get_or-set_ne (x ∷ xs) {i = zero} {j = zero} v d h = absurd (h refl)
  get_or-set_ne (x ∷ xs) {i = zero} {j = suc j} v d h = refl
  get_or-set_ne (x ∷ xs) {i = suc i} {j = zero} v d h = refl
  get_or-set_ne (x ∷ xs) {i = suc i} {j = suc j} v d h = get_or-set_ne xs v d (λ e. h (ap suc e))

-- `Out a xs`: the number `a` is not in `xs`.
abbrev pub Out : ℕ → List ℕ → Type 0
Out a [] = Unit
Out a (x ∷ xs) = (a ≢ x) × Out a xs

abbrev pub Distinct : List ℕ → Type 0
Distinct [] = Unit
Distinct (x ∷ xs) = Out x xs × Distinct xs

pub Out-append : (a : ℕ) (xs ys : List ℕ) → Out a xs → Out a ys → Out a (xs ++ ys)
Out-append a [] ys h k = k
Out-append a (x ∷ xs) ys h k = (h.0, Out-append a xs ys h.1 k)

pub Out-left : (a : ℕ) (xs ys : List ℕ) → Out a (xs ++ ys) → Out a xs
Out-left a [] ys h = tt
Out-left a (x ∷ xs) ys h = (h.0, Out-left a xs ys h.1)

pub Out-right : (a : ℕ) (xs ys : List ℕ) → Out a (xs ++ ys) → Out a ys
Out-right a [] ys h = h
Out-right a (x ∷ xs) ys h = Out-right a xs ys h.1

-- An element put between two parts that it is not in, and one taken out.
pub Distinct-insert :
    (a : ℕ) (xs ys : List ℕ) → Out a (xs ++ ys) → Distinct (xs ++ ys) → Distinct (xs ++ a ∷ ys)
Distinct-insert a [] ys h d = (h, d)
Distinct-insert a (x ∷ xs) ys h d = (
  Out-append x xs (a ∷ ys) (Out-left x xs ys d.0) (λ e. h.0 (sym e), Out-right x xs ys d.0),
  Distinct-insert a xs ys h.1 d.1,
)

pub Distinct-remove :
    (a : ℕ) (xs ys : List ℕ) → Distinct (xs ++ a ∷ ys) → Out a (xs ++ ys) × Distinct (xs ++ ys)
Distinct-remove a [] ys d = (d.0, d.1)
Distinct-remove a (x ∷ xs) ys d =
    let (out, rest) = Distinct-remove a xs ys d.1 in
    let apart = Out-right x xs (a ∷ ys) d.0 in
    ((λ e. apart.0 (sym e), out), (Out-append x xs ys (Out-left x xs (a ∷ ys) d.0) apart.1, rest))

pub Out-insert : (b a : ℕ) (xs ys : List ℕ) → b ≢ a → Out b (xs ++ ys) → Out b (xs ++ a ∷ ys)
Out-insert b a [] ys n h = (n, h)
Out-insert b a (x ∷ xs) ys n h = (h.0, Out-insert b a xs ys n h.1)

pub Out-remove : (b a : ℕ) (xs ys : List ℕ) → Out b (xs ++ a ∷ ys) → Out b (xs ++ ys)
Out-remove b a [] ys h = h.1
Out-remove b a (x ∷ xs) ys h = (h.0, Out-remove b a xs ys h.1)

-- Every element of the first list is out of the second.
abbrev pub Apart : List ℕ → List ℕ → Type 0
Apart [] ys = Unit
Apart (x ∷ xs) ys = Out x ys × Apart xs ys

abbrev pub is_empty {ℓ} : {A : Type ℓ} → List A → Bool
is_empty [] = true
is_empty (x ∷ xs) = false

module _ {ℓ} {A : Type ℓ} where
  abbrev pub take : ℕ → List A → List A
  take zero xs = []
  take (suc n) [] = []
  take (suc n) (x ∷ xs) = x ∷ take n xs

  abbrev pub drop : ℕ → List A → List A
  drop zero xs = xs
  drop (suc n) [] = []
  drop (suc n) (x ∷ xs) = drop n xs

  pub set-append :
      (xs : List A) (y : A) (ys : List A) (v : A) → set (xs ++ y ∷ ys) (length xs) v ≡ xs ++ v ∷ ys
  set-append [] y ys v = refl
  set-append (x ∷ xs) y ys v = ap (λ t. x ∷ t) (set-append xs y ys v)

  pub replicate-snoc : (n : ℕ) (a : A) → replicate n a ++ a ∷ [] ≡ replicate (suc n) a
  replicate-snoc zero a = refl
  replicate-snoc (suc n) a = ap (λ t. a ∷ t) (replicate-snoc n a)

-- ===== src/ListHead/Chain.antt =====
-- Chains of `next` and of `prev` pointers, and what one unlinking or linking does to each.
use so2_soa_fib.Common.{
  ◌≡◌, ◌≢◌, sym, ◌∙◌, List, [], ◌∷◌, ◌++◌, update, update_self, update_ne, Out, Distinct, Out-left,
  Out-right,
}
use so2_soa_fib.ListHead.{Ptr}

-- From `p` the pointers of `f` lead through `xs` to `q`.
abbrev pub NextChain : (Ptr → Ptr) → Ptr → List Ptr → Ptr → Type 0
NextChain f p [] q = f p ≡ q
NextChain f p (x ∷ xs) q = (f p ≡ x) × NextChain f x xs q

-- The pointers of `g` lead back from `q` through `xs` to `p`.
abbrev pub PrevChain : (Ptr → Ptr) → Ptr → List Ptr → Ptr → Type 0
PrevChain g p [] q = g q ≡ p
PrevChain g p (x ∷ xs) q = (g x ≡ p) × PrevChain g x xs q

abbrev pub first_of : List Ptr → Ptr → Ptr
first_of [] q = q
first_of (x ∷ xs) q = x

abbrev pub last_of : Ptr → List Ptr → Ptr
last_of p [] = p
last_of p (x ∷ xs) = last_of x xs

pub ne-first_of : (y q : Ptr) (zs : List Ptr) → y ≢ q → Out y zs → y ≢ first_of zs q
ne-first_of y q [] n h = n
ne-first_of y q (z ∷ zs) n h = h.0

pub ne-last_of : (y p : Ptr) (ys : List Ptr) → y ≢ p → Out y ys → y ≢ last_of p ys
ne-last_of y p [] n h = n
ne-last_of y p (x ∷ xs) n h = ne-last_of y x xs h.0 h.1

module _ (f : Ptr → Ptr) (a v : Ptr) where
  pub NextChain-update :
      (p : Ptr) (xs : List Ptr) (q : Ptr)
      → Out a (p ∷ xs)
      → NextChain f p xs q
      → NextChain (update f a v) p xs q
  NextChain-update p [] q out c = update_ne f a v (λ e. out.0 (sym e)) ∙ c
  NextChain-update p (x ∷ xs) q out c =
      (update_ne f a v (λ e. out.0 (sym e)) ∙ c.0, NextChain-update x xs q out.1 c.1)

  pub PrevChain-update :
      (p : Ptr) (xs : List Ptr) (q : Ptr)
      → a ≢ q
      → Out a xs
      → PrevChain f p xs q
      → PrevChain (update f a v) p xs q
  PrevChain-update p [] q n out c = update_ne f a v (λ e. n (sym e)) ∙ c
  PrevChain-update p (x ∷ xs) q n out c =
      (update_ne f a v (λ e. out.0 (sym e)) ∙ c.0, PrevChain-update x xs q n out.1 c.1)

pub NextChain-first :
    (f : Ptr → Ptr) (p : Ptr) (xs : List Ptr) (q : Ptr) → NextChain f p xs q → f p ≡ first_of xs q
NextChain-first f p [] q c = c
NextChain-first f p (x ∷ xs) q c = c.0

pub PrevChain-last :
    (g : Ptr → Ptr) (p : Ptr) (xs : List Ptr) (q : Ptr) → PrevChain g p xs q → g q ≡ last_of p xs
PrevChain-last g p [] q c = c
PrevChain-last g p (x ∷ xs) q c = PrevChain-last g x xs q c.1

pub NextChain-split :
    (f : Ptr → Ptr) (p : Ptr) (ys : List Ptr) (x : Ptr) (zs : List Ptr) (q : Ptr)
    → NextChain f p (ys ++ x ∷ zs) q
    → NextChain f x zs q
NextChain-split f p [] x zs q c = c.1
NextChain-split f p (y ∷ ys) x zs q c = NextChain-split f y ys x zs q c.1

pub PrevChain-split :
    (g : Ptr → Ptr) (p : Ptr) (ys : List Ptr) (x : Ptr) (zs : List Ptr) (q : Ptr)
    → PrevChain g p (ys ++ x ∷ zs) q
    → (g x ≡ last_of p ys) × PrevChain g x zs q
PrevChain-split g p [] x zs q c = (c.0, c.1)
PrevChain-split g p (y ∷ ys) x zs q c = PrevChain-split g y ys x zs q c.1

-- The first pointer of a chain of `prev` may be turned to another node.
pub PrevChain-retarget :
    (g : Ptr → Ptr) (x p : Ptr) (zs : List Ptr) (q : Ptr)
    → Distinct zs
    → Out q zs
    → PrevChain g x zs q
    → PrevChain (update g (first_of zs q) p) p zs q
PrevChain-retarget g x p [] q d out c = update_self g q p
PrevChain-retarget g x p (z ∷ zs) q d out c =
    (update_self g z p, PrevChain-update g z p z zs q (λ e. out.0 (sym e)) d.0 c.1)

-- `list_del`: the two pointers that are written leave a chain without `x`.
pub NextChain-remove :
    (f : Ptr → Ptr) (p : Ptr) (ys : List Ptr) (x : Ptr) (zs : List Ptr) (q : Ptr)
    → Distinct (p ∷ ys ++ zs)
    → NextChain f p (ys ++ x ∷ zs) q
    → NextChain (update f (last_of p ys) (first_of zs q)) p (ys ++ zs) q
NextChain-remove f p [] x [] q d c = update_self f p q
NextChain-remove f p [] x (z ∷ zs) q d c =
    (update_self f p z, NextChain-update f p z z zs q d.0 c.1.1)
NextChain-remove f p (y ∷ ys) x zs q d c = (
  update_ne f (last_of y ys) (first_of zs q) (ne-last_of p y ys d.0.0 (Out-left p ys zs d.0.1))
      ∙ c.0,
  NextChain-remove f y ys x zs q d.1 c.1,
)

pub PrevChain-remove :
    (g : Ptr → Ptr) (p : Ptr) (ys : List Ptr) (x : Ptr) (zs : List Ptr) (q : Ptr)
    → Distinct (ys ++ zs)
    → Out q (ys ++ zs)
    → PrevChain g p (ys ++ x ∷ zs) q
    → PrevChain (update g (first_of zs q) (last_of p ys)) p (ys ++ zs) q
PrevChain-remove g p [] x zs q d out c = PrevChain-retarget g x p zs q d out c.1
PrevChain-remove g p (y ∷ ys) x zs q d out c = (
  update_ne g (first_of zs q) (last_of y ys)
        (ne-first_of y q zs (λ e. out.0 (sym e)) (Out-right y ys zs d.0))
      ∙ c.0,
  PrevChain-remove g y ys x zs q d.1 out.1 c.1,
)

-- `__list_add`: the four pointers that are written leave a chain with `new` between the parts.
pub NextChain-insert :
    (f : Ptr → Ptr) (p : Ptr) (ys : List Ptr) (new : Ptr) (zs : List Ptr) (q : Ptr)
    → Distinct (p ∷ ys ++ zs)
    → Out new (p ∷ ys ++ zs)
    → NextChain f p (ys ++ zs) q
    → NextChain (update (update f new (first_of zs q)) (last_of p ys) new) p (ys ++ new ∷ zs) q
NextChain-insert f p [] new [] q d out c =
    (update_self _ p new, update_ne _ p new out.0 ∙ update_self f new q)
NextChain-insert f p [] new (z ∷ zs) q d out c = (
  update_self _ p new,
  (
    update_ne _ p new out.0 ∙ update_self f new z,
    NextChain-update _ p new z zs q d.0 (NextChain-update f new z z zs q out.1 c.1),
  ),
)
NextChain-insert f p (y ∷ ys) new zs q d out c = (
  update_ne _ (last_of y ys) new (ne-last_of p y ys d.0.0 (Out-left p ys zs d.0.1))
      ∙ (update_ne f new (first_of zs q) (λ e. out.0 (sym e)) ∙ c.0),
  NextChain-insert f y ys new zs q d.1 out.1 c.1,
)

pub PrevChain-insert :
    (g : Ptr → Ptr) (p : Ptr) (ys : List Ptr) (new : Ptr) (zs : List Ptr) (q : Ptr)
    → Distinct (ys ++ zs)
    → Out q (ys ++ zs)
    → new ≢ q
    → Out new (ys ++ zs)
    → PrevChain g p (ys ++ zs) q
    → PrevChain (update (update g (first_of zs q) new) new (last_of p ys)) p (ys ++ new ∷ zs) q
PrevChain-insert g p [] new zs q d out n fresh c = (
  update_self _ new p,
  PrevChain-update _ new p new zs q n fresh (PrevChain-retarget g p new zs q d out c),
)
PrevChain-insert g p (y ∷ ys) new zs q d out n fresh c = (
  update_ne _ new (last_of y ys) (λ e. fresh.0 (sym e))
      ∙ (update_ne g (first_of zs q) new
            (ne-first_of y q zs (λ e. out.0 (sym e)) (Out-right y ys zs d.0))
          ∙ c.0),
  PrevChain-insert g y ys new zs q d.1 out.1 n fresh.1 c.1,
)

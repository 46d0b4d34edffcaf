-- ===== src/Processor/Stack.antt =====
-- What lies on the kernel's stack.
use so2_soa_fib.Common.{
  ℕ, zero, suc, ◌+◌, ◌-◌, ◌*◌, ◌≤◌, ◌<◌, ◌≡◌, refl, sym, ap, subst, ◌∙◌, arith, some, get_elem?,
  set, List, [], ◌∷◌, ◌++◌, length, update, update_self, update_ne,
}
use so2_soa_fib.Processor.{Processor, push}
use so2_soa_fib.Processor.Entry.{push_all}

-- The words `ws` lie from the address `a` on.
abbrev pub On : (ℕ → ℕ) → ℕ → List ℕ → Type 0
On words a [] = Unit
On words a (w ∷ ws) = (words a ≡ w) × On words (a + 4) ws

pub On-same :
    (words words' : ℕ → ℕ) (a : ℕ) (ws : List ℕ)
    → ((b : ℕ) → a ≤ b → b < a + 4 * length ws → words' b ≡ words b)
    → On words a ws
    → On words' a ws
On-same words words' a [] same on = tt
On-same words words' a (w ∷ ws) same on = (
  same a (omega arith) (omega arith) ∙ on.0,
  On-same words words' (a + 4) ws (λ b le lt. same b (omega arith) (omega arith)) on.1,
)

push-On :
    (w : ℕ) (ws : List ℕ) (p : Processor)
    → 4 ≤ p.esp
    → On p.words p.esp ws
    → On (push w p).words (push w p).esp (w ∷ ws)
unfolding push
push-On w ws p room on =
    let back : p.esp - 4 + 4 ≡ p.esp = omega arith in
    (
      update_self p.words (p.esp - 4) w,
      subst (λ a. On (push w p).words a ws) (sym back)
          (On-same p.words (push w p).words p.esp ws
            (λ b le lt. update_ne p.words (p.esp - 4) w (omega arith)) on),
    )

-- The words pushed, the last one first, on those that were there.
abbrev pub stacked : List ℕ → List ℕ → List ℕ
stacked [] ws = ws
stacked (x ∷ xs) ws = stacked xs (x ∷ ws)

pub push_all-On :
    (xs ws : List ℕ) (p : Processor)
    → 4 * length xs ≤ p.esp
    → On p.words p.esp ws
    → On (push_all xs p).words (push_all xs p).esp (stacked xs ws)
unfolding push_all push
push_all-On [] ws p room on = on
push_all-On (x ∷ xs) ws p room on =
    push_all-On xs (x ∷ ws) (push x p) (omega arith) (push-On x ws p (omega arith) on)

pub push_all-esp : (xs : List ℕ) (p : Processor) → (push_all xs p).esp ≡ p.esp - 4 * length xs
unfolding push_all push
push_all-esp [] p = omega arith
push_all-esp (x ∷ xs) p = push_all-esp xs (push x p) ∙ omega arith

-- Nothing but `esp` and memory below it changes.
pub push_all-frame :
    (xs : List ℕ) (p : Processor)
    → push_all xs p ≡ record p { esp = (push_all xs p).esp; words = (push_all xs p).words }
unfolding push_all push
push_all-frame [] p = refl
push_all-frame (x ∷ xs) p = push_all-frame xs (push x p)

pub On-at :
    (words : ℕ → ℕ) (a i w : ℕ) (ws : List ℕ)
    → On words a ws
    → get_elem? ws i ≡ some w
    → words (a + 4 * i) ≡ w
On-at words a i w [] on e = absurd (cc e)
On-at words a zero w (x ∷ ws) on e =
    let start : a + 4 * 0 ≡ a = omega arith in ap words start ∙ on.0 ∙ cc e
On-at words a (suc i) w (x ∷ ws) on e =
    let next : a + 4 * suc i ≡ a + 4 + 4 * i = omega arith in
    ap words next ∙ On-at words (a + 4) i w ws on.1 e

-- The words behind the first ones.
pub On-append :
    (words : ℕ → ℕ) (a : ℕ) (xs ws : List ℕ)
    → On words a (xs ++ ws)
    → On words (a + 4 * length xs) ws
On-append words a [] ws on =
    let start : a ≡ a + 4 * 0 = omega arith in subst (λ b. On words b ws) start on
On-append words a (x ∷ xs) ws on =
    let next : a + 4 + 4 * length xs ≡ a + 4 * suc (length xs) = omega arith in
    subst (λ b. On words b ws) next (On-append words (a + 4) xs ws on.1)

-- A word on the stack is replaced.
pub On-set :
    (words : ℕ → ℕ) (a i v : ℕ) (ws : List ℕ)
    → On words a ws
    → On (update words (a + 4 * i) v) a (set ws i v)
On-set words a i v [] on = tt
On-set words a zero v (w ∷ ws) on =
    let start : a + 4 * 0 ≡ a = omega arith in
    subst (λ b. On (update words b v) a (v ∷ ws)) (sym start)
      (
        update_self words a v,
        On-same words (update words a v) (a + 4) ws (λ b le lt. update_ne words a v (omega arith))
            on.1,
      )
On-set words a (suc i) v (w ∷ ws) on =
    let next : a + 4 + 4 * i ≡ a + 4 * suc i = omega arith in
    (
      update_ne words (a + 4 * suc i) v (omega arith) ∙ on.0,
      subst (λ b. On (update words b v) (a + 4) (set ws i v)) next
          (On-set words (a + 4) i v ws on.1),
    )

-- Pushes leave the words above alone.
pub push_all-same :
    (xs : List ℕ) (p : Processor) (b : ℕ)
    → 4 * length xs ≤ p.esp
    → p.esp ≤ b
    → (push_all xs p).words b ≡ p.words b
unfolding push_all push
push_all-same [] p b room le = refl
push_all-same (x ∷ xs) p b room le =
    push_all-same xs (push x p) b (omega arith) (omega arith)
    ∙ update_ne p.words (p.esp - 4) x (omega arith)

pub On-read :
    (words : ℕ → ℕ) (a i b w : ℕ) (ws : List ℕ)
    → On words a ws
    → b ≡ a + 4 * i
    → get_elem? ws i ≡ some w
    → words b ≡ w
On-read words a i b w ws on place e = ap words place ∙ On-at words a i w ws on e

-- The words lie at another place.
pub On-moved :
    (words words' : ℕ → ℕ) (a b : ℕ) (ws : List ℕ)
    → ((i : ℕ) → i < 4 * length ws → words' (b + i) ≡ words (a + i))
    → On words a ws
    → On words' b ws
On-moved words words' a b [] same on = tt
On-moved words words' a b (w ∷ ws) same on =
    let start : b ≡ b + 0 = omega arith in
    let start' : a + 0 ≡ a = omega arith in
    (
      ap words' start ∙ same 0 (omega arith) ∙ ap words start' ∙ on.0,
      On-moved words words' (a + 4) (b + 4) ws
          (λ i lt.
            let next : b + 4 + i ≡ b + (4 + i) = omega arith in
            let next' : a + (4 + i) ≡ a + 4 + i = omega arith in
            ap words' next ∙ same (4 + i) (omega arith) ∙ ap words next')
          on.1,
    )

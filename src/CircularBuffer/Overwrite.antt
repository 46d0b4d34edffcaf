-- ===== src/CircularBuffer/Overwrite.antt =====
-- What is left when more than eight characters are written before one is read.
use mathlib.Core.List.{append-nil, append_assoc}
use so2_soa_fib.Common.{
  ℕ, zero, suc, ◌+◌, ◌%◌, ◌≤◌, ◌≡◌, refl, sym, ap, ap₂, ◌∙◌, List, [], ◌∷◌, ◌++◌, arith, length,
  length-append, set-append, drop, replicate, Out, Out-append, false, ◌==◌, some, subst,
}
use so2_soa_fib.CircularBuffer.{
  CircularBuffer, max_val, circular_init, circular_read, circular_write, ReadResult,
}
use so2_soa_fib.CircularBuffer.View.{
  View, IsValid, put, take_first, view, Reply, got, circular_init-view, circular_write-IsValid,
  circular_read-IsValid, view-circular_write, view-circular_read,
}

unfoldable pub write_all : CircularBuffer → List ℕ → CircularBuffer
write_all b [] = b
write_all b (x ∷ xs) = write_all (circular_write b x) xs

-- The characters that `n` reads store.
unfoldable pub drain : ℕ → CircularBuffer → List ℕ
drain zero b = []
drain (suc n) b = let r = circular_read b in r.rd ∷ drain n r.after

-- Writes go on over the cells that follow those written last.
write_all-view :
    (ys : List ℕ) {b : CircularBuffer} (front rest : List ℕ)
    → IsValid b
    → view b ≡ record { cells = front ++ rest; cursor = length front % max_val }
    → length front + length rest ≡ max_val
    → length ys ≤ length rest
    → IsValid (write_all b ys)
      × (view (write_all b ys) ≡ record {
        cells = (front ++ ys) ++ drop (length ys) rest;
        cursor = (length front + length ys) % max_val;
      })
unfolding write_all put
write_all-view [] {b} front rest v e h k = (
  v,
  e
      ∙ ap₂ {C = View} (λ xs w. record { cells = xs ++ rest; cursor = w }) (sym (append-nil front))
          (omega arith),
)
write_all-view (y ∷ ys) front [] v e h k = absurd (omega arith)
write_all-view (y ∷ ys) {b} front (r ∷ rest) v e h k =
    let len : length (front ++ y ∷ []) ≡ suc (length front) =
      omega (arith, length-append front (y ∷ [])) in
    let cur : length front % max_val ≡ length front = omega arith in
    let next : view (circular_write b y) ≡ record {
      cells = (front ++ y ∷ []) ++ rest;
      cursor = length (front ++ y ∷ []) % max_val;
    } =
      view-circular_write y v
      ∙ (ap (put y) e
          ∙ rw (cur, len, set-append front r rest y, append_assoc front (y ∷ []) rest)
              (ap {B = View} (λ w. record { cells = front ++ y ∷ rest; cursor = w })
                (omega arith))) in
    let (v', e') =
      write_all-view ys (front ++ y ∷ []) rest (circular_write-IsValid y v) next (omega arith)
        (omega arith) in
    (
      v',
      e'
          ∙ rw (append_assoc front (y ∷ []) ys, len)
              (ap {B = View}
                (λ w. record { cells = (front ++ y ∷ ys) ++ drop (length ys) rest; cursor = w })
                (omega arith)),
    )

-- Reads take the characters of the view in order.
drain-view :
    (xs : List ℕ) {b : CircularBuffer} (zs : List ℕ) (w : ℕ)
    → IsValid b
    → view b ≡ record { cells = xs ++ zs; cursor = w }
    → Out 0 xs
    → drain (length xs) b ≡ xs
unfolding drain take_first
drain-view [] zs w v e n = refl
drain-view (x ∷ xs) {b} zs w v e n =
    let taken : (x == 0) ≡ false = ground arith in
    let t : take_first (view b)
        ≡ (some x, record { cells = (xs ++ zs) ++ 0 ∷ []; cursor = (w + 7) % max_val }) =
      ap take_first e ∙ rw taken in
    let (reply, after) = view-circular_read v in
    ap₂ ◌∷◌ (stored (circular_read b) x (subst (Reply (circular_read b)) (ap (λ p. p.0) t) reply)) (
      drain-view xs (zs ++ 0 ∷ []) ((w + 7) % max_val) (circular_read-IsValid v)
        (after ∙ (ap (λ p. p.1) t ∙ rw (append_assoc xs zs (0 ∷ [])))) n.1)
  where
    stored : (r : ReadResult) (y : ℕ) → Reply r (some y) → r.rd ≡ y
    stored r y (got _ e f) = e

Out-drop : (n : ℕ) (xs : List ℕ) → Out 0 xs → Out 0 (drop n xs)
Out-drop zero xs h = h
Out-drop (suc n) [] h = tt
Out-drop (suc n) (x ∷ xs) h = Out-drop n xs h.1

length-append-drop :
    (xs ys : List ℕ) → length ys ≤ length xs → length (ys ++ drop (length ys) xs) ≡ length xs
length-append-drop xs [] h = refl
length-append-drop [] (y ∷ ys) h = absurd (omega arith)
length-append-drop (x ∷ xs) (y ∷ ys) h = omega (arith, length-append-drop xs ys (omega arith))

-- After `circular_init`, eight characters `xs` and up to eight more `ys` are written, none of them
-- NUL. Eight reads then give `ys` and after them the characters of `xs` that `ys` did not
-- overwrite: the newest come first.
pub drain-write_all :
    (b : CircularBuffer) (xs ys : List ℕ)
    → length b.buffer ≡ max_val
    → length xs ≡ max_val
    → length ys ≤ max_val
    → Out 0 xs
    → Out 0 ys
    → drain max_val (write_all (write_all (circular_init b) xs) ys) ≡ ys ++ drop (length ys) xs
drain-write_all b xs ys hb hx hy nx ny =
    let (v, e) = circular_init-view b hb in
    let (v', e') = write_all-view xs [] (replicate 8 0) v e refl (omega arith) in
    let full : view (write_all (circular_init b) xs) ≡ record { cells = xs; cursor = 0 } =
      e' ∙ rw (hx, append-nil) in
    let (v'', e'') = write_all-view ys [] xs v' full (omega arith) (omega arith) in
    let out = Out-append 0 ys (drop (length ys) xs) ny (Out-drop (length ys) xs nx) in
    let n : length (ys ++ drop (length ys) xs) ≡ max_val =
      omega (arith, length-append-drop xs ys) in
    rw (← n) (
      drain-view (ys ++ drop (length ys) xs) [] (length ys % max_val) v''
        (e''
          ∙ rw append-nil (
              ap {B = View} (λ w. record { cells = ys ++ drop (length ys) xs; cursor = w })
                (omega arith)))
        out)

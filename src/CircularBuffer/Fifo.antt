-- ===== src/CircularBuffer/Fifo.antt =====
-- The buffer as a queue, as long as it is never asked to hold more than eight characters.
use mathlib.Core.List.{append_assoc}
use so2_soa_fib.Common.{
  ℕ, suc, ◌-◌, ◌%◌, ◌≤◌, ◌<◌, ◌≡◌, ◌≢◌, refl, ap, ap₂, ◌∙◌, List, [], ◌∷◌, ◌++◌, arith, length,
  length-append, set-append, replicate-snoc, Out, none, some, ℤ, pos, neg, replicate, Out-append,
  subst, false, ◌==◌,
}
use so2_soa_fib.CircularBuffer.{
  CircularBuffer, max_val, enoinp, circular_init, ReadResult, circular_read, circular_write,
}
use so2_soa_fib.CircularBuffer.View.{
  View, IsValid, put, take_first, view, Reply, got, nothing, circular_init-view,
  circular_write-IsValid, circular_read-IsValid, view-circular_write, view-circular_read,
}

-- The calls of the keyboard's interrupt and of `sys_get_key`, and what each `circular_read` gives:
-- the character stored, and the value returned.
pub data Call : Type 0 where
  write_char : ℕ → Call
  read_char : Call

unfoldable pub run : CircularBuffer → List Call → List (ℕ × ℤ)
run b [] = []
run b (write_char x ∷ calls) = run (circular_write b x) calls
run b (read_char ∷ calls) = let r = circular_read b in (r.rd, r.ret) ∷ run r.after calls

-- The same calls on a queue.
unfoldable pub run_queue : List ℕ → List Call → List (ℕ × ℤ)
run_queue q [] = []
run_queue q (write_char x ∷ calls) = run_queue (q ++ x ∷ []) calls
run_queue [] (read_char ∷ calls) = (0, neg enoinp) ∷ run_queue [] calls
run_queue (x ∷ q) (read_char ∷ calls) = (x, pos 1) ∷ run_queue q calls

-- No NUL is written, and no more than eight characters wait at any time.
abbrev pub Fits : ℕ → List Call → Type 0
Fits n [] = Unit
Fits n (write_char x ∷ calls) = (0 ≢ x) × (n < max_val) × Fits (suc n) calls
Fits n (read_char ∷ calls) = Fits (n - 1) calls

abbrev fifo : List ℕ → View
fifo q = record { cells = q ++ replicate (max_val - length q) 0; cursor = length q % max_val }

put-fifo : (x : ℕ) (q : List ℕ) → length q < max_val → put x (fifo q) ≡ fifo (q ++ x ∷ [])
unfolding put
put-fifo x q h =
    let free : max_val - length q ≡ suc (7 - length q) = omega arith in
    let cur : length q % max_val ≡ length q = omega arith in
    let len : length (q ++ x ∷ []) ≡ suc (length q) = omega (arith, length-append q (x ∷ [])) in
    rw (free, cur, len, set-append q 0 (replicate (7 - length q) 0) x, append_assoc q (x ∷ []))
      (ap₂ {C = View} (λ n w. record { cells = q ++ x ∷ replicate n 0; cursor = w }) (omega arith)
        (omega arith))

take_first-fifo :
    (x : ℕ) (q : List ℕ) → 0 ≢ x → length q < max_val → take_first (fifo (x ∷ q)) ≡ (some x, fifo q)
unfolding take_first
take_first-fifo x q n h =
    let taken : (x == 0) ≡ false = ground arith in
    let free : max_val - suc (length q) ≡ 7 - length q = omega arith in
    let more : max_val - length q ≡ suc (7 - length q) = omega arith in
    rw (taken, free, more, append_assoc q, replicate-snoc)
      (ap
        (λ (w : ℕ). (some x, record { cells = q ++ replicate (suc (7 - length q)) 0; cursor = w }))
        (omega arith))

Reply-some-parts : (r : ReadResult) (x : ℕ) → Reply r (some x) → (r.rd ≡ x) × (r.ret ≡ pos 1)
Reply-some-parts r x (got y e f) = (e, f)

Reply-none-parts : (r : ReadResult) → Reply r none → (r.rd ≡ 0) × (r.ret ≡ neg enoinp)
Reply-none-parts r (nothing e f) = (e, f)

-- A read of a buffer that holds `x ∷ q`, and of an empty one.
read-cons :
    {b : CircularBuffer} (x : ℕ) (q : List ℕ)
    → IsValid b
    → 0 ≢ x
    → length q < max_val
    → view b ≡ fifo (x ∷ q)
    → ((circular_read b).rd ≡ x)
      × ((circular_read b).ret ≡ pos 1)
      × (view (circular_read b).after ≡ fifo q)
read-cons {b} x q v n h e =
    let t : take_first (view b) ≡ (some x, fifo q) = ap take_first e ∙ take_first-fifo x q n h in
    let (reply, after) = view-circular_read v in
    let pair =
      Reply-some-parts (circular_read b) x
        (subst (Reply (circular_read b)) (ap (λ p. p.0) t) reply) in
    (pair.0, pair.1, after ∙ ap (λ p. p.1) t)

read-nil :
    {b : CircularBuffer}
    → IsValid b
    → view b ≡ fifo []
    → ((circular_read b).rd ≡ 0)
      × ((circular_read b).ret ≡ neg enoinp)
      × (view (circular_read b).after ≡ fifo [])
unfolding take_first
read-nil {b} v e =
    let t : take_first (view b) ≡ (none, fifo []) = ap take_first e in
    let (reply, after) = view-circular_read v in
    let pair =
      Reply-none-parts (circular_read b)
        (subst (Reply (circular_read b)) (ap (λ p. p.0) t) reply) in
    (pair.0, pair.1, after ∙ ap (λ p. p.1) t)

run-eq-run_queue :
    (calls : List Call) {b : CircularBuffer} (q : List ℕ)
    → IsValid b
    → view b ≡ fifo q
    → Out 0 q
    → length q ≤ max_val
    → Fits (length q) calls
    → run b calls ≡ run_queue q calls
unfolding run run_queue
run-eq-run_queue [] q v e n h f = refl
run-eq-run_queue (write_char x ∷ calls) {b} q v e n h f =
    let len : length (q ++ x ∷ []) ≡ suc (length q) = omega (arith, length-append q (x ∷ [])) in
    run-eq-run_queue calls (q ++ x ∷ []) (circular_write-IsValid x v)
      (view-circular_write x v ∙ (ap (put x) e ∙ put-fifo x q f.1))
      (Out-append 0 q (x ∷ []) n (f.0, tt)) (rw len f.1) (rw len f.2)
run-eq-run_queue (read_char ∷ calls) [] v e n h f =
    let (rd, ret, after) = read-nil v e in
    ap₂ ◌∷◌ (ap₂ (λ (m : ℕ) (z : ℤ). (m, z)) rd ret)
      (run-eq-run_queue calls [] (circular_read-IsValid v) after tt h f)
run-eq-run_queue (read_char ∷ calls) (x ∷ q) v e n h f =
    let (rd, ret, after) = read-cons x q v n.0 h e in
    ap₂ ◌∷◌ (ap₂ (λ (m : ℕ) (z : ℤ). (m, z)) rd ret)
      (run-eq-run_queue calls q (circular_read-IsValid v) after n.1 (omega arith) (rw sub_suc at f))
  where
    sub_suc : suc (length q) - 1 ≡ length q
    sub_suc = omega arith

-- From `circular_init` on, any calls of `circular_write` and `circular_read` that write no NUL and
-- keep at most eight characters waiting are answered as a first-in first-out queue answers them:
-- the oldest character and 1, or NUL and -ENOINP when none waits.
pub run-fifo :
    (b : CircularBuffer) (calls : List Call)
    → length b.buffer ≡ max_val
    → Fits 0 calls
    → run (circular_init b) calls ≡ run_queue [] calls
run-fifo b calls h f =
    let (v, e) = circular_init-view b h in run-eq-run_queue calls [] v e tt (omega arith) f

-- ===== src/CircularBuffer/View.antt =====
-- The buffer read from its `read` index round: eight cells and the place of the next write.
use so2_soa_fib.Common.{
  ℕ, zero, suc, ◌+◌, ◌-◌, ◌%◌, ◌≤◌, ◌<◌, ◌≡◌, refl, ap, ap₂, ◌∙◌, List, [], ◌∷◌, ◌++◌, arith,
  length, get_or, set, length-set, get_or-set_self, get_or-set_ne, Option, none, some, ◌==◌,
  if◌then◌else◌, Bool-cases, pos, neg, replicate, inl, inr,
}
use so2_soa_fib.CircularBuffer.{
  CircularBuffer, max_val, enoinp, init_loop, circular_init, ReadResult, circular_read,
  circular_write,
}

-- The indices stay inside the array.
pub record IsValid (b : CircularBuffer) : Type 0 where
  pub size : length b.buffer ≡ max_val
  pub read_in : b.read < max_val
  pub write_in : b.write < max_val

pub record View : Type 0 where
  pub cells : List ℕ
  pub cursor : ℕ

-- A write goes to the cell under the cursor, full or not.
unfoldable pub put : ℕ → View → View
put x v = record { cells = set v.cells v.cursor x; cursor = (v.cursor + 1) % max_val }

-- A read takes the first cell if it is not 0, and a free cell is added at the end.
unfoldable pub take_cells : List ℕ → ℕ → Option ℕ × View
take_cells [] w = (none, record { cells = []; cursor = w })
take_cells (x ∷ xs) w =
    if x == 0
    then (none, record { cells = x ∷ xs; cursor = w })
    else (some x, record { cells = xs ++ 0 ∷ []; cursor = (w + 7) % max_val })

unfoldable pub take_first : View → Option ℕ × View
unfolding take_cells
take_first v = take_cells v.cells v.cursor

-- The `n` cells from index `h` on, going round.
abbrev window : List ℕ → ℕ → ℕ → List ℕ
window buf h zero = []
window buf h (suc n) = get_or buf h 0 ∷ window buf ((h + 1) % max_val) n

unfoldable pub view : CircularBuffer → View
view b = record {
  cells = window b.buffer b.read max_val;
  cursor = (b.write + max_val - b.read) % max_val;
}

module _ (buf : List ℕ) (x : ℕ) where
  window-set_out :
      (n h i k : ℕ)
      → h < max_val
      → n ≤ k
      → k < max_val
      → i ≡ (h + k) % max_val
      → window (set buf i x) h n ≡ window buf h n
  window-set_out zero h i k hh hn hk e = refl
  window-set_out (suc n) h i k hh hn hk e = ap₂ ◌∷◌ (get_or-set_ne buf x 0 (omega arith)) (
      window-set_out n ((h + 1) % max_val) i (k - 1) (omega arith) (omega arith) (omega arith)
        (omega arith))

  window-set :
      (n h i w : ℕ)
      → length buf ≡ max_val
      → h < max_val
      → n ≤ max_val
      → w < n
      → i ≡ (h + w) % max_val
      → window (set buf i x) h n ≡ set (window buf h n) w x
  window-set zero h i w hl hh hn hw e = absurd (omega arith)
  window-set (suc n) h i zero hl hh hn hw e =
      let same : i ≡ h = omega arith in
      ap₂ ◌∷◌ (rw same (get_or-set_self buf h x 0 (omega arith))) (
        window-set_out n ((h + 1) % max_val) i 7 (omega arith) (omega arith) (omega arith)
          (omega arith))
  window-set (suc n) h i (suc w) hl hh hn hw e = ap₂ ◌∷◌ (get_or-set_ne buf x 0 (omega arith)) (
      window-set n ((h + 1) % max_val) i w hl (omega arith) (omega arith) (omega arith)
        (omega arith))

window-snoc :
    (buf : List ℕ) (n h : ℕ)
    → h < max_val
    → window buf h (suc n) ≡ window buf h n ++ get_or buf ((h + n) % max_val) 0 ∷ []
window-snoc buf zero h hh = ap (λ i. get_or buf i 0 ∷ []) (omega arith)
window-snoc buf (suc n) h hh =
    ap (λ t. get_or buf h 0 ∷ t)
      (window-snoc buf n ((h + 1) % max_val) (omega arith)
        ∙ ap (λ i. window buf ((h + 1) % max_val) n ++ get_or buf i 0 ∷ []) (omega arith))

-- After a read the window starts one cell on, and ends in the cell that was cleared.
window-advance :
    (buf : List ℕ) (h : ℕ)
    → length buf ≡ max_val
    → h < max_val
    → window (set buf h 0) ((h + 1) % max_val) 8 ≡ window buf ((h + 1) % max_val) 7 ++ 0 ∷ []
window-advance buf h hl hh =
    window-snoc (set buf h 0) 7 ((h + 1) % max_val) (omega arith)
    ∙ ap₂ (λ xs y. xs ++ y ∷ [])
        (window-set_out buf 0 7 ((h + 1) % max_val) h 7 (omega arith) (omega arith) (omega arith)
          (omega arith))
        (ap (λ i. get_or (set buf h 0) i 0) (omega arith) ∙ get_or-set_self buf h 0 0 (omega arith))

init_loop-clears : (xs : List ℕ) → length xs ≡ max_val → init_loop max_val 0 xs ≡ replicate 8 0
unfolding init_loop
init_loop-clears (a ∷ b ∷ c ∷ d ∷ e ∷ f ∷ g ∷ h ∷ []) p = refl
init_loop-clears _ p = absurd (omega arith)

-- What a caller of `circular_read` sees: the character, or none on -ENOINP with 0 stored.
pub data Reply (r : ReadResult) : Option ℕ → Type 0 where
  got : (x : ℕ) → r.rd ≡ x → r.ret ≡ pos 1 → Reply r (some x)
  nothing : r.rd ≡ 0 → r.ret ≡ neg enoinp → Reply r none

-- `circular_init` leaves eight free cells, with both indices at the start.
pub circular_init-view :
    (b : CircularBuffer)
    → length b.buffer ≡ max_val
    → IsValid (circular_init b)
      × (view (circular_init b) ≡ record { cells = replicate 8 0; cursor = 0 })
unfolding circular_init view
circular_init-view b h =
    let e = init_loop-clears b.buffer h in
    (record { size = rw e refl; read_in = omega arith; write_in = omega arith }, rw e refl)

pub circular_write-IsValid : {b : CircularBuffer} (x : ℕ) → IsValid b → IsValid (circular_write b x)
unfolding circular_write
circular_write-IsValid {b} x v = omega (arith, length-set b.buffer b.write x)

pub circular_read-IsValid : {b : CircularBuffer} → IsValid b → IsValid (circular_read b).after
unfolding circular_read
circular_read-IsValid {b} v = ground (arith, length-set b.buffer b.read 0)

-- `circular_write` writes the cell under the cursor of the view.
pub view-circular_write :
    {b : CircularBuffer} (x : ℕ) → IsValid b → view (circular_write b x) ≡ put x (view b)
unfolding circular_write view put
view-circular_write {b} x v =
    ap₂ {C = View} (λ xs w. record { cells = xs; cursor = w })
      (window-set b.buffer x 8 b.read b.write ((b.write + max_val - b.read) % max_val) v.size
        v.read_in (omega arith) (omega (arith, v.read_in, v.write_in))
        (omega (arith, v.read_in, v.write_in)))
      (omega (arith, v.read_in, v.write_in))

-- `circular_read` takes the first cell of the view, and reports what it finds there.
pub view-circular_read :
    {b : CircularBuffer}
    → IsValid b
    → Reply (circular_read b) (take_first (view b)).0
      × (view (circular_read b).after ≡ (take_first (view b)).1)
unfolding circular_read view take_first
view-circular_read {b} v = elim (Bool-cases (get_or b.buffer b.read 0 == 0)) [
  | inl free ↦ rw free (nothing refl refl, refl)
  | inr taken ↦ rw taken (
    got _ refl refl,
    ap₂ {C = View} (λ xs w. record { cells = xs; cursor = w })
        (window-advance b.buffer b.read v.size v.read_in) (omega (arith, v.read_in, v.write_in)),
  )
]

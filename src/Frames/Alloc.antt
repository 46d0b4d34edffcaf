-- ===== src/Frames/Alloc.antt =====
-- `init_frames`, `alloc_frame` and `free_frame`.
use mathlib.Core.Path.{fun_ext}
use so2_soa_fib.Common.{
  ℕ, zero, suc, ◌+◌, ◌*◌, ◌%◌, ◌≤◌, ◌<◌, ◌≡◌, ◌≢◌, refl, sym, ap, ◌∙◌, Option, none, some, arith,
  ltb, ◌==◌, if◌then◌else◌, update, Bool-cases, inl, inr, subst,
}
use so2_soa_fib.Frames.{
  total_pages, num_pag_kernel, free, used, PhysMem, fill, init_frames, alloc_loop, alloc_frame,
  free_frame,
}

-- The frames that `alloc_frame` gives out.
pub record IsFrame (f : ℕ) : Type 0 where
  pub above_kernel : num_pag_kernel ≤ f
  pub below_total : f < total_pages
  pub even : f % 2 ≡ 0

-- What a search from frame `i` on does: it takes the first frame that is free, and changes no
-- other; or no frame is free.
pub data Allocated (i : ℕ) (mem : PhysMem) (r : Option ℕ × PhysMem) : Type 0 where
  found :
      (f : ℕ)
      → IsFrame f
      → i ≤ f
      → mem f ≡ free
      → ((e : ℕ) → IsFrame e → i ≤ e → e < f → mem e ≢ free)
      → r ≡ (some f, update mem f used)
      → Allocated i mem r
  full : ((e : ℕ) → IsFrame e → i ≤ e → mem e ≢ free) → r ≡ (none, mem) → Allocated i mem r

step_past :
    (i : ℕ) (mem : PhysMem) (r : Option ℕ × PhysMem)
    → i % 2 ≡ 0
    → mem i ≢ free
    → Allocated (i + 2) mem r
    → Allocated i mem r
step_past i mem r even taken (found f is le fr first e) =
    found f is (omega arith) fr
      (λ c isc lc lt. elim (Bool-cases (c == i)) [
        | inl same ↦ let s : c ≡ i = ground arith in rw s taken
        | inr differs ↦ first c isc (ground (arith, isc.even)) lt
      ])
      e
step_past i mem r even taken (full all e) =
    full
      (λ c isc lc. elim (Bool-cases (c == i)) [
        | inl same ↦ let s : c ≡ i = ground arith in rw s taken
        | inr differs ↦ all c isc (ground (arith, isc.even))
      ])
      e

alloc_loop-Allocated :
    (fuel i : ℕ) (mem : PhysMem)
    → num_pag_kernel ≤ i
    → i % 2 ≡ 0
    → total_pages < i + 2 * fuel
    → Allocated i mem (alloc_loop fuel i mem)
unfolding alloc_loop
alloc_loop-Allocated zero i mem lo even enough =
    full (λ e is le. absurd (omega (arith, is.below_total))) refl
alloc_loop-Allocated (suc fuel) i mem lo even enough = elim (Bool-cases (ltb i total_pages)) [
  | inr past ↦ rw past (full (λ e is le. absurd (ground (arith, is.below_total))) refl)
  | inl inside ↦ rw inside (elim (Bool-cases (mem i == free)) [
    | inl fr ↦ rw fr (
        found i (record { above_kernel = lo; below_total = ground arith; even = even })
          (omega arith) (ground arith) (λ e is le lt. absurd (omega arith)) refl)
    | inr taken ↦ rw taken (
        step_past i mem _ even (ground arith)
          (alloc_loop-Allocated fuel (i + 2) mem (omega arith) (omega arith) (omega arith)))
  ])
]

-- `alloc_frame` takes the lowest free frame among the even ones above the kernel's, marks it used
-- and changes no other; it answers none, and changes nothing, only if no such frame is free.
pub alloc_frame-Allocated : (mem : PhysMem) → Allocated num_pag_kernel mem (alloc_frame mem)
unfolding alloc_frame
alloc_frame-Allocated mem =
    alloc_loop-Allocated total_pages num_pag_kernel mem (omega arith) refl (omega arith)

fill_lem :
    (k i v : ℕ) (mem : PhysMem) (q : ℕ)
    → fill k i v mem q ≡ (if ltb q i then mem q else if ltb q (i + k) then v else mem q)
unfolding fill update
fill_lem zero i v mem q = ground arith
fill_lem (suc k) i v mem q = ground (arith, fill_lem k (suc i) v (update mem i v) q)

-- `init_frames` marks the kernel's frames used and all the others free.
pub init_frames_lem :
    (mem : PhysMem) (f : ℕ)
    → f < total_pages
    → init_frames mem f ≡ (if ltb f num_pag_kernel then used else free)
unfolding init_frames
init_frames_lem mem f h = ground (
  arith,
  fill_lem num_pag_kernel 0 used (fill total_pages 0 free mem) f,
  fill_lem total_pages 0 free mem f,
)

-- `free_frame` gives back a frame above the kernel's, save the first one, number 256.
pub free_frame-update :
    (f : ℕ) (mem : PhysMem)
    → IsFrame f
    → free_frame f mem ≡ (if f == num_pag_kernel then mem else update mem f free)
unfolding free_frame
free_frame-update f mem is = ground (arith, is.above_kernel, is.below_total)

-- What a successful `alloc_frame` has done.
pub record Taken (mem : PhysMem) (f : ℕ) (mem' : PhysMem) : Type 0 where
  pub is_frame : IsFrame f
  pub was_free : mem f ≡ free
  pub after : mem' ≡ update mem f used

Allocated-Taken :
    {mem : PhysMem} {r : Option ℕ × PhysMem} (f : ℕ) (mem' : PhysMem)
    → Allocated num_pag_kernel mem r
    → r ≡ (some f, mem')
    → Taken mem f mem'
Allocated-Taken {mem} f mem' (found g is le fr first e) h =
    let same : g ≡ f = cc (ap (λ p. p.0) (sym e ∙ h)) in
    record {
      is_frame = subst IsFrame same is;
      was_free = ap mem (sym same) ∙ fr;
      after = ap (λ p. p.1) (sym h ∙ e) ∙ ap (λ x. update mem x used) same;
    }
Allocated-Taken f mem' (full all e) h = absurd (ground (arith, ap (λ p. p.0) (sym e ∙ h)))

pub alloc_frame-Taken :
    (mem : PhysMem) (f : ℕ) (mem' : PhysMem) → alloc_frame mem ≡ (some f, mem') → Taken mem f mem'
alloc_frame-Taken mem f mem' e = Allocated-Taken f mem' (alloc_frame-Allocated mem) e

Allocated-none :
    {mem : PhysMem} {r : Option ℕ × PhysMem} (mem' : PhysMem)
    → Allocated num_pag_kernel mem r
    → r ≡ (none, mem')
    → (mem' ≡ mem) × ((e : ℕ) → IsFrame e → mem e ≢ free)
Allocated-none mem' (found g is le fr first e) h =
    absurd (ground (arith, ap (λ p. p.0) (sym e ∙ h)))
Allocated-none mem' (full all e) h = (ap (λ p. p.1) (sym h ∙ e), λ c is. all c is is.above_kernel)

pub alloc_frame-none :
    (mem mem' : PhysMem)
    → alloc_frame mem ≡ (none, mem')
    → (mem' ≡ mem) × ((e : ℕ) → IsFrame e → mem e ≢ free)
alloc_frame-none mem mem' e = Allocated-none mem' (alloc_frame-Allocated mem) e

-- Giving back the frame that `alloc_frame` took restores the map, for every frame but number 256,
-- which stays used.
pub free_frame-alloc_frame :
    (mem mem' : PhysMem) (f : ℕ)
    → alloc_frame mem ≡ (some f, mem')
    → free_frame f mem' ≡ (if f == num_pag_kernel then update mem f used else mem)
unfolding update
free_frame-alloc_frame mem mem' f e =
    let t = alloc_frame-Taken mem f mem' e in
    free_frame-update f mem' t.is_frame
    ∙ (rw t.after (elim (Bool-cases (f == num_pag_kernel)) [
      | inl first ↦ rw first
      | inr other ↦ rw other (fun_ext λ q. restored q t.was_free)
    ]))
  where
    restored : (q : ℕ) → mem f ≡ free → update (update mem f used) f free q ≡ mem q
    restored q h = ground arith

-- ===== src/Frames/Reserve.antt =====
-- The reservation of several frames: all of them or none.
use mathlib.Core.Path.{fun_ext}
use so2_soa_fib.Common.{
  ℕ, zero, suc, ◌+◌, ◌<◌, ◌≡◌, ◌≢◌, refl, sym, ap, ◌∙◌, Bool, true, false, Option, none, some,
  arith, ◌==◌, if◌then◌else◌, update, update_ne, Bool-cases, inl, inr, List, [], ◌∷◌, ◌++◌, ◌||◌,
  length, length-append, Out, subst, Out-append,
}
use so2_soa_fib.Frames.{
  num_pag_kernel, free, used, PhysMem, alloc_frame, free_frames, reserve_loop, reserve_next,
  reserve,
}
use so2_soa_fib.Frames.Alloc.{IsFrame, alloc_frame-Taken, alloc_frame-none, free_frame-update}

abbrev pub has : ℕ → List ℕ → Bool
has a [] = false
has a (x ∷ xs) = (a == x) || has a xs

-- The map with the frames of the list used.
unfoldable pub mark : List ℕ → PhysMem → PhysMem
mark xs mem q = if has q xs then used else mem q

-- Frames that may be reserved: of those that are given out, free, and each once.
abbrev pub AllFree : List ℕ → PhysMem → Type 0
AllFree [] mem = Unit
AllFree (f ∷ fs) mem = IsFrame f × (mem f ≡ free) × Out f fs × AllFree fs mem

has-append : (q : ℕ) (xs ys : List ℕ) → has q (xs ++ ys) ≡ (has q xs || has q ys)
has-append q [] ys = refl
has-append q (x ∷ xs) ys = ground (arith, has-append q xs ys)

mark-snoc :
    (xs : List ℕ) (f : ℕ) (mem : PhysMem) → update (mark xs mem) f used ≡ mark (xs ++ f ∷ []) mem
unfolding mark update
mark-snoc xs f mem = fun_ext λ q. ground (arith, has-append q xs (f ∷ []))

-- A frame that is free once `xs` are used is not in `xs`.
Out-of_free : (xs : List ℕ) (f : ℕ) (mem : PhysMem) → mark xs mem f ≡ free → Out f xs
unfolding mark
Out-of_free [] f mem h = tt
Out-of_free (x ∷ xs) f mem h = (λ e. ground arith, Out-of_free xs f mem (ground arith))

free_of_mark : (xs : List ℕ) (f : ℕ) (mem : PhysMem) → mark xs mem f ≡ free → mem f ≡ free
unfolding mark
free_of_mark xs f mem h = ground arith

AllFree-snoc :
    (xs : List ℕ) (f : ℕ) (mem : PhysMem)
    → AllFree xs mem
    → IsFrame f
    → mem f ≡ free
    → Out f xs
    → AllFree (xs ++ f ∷ []) mem
AllFree-snoc [] f mem a is fr out = (is, fr, tt, tt)
AllFree-snoc (x ∷ xs) f mem a is fr out = (
  a.0,
  a.1,
  Out-append x xs (f ∷ []) a.2 (λ e. out.0 (sym e), tt),
  AllFree-snoc xs f mem a.3 is fr out.1,
)

has_of_Out : (a : ℕ) (xs : List ℕ) → Out a xs → has a xs ≡ false
has_of_Out a [] out = refl
has_of_Out a (x ∷ xs) out = ground (arith, out.0, has_of_Out a xs out.1)

AllFree-update :
    (xs : List ℕ) (a v : ℕ) (mem : PhysMem)
    → Out a xs
    → AllFree xs mem
    → AllFree xs (update mem a v)
AllFree-update [] a v mem out h = tt
AllFree-update (x ∷ xs) a v mem out h =
    (h.0, update_ne mem a v (λ e. out.0 (sym e)) ∙ h.1, h.2, AllFree-update xs a v mem out.1 h.3)

mark-cons : (x : ℕ) (xs : List ℕ) (mem : PhysMem) → mark (x ∷ xs) mem ≡ mark xs (update mem x used)
unfolding mark update
mark-cons x xs mem = fun_ext λ q. ground arith

update-free-mark :
    (x : ℕ) (xs : List ℕ) (mem : PhysMem)
    → mem x ≡ free
    → Out x xs
    → update (mark (x ∷ xs) mem) x free ≡ mark xs mem
unfolding mark update
update-free-mark x xs mem fr out =
    let absent = has_of_Out x xs out in
    fun_ext λ q. elim (Bool-cases (q == x)) [
      | inl same ↦ let s : q ≡ x = ground arith in ground arith
      | inr differs ↦ ground arith
    ]

-- `free_frames` gives back what was reserved, but for frame 256.
pub free_frames-mark :
    (xs : List ℕ) (mem : PhysMem)
    → AllFree xs mem
    → free_frames xs (mark xs mem)
      ≡ (if has num_pag_kernel xs then update mem num_pag_kernel used else mem)
unfolding free_frames
free_frames-mark [] mem a = unfold mark in refl
free_frames-mark (x ∷ xs) mem a = elim (Bool-cases (x == num_pag_kernel)) [
  | inl first ↦
      let s : x ≡ num_pag_kernel = ground arith in
      let absent : has num_pag_kernel xs ≡ false =
        subst (λ y. has y xs ≡ false) s (has_of_Out x xs a.2) in
      ap (free_frames xs)
        (free_frame-update x (mark (x ∷ xs) mem) a.0 ∙ (rw first (mark-cons x xs mem)))
      ∙ (free_frames-mark xs (update mem x used) (AllFree-update xs x used mem a.2 a.3)
          ∙ rw (absent, s))
  | inr other ↦
      let s : (num_pag_kernel == x) ≡ false = ground arith in
      ap (free_frames xs) (
        free_frame-update x (mark (x ∷ xs) mem) a.0
        ∙ (rw other (update-free-mark x xs mem a.1 a.2)))
      ∙ (free_frames-mark xs mem a.3 ∙ rw s)
]

-- What reserving `n` frames does: they are taken, each of them free before, and no other is
-- touched; or the free frames are the fewer than `n` frames of a list, and all are free again but
-- number 256.
pub data Reserved (n : ℕ) (mem : PhysMem) (r : Option (List ℕ) × PhysMem) : Type 0 where
  all :
      (fs : List ℕ) → length fs ≡ n → AllFree fs mem → r ≡ (some fs, mark fs mem) → Reserved n mem r
  too_few :
      (fs : List ℕ)
      → length fs < n
      → AllFree fs mem
      → ((e : ℕ) → IsFrame e → mem e ≡ free → has e fs ≡ true)
      → r ≡ (none, if has num_pag_kernel fs then update mem num_pag_kernel used else mem)
      → Reserved n mem r

has_of_used :
    (fs : List ℕ) (mem : PhysMem) (e : ℕ) → mark fs mem e ≢ free → mem e ≡ free → has e fs ≡ true
unfolding mark
has_of_used fs mem e n h = ground arith

module _ (n : ℕ) (frames : List ℕ) (mem : PhysMem) (a : AllFree frames mem) where
  reserve_none :
      (mem' : PhysMem)
      → alloc_frame (mark frames mem) ≡ (none, mem')
      → Reserved (length frames + suc n) mem (reserve_loop (suc n) frames (mark frames mem))
  unfolding reserve_loop
  reserve_none mem' e =
      let (same, every) = alloc_frame-none (mark frames mem) mem' e in
      too_few frames (omega arith) a (λ c is fr. has_of_used frames mem c (every c is) fr)
        (ap (reserve_next (reserve_loop n) frames) e
          ∙ ap (λ m. (none, m)) (ap (free_frames frames) same ∙ free_frames-mark frames mem a))

  reserve_some :
      (f : ℕ) (mem' : PhysMem)
      → alloc_frame (mark frames mem) ≡ (some f, mem')
      → Reserved
          (length (frames ++ f ∷ []) + n)
          mem
          (reserve_loop n (frames ++ f ∷ []) (mark (frames ++ f ∷ []) mem))
      → Reserved (length frames + suc n) mem (reserve_loop (suc n) frames (mark frames mem))
  unfolding reserve_loop
  reserve_some f mem' e rest =
      let t = alloc_frame-Taken (mark frames mem) f mem' e in
      let count : length (frames ++ f ∷ []) + n ≡ length frames + suc n =
        omega (arith, length-append frames (f ∷ [])) in
      subst (Reserved (length frames + suc n) mem)
        (sym (
          ap (reserve_next (reserve_loop n) frames) e
          ∙ ap (reserve_loop n (frames ++ f ∷ [])) (t.after ∙ mark-snoc frames f mem)))
        (subst
          (λ k. Reserved k mem (reserve_loop n (frames ++ f ∷ []) (mark (frames ++ f ∷ []) mem)))
          count rest)

  more_AllFree :
      (f : ℕ) (mem' : PhysMem)
      → alloc_frame (mark frames mem) ≡ (some f, mem')
      → AllFree (frames ++ f ∷ []) mem
  more_AllFree f mem' e =
      let t = alloc_frame-Taken (mark frames mem) f mem' e in
      AllFree-snoc frames f mem a t.is_frame (free_of_mark frames f mem t.was_free)
        (Out-of_free frames f mem t.was_free)

reserve_loop-Reserved :
    (n : ℕ) (frames : List ℕ) (mem : PhysMem)
    → AllFree frames mem
    → Reserved (length frames + n) mem (reserve_loop n frames (mark frames mem))
reserve_loop-Reserved zero frames mem a = unfold reserve_loop in all frames (omega arith) a refl
reserve_loop-Reserved (suc n) frames mem a =
    go (reserve_loop-Reserved n) (alloc_frame (mark frames mem)) refl
  where
    go :
        ((gs : List ℕ) (m : PhysMem)
          → AllFree gs m
          → Reserved (length gs + n) m (reserve_loop n gs (mark gs m)))
        → (r : Option ℕ × PhysMem) → alloc_frame (mark frames mem) ≡ r
        → Reserved (length frames + suc n) mem (reserve_loop (suc n) frames (mark frames mem))
    go ih (none, mem') e = reserve_none n frames mem a mem' e
    go ih (some f, mem') e =
        reserve_some n frames mem a f mem' e
          (ih (frames ++ f ∷ []) mem (more_AllFree n frames mem a f mem' e))

mark-nil : (mem : PhysMem) → mark [] mem ≡ mem
unfolding mark
mark-nil mem = refl

-- The reservation loop of `sys_fork` and `sys_sbrk` takes `n` distinct frames that were free and
-- touches no other; or fewer than `n` of the frames that `alloc_frame` gives out, the even ones from
-- 256 on, were free, it answers an error, and every frame has its old state again, save that frame
-- 256, if it was free and taken, stays used.
pub reserve-Reserved : (n : ℕ) (mem : PhysMem) → Reserved n mem (reserve n mem)
unfolding reserve
reserve-Reserved n mem = subst (Reserved n mem) (ap (reserve_loop n []) (mark-nil mem)) (
    subst (λ k. Reserved k mem (reserve_loop n [] (mark [] mem))) (omega arith)
      (reserve_loop-Reserved n [] mem tt))

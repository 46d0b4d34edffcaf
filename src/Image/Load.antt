-- ===== src/Image/Load.antt =====
-- From the files to the user program in memory.
use so2_soa_fib.Common.{
  ℕ, ◌+◌, ◌≤◌, ◌<◌, ◌≡◌, ◌⊎◌, inr, subst, ◌-◌, refl, sym, ap, ◌∙◌, arith, Option, some, List,
  length,
}
use so2_soa_fib.Utils.{Memory, copy_data}
use so2_soa_fib.Utils.Copy.{copies-Copied}
use so2_soa_fib.Image.{File, at, word_at, minix_open, build, kernel_start, usr_main, move_user}
use so2_soa_fib.Image.Layout.{IsImage, build-IsImage}

-- The boot sector has brought the rest of the image to KERNEL_START.
abbrev pub IsLoaded : List ℕ → ℕ → Memory → Type 0
IsLoaded out n mem = (i : ℕ) → i < n → mem (kernel_start + i) ≡ at out (512 + i)

-- A byte of memory and its place in the image.
loaded-byte :
    (out : List ℕ) (n : ℕ) (mem : Memory) (a p : ℕ)
    → IsLoaded out n mem
    → 512 ≤ p
    → p < 512 + n
    → a + 512 ≡ kernel_start + p
    → mem a ≡ at out p
loaded-byte out n mem a p load low high e =
    let source : kernel_start + (p - 512) ≡ a = omega (arith, e) in
    let place : 512 + (p - 512) ≡ p = omega arith in
    ap mem (sym source) ∙ load (p - 512) (omega arith) ∙ ap (at out) place

loaded-word :
    (out : List ℕ) (n : ℕ) (mem : Memory) (a p : ℕ)
    → IsLoaded out n mem
    → 512 ≤ p
    → p + 4 ≤ 512 + n
    → a + 512 ≡ kernel_start + p
    → word_at mem a ≡ word_at (at out) p
loaded-word out n mem a p load low high e =
    let byte = loaded-byte out n mem in
    rw
      (
        byte a p load low (omega arith) e,
        byte (a + 1) (p + 1) load (omega arith) (omega arith) (omega (arith, e)),
        byte (a + 2) (p + 2) load (omega arith) (omega arith) (omega (arith, e)),
        byte (a + 3) (p + 3) load (omega arith) (omega arith) (omega (arith, e)),
      )
      refl

-- The lengths that `main` reads are those of the system and the user program.
move_user-copy :
    (boot sys usr out : List ℕ) (mem : Memory)
    → IsImage boot sys usr out
    → 12 ≤ length sys
    → IsLoaded out (length sys + length usr) mem
    → move_user mem ≡ copy_data (kernel_start + length sys) usr_main (length usr) mem
unfolding move_user
move_user-copy boot sys usr out mem is room load =
    let n = length sys + length usr in
    let s : word_at mem kernel_start ≡ length sys =
      loaded-word out n mem kernel_start 512 load (omega arith) (omega arith) refl ∙ is.sys_size in
    let u : word_at mem (kernel_start + 4) ≡ length usr =
      loaded-word out n mem (kernel_start + 4) 516 load (omega arith) (omega arith) refl
      ∙ is.usr_size in
    rw (s, u) refl

-- What the copy leaves of a loaded image.
IsImage-move_user :
    (boot sys usr out : List ℕ) (mem : Memory)
    → IsImage boot sys usr out
    → 12 ≤ length sys
    → kernel_start + length sys + length usr ≤ usr_main
    → IsLoaded out (length sys + length usr) mem
    → ((j : ℕ) → j < length usr → move_user mem (usr_main + j) ≡ at usr j)
      × ((a : ℕ) → (a < usr_main) ⊎ (usr_main + length usr ≤ a) → move_user mem a ≡ mem a)
IsImage-move_user boot sys usr out mem is room below load =
    let same = move_user-copy boot sys usr out mem is room load in
    let copied =
      (copies-Copied (kernel_start + length sys) usr_main (length usr) mem (inr (omega arith))).0 in
    (
      λ j lt.
          ap (λ m. m (usr_main + j)) same
          ∙ copied.block j lt
          ∙ loaded-byte out (length sys + length usr) mem (kernel_start + length sys + j)
              (512 + length sys + j) load (omega arith) (omega arith) (omega arith)
          ∙ is.user j lt,
      λ a away. ap (λ m. m a) same ∙ copied.rest a away,
    )

-- If build makes an image from a boot file with a good header and a boot sector of 512 bytes with the
-- flag, a system of twelve bytes or more and a user program, the image is loaded from its byte 512 on
-- at KERNEL_START, and its parts end below the user's pages, then the line of main that moves the user
-- program puts it, byte for byte, at the address where it starts, and changes nothing else.
pub build-move_user :
    (file : Option File) (boot sys usr out : List ℕ) (mem : Memory)
    → minix_open file ≡ some boot
    → length boot ≡ 512
    → at boot 510 ≡ 0x55
    → at boot 511 ≡ 0xaa
    → 12 ≤ length sys
    → kernel_start + length sys + length usr ≤ usr_main
    → build file
        (some (record { st_size = length sys; bytes = sys }))
        (some (record { st_size = length usr; bytes = usr }))
      ≡ some out
    → IsLoaded out (length sys + length usr) mem
    → ((j : ℕ) → j < length usr → move_user mem (usr_main + j) ≡ at usr j)
      × ((a : ℕ) → (a < usr_main) ⊎ (usr_main + length usr ≤ a) → move_user mem a ≡ mem a)
build-move_user file boot sys usr out mem opened len a b room below made load =
    let (out', e, is) =
      build-IsImage file boot sys usr opened len a b room (omega arith) (omega arith) in
    let same : out' ≡ out = cc in
    IsImage-move_user boot sys usr out mem (subst (IsImage boot sys usr) same is) room below load

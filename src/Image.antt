-- ===== src/Image.antt =====
-- zeOS/build.c, which puts the boot sector, the system and the user program into one image, and the
-- copy that main of zeOS/system.c makes of the user program out of the loaded image. `none` is `die`.
-- A file is given by its size, as `fstat` tells it, and its bytes; `read` gives the next bytes that
-- are asked for, or those that are left. Writes succeed. The messages are not modelled.
pub mod Parts
pub mod Sizes
pub mod Layout
pub mod Load
mod Tests
use so2_soa_fib.Common.{
  ℕ, zero, suc, ◌+◌, ◌-◌, ◌*◌, ◌/◌, ◌%◌, ◌^◌, Bool, true, false, not, ◌&&◌, ◌||◌, Option, none,
  some, ◌>>=◌, List, [], ◌∷◌, ◌++◌, ◌==◌, ltb, if◌then◌else◌, length, get_or, set,
}
use so2_soa_fib.Utils.{Memory, copy_data}

pub record File : Type 0 where
  pub st_size : ℕ
  pub bytes : List ℕ

abbrev pub take : ℕ → List ℕ → List ℕ
take zero xs = []
take (suc n) [] = []
take (suc n) (x ∷ xs) = x ∷ take n xs

abbrev pub drop : ℕ → List ℕ → List ℕ
drop zero xs = xs
drop (suc n) [] = []
drop (suc n) (x ∷ xs) = drop n xs

-- The byte at a place, 0 behind the end, and the word from a place on.
abbrev pub at : List ℕ → ℕ → ℕ
at xs i = get_or xs i 0

abbrev pub word_at : (ℕ → ℕ) → ℕ → ℕ
word_at b i = b i + b (i + 1) * 2 ^ 8 + b (i + 2) * 2 ^ 16 + b (i + 3) * 2 ^ 24

-- `memcmp`, 0 for equal bytes.
unfoldable pub same_bytes : List ℕ → List ℕ → Bool
same_bytes [] ys = true
same_bytes (x ∷ xs) [] = false
same_bytes (x ∷ xs) (y ∷ ys) = (x == y) && same_bytes xs ys

abbrev pub minix_header : List ℕ
minix_header = 0x01 ∷ 0x03 ∷ 0x10 ∷ 0x04 ∷ 0x20 ∷ 0x00 ∷ 0x00 ∷ 0x00 ∷ []

-- What is left of the file behind a good header.
unfoldable pub minix_open : Option File → Option (List ℕ)
unfolding same_bytes
minix_open none = none
minix_open (some f) =
    let buf = take 32 f.bytes in
    let lb : ℕ → ℕ = λ i. word_at (at buf) (4 * i) in
    if not (length buf == 32)
    then none
    else if not (same_bytes minix_header buf) || not (lb 5 == 0)
    then none
    else if not (lb 3 == 0)
    then none
    else if not (lb 4 == 0)
    then none
    else if not (lb 7 == 0)
    then none
    else some (drop 32 f.bytes)

-- The boot sector: exactly 512 bytes with the boot flag, marked with the root device 0.
unfoldable pub boot_sector : List ℕ → Option (List ℕ)
boot_sector bytes =
    let buf = take 1024 bytes in
    if not (length buf == 512)
    then none
    else if not (at buf 510 == 0x55) || not (at buf 511 == 0xaa)
    then none
    else some (set (set buf 508 0) 509 0)

-- One of the two loops that copy a file, on fuel: `sz` bytes are left to copy.
unfoldable pub copy_file : ℕ → ℕ → List ℕ → List ℕ → Option (List ℕ)
copy_file zero sz bytes out = some out
copy_file (suc fuel) sz bytes out =
    let l = if ltb 1024 sz then 1024 else sz in
    let chunk = take l bytes in
    let rest = copy_file fuel (sz - l) (drop l bytes) (out ++ chunk) in
    if ltb 0 sz then (if length chunk == l then rest else none) else some out

-- `lseek` and `write`; what lies between the end and a place behind it is filled with 0.
unfoldable pub write_at : ℕ → List ℕ → List ℕ → List ℕ
write_at zero [] out = out
write_at zero (b ∷ bs) [] = b ∷ write_at zero bs []
write_at zero (b ∷ bs) (o ∷ out) = b ∷ write_at zero bs out
write_at (suc p) bs [] = 0 ∷ write_at p bs []
write_at (suc p) bs (o ∷ out) = o ∷ write_at p bs out

-- The three low bytes of a word and a zero.
abbrev pub size_bytes : ℕ → List ℕ
size_bytes n = n % 256 ∷ n / 2 ^ 8 % 256 ∷ n / 2 ^ 16 % 256 ∷ 0 ∷ []

-- The lengths that are written over the image when all is copied.
unfoldable pub write_sizes : ℕ → ℕ → List ℕ → List ℕ
unfolding write_at
write_sizes sys_size usr_size out =
    let im_size = (sys_size + usr_size + 15) % 2 ^ 32 / 16 in
    let out = write_at 500 (im_size % 256 ∷ im_size / 2 ^ 8 % 256 ∷ []) out in
    let out = write_at 512 (size_bytes sys_size) out in
    let out = write_at 516 (size_bytes usr_size) out in write_at 520 (size_bytes 0x7e3b) out

-- `main` on its three files.
unfoldable pub build : Option File → Option File → Option File → Option (List ℕ)
unfolding minix_open boot_sector copy_file write_sizes
build boot_file system_file user_file = do
  bytes ← minix_open boot_file
  boot ← boot_sector bytes
  sys ← system_file
  out ← copy_file sys.st_size sys.st_size sys.bytes boot
  usr ← user_file
  out ← copy_file usr.st_size usr.st_size usr.bytes out
  some (write_sizes sys.st_size usr.st_size out)

-- KERNEL_START and `usr_main`, PH_USER_START
abbrev pub kernel_start : ℕ
kernel_start = 0x10000

abbrev pub usr_main : ℕ
usr_main = 0x100000

-- The line of `main` in zeOS/system.c that moves the user program, by the lengths in front of the
-- system: `*p_sys_size` and `*p_usr_size`.
unfoldable pub move_user : Memory → Memory
move_user mem =
    copy_data (kernel_start + word_at mem kernel_start) usr_main (word_at mem (kernel_start + 4))
      mem

-- ===== src/Image/Tests.antt =====
-- A boot file of zeros but for its header and flag, and small programs.
use so2_soa_fib.Common.{
  ℕ, ◌+◌, ◌<◌, ◌-◌, ◌≤◌, ◌⊎◌, ap, ◌≡◌, refl, arith, Option, some, List, [], ◌∷◌, ◌++◌, length,
  replicate,
}
use so2_soa_fib.Utils.{Memory}
use so2_soa_fib.Image.{File, at, minix_header, minix_open, build, kernel_start, usr_main, move_user}
use so2_soa_fib.Image.Layout.{IsImage, build-IsImage}
use so2_soa_fib.Image.Load.{IsLoaded, build-move_user}

abbrev sector : List ℕ
sector = replicate 510 0 ++ 0x55 ∷ 0xaa ∷ []

abbrev boot_file : Option File
boot_file = some (record { st_size = 544; bytes = minix_header ++ replicate 24 0 ++ sector })

abbrev system : List ℕ
system = replicate 16 7

abbrev program : List ℕ
program = 1 ∷ 2 ∷ 3 ∷ []

boot_file-opens : minix_open boot_file ≡ some sector
unfolding minix_open
boot_file-opens = refl

abbrev Made : List ℕ → Type 0
Made out =
    build boot_file (some (record { st_size = length system; bytes = system }))
      (some (record { st_size = length program; bytes = program }))
    ≡ some out

build-IsImage_example : (out : List ℕ) × Made out × IsImage sector system program out
build-IsImage_example =
    build-IsImage boot_file sector system program boot_file-opens refl refl refl (omega arith)
      (omega arith) (omega arith)

made : (out : List ℕ) × Made out × IsImage sector system program out
made =
    build-IsImage boot_file sector system program boot_file-opens refl refl refl (omega arith)
      (omega arith) (omega arith)

-- A memory with the image.
abbrev loaded : Memory
loaded = λ a. at made.0 (a + 512 - kernel_start)

loaded-IsLoaded : IsLoaded made.0 (length system + length program) loaded
loaded-IsLoaded i lt =
    let place : kernel_start + i + 512 - kernel_start ≡ 512 + i = omega arith in
    ap (at made.0) place

build-move_user_example :
    ((j : ℕ) → j < length program → move_user loaded (usr_main + j) ≡ at program j)
    × ((a : ℕ) → (a < usr_main) ⊎ (usr_main + length program ≤ a) → move_user loaded a ≡ loaded a)
build-move_user_example =
    build-move_user boot_file sector system program made.0 loaded boot_file-opens refl refl refl
      (omega arith) (omega arith) made.1 loaded-IsLoaded

-- ===== src/Image/Layout.antt =====
-- Where the image has what.
use so2_soa_fib.Common.{
  ℕ, ◌+◌, ◌-◌, ◌*◌, ◌/◌, ◌%◌, ◌^◌, ◌≤◌, ◌<◌, ◌≡◌, ◌≢◌, refl, sym, ◌∙◌, arith, true, false, Option,
  some, List, ◌++◌, ltb, length, length-append, length-set, get_or-set_ne, set,
}
use so2_soa_fib.Image.{File, at, word_at, minix_open, boot_sector, write_sizes, build}
use so2_soa_fib.Image.Parts.{at-append, copy_file-append, take-all}
use so2_soa_fib.Image.Sizes.{
  write_sizes-kept, write_sizes-system, write_sizes-user, write_sizes-total, length-write_sizes,
}

-- The image of a boot sector, a system and a user program: the flag, the length in units of 16
-- bytes, the lengths of the two in front of the system, which has left its first twelve bytes for
-- them, and the user program behind it.
pub record IsImage (boot sys usr out : List ℕ) : Type 0 where
  pub size : length out ≡ 512 + length sys + length usr
  pub boots : (j : ℕ) → j < 500 → at out j ≡ at boot j
  pub flag : (at out 510 ≡ 0x55) × (at out 511 ≡ 0xaa)
  pub paragraphs : at out 500 + at out 501 * 2 ^ 8 ≡ (length sys + length usr + 15) / 16 % 2 ^ 16
  pub sys_size : word_at (at out) 512 ≡ length sys
  pub usr_size : word_at (at out) 516 ≡ length usr
  pub system : (j : ℕ) → 12 ≤ j → j < length sys → at out (512 + j) ≡ at sys j
  pub user : (j : ℕ) → j < length usr → at out (512 + length sys + j) ≡ at usr j

-- A boot sector that the builder accepts, and what is written of it.
marked : List ℕ → List ℕ
marked boot = set (set boot 508 0) 509 0

boot_sector-marked :
    (boot : List ℕ)
    → length boot ≡ 512
    → at boot 510 ≡ 0x55
    → at boot 511 ≡ 0xaa
    → boot_sector boot ≡ some (marked boot)
unfolding boot_sector marked
boot_sector-marked boot len a b = rw (take-all 1024 boot (omega (arith, len)), len, a, b) refl

at-marked : (boot : List ℕ) (j : ℕ) → j ≢ 508 → j ≢ 509 → at (marked boot) j ≡ at boot j
unfolding marked
at-marked boot j a b =
    get_or-set_ne (set boot 508 0) 0 0 (λ e. b (sym e)) ∙ get_or-set_ne boot 0 0 (λ e. a (sym e))

length-marked : (boot : List ℕ) → length (marked boot) ≡ length boot
unfolding marked
length-marked boot = length-set (set boot 508 0) 509 0 ∙ length-set boot 508 0

-- The output before the lengths are written: the three parts one behind another.
abbrev joined : List ℕ → List ℕ → List ℕ → List ℕ
joined boot sys usr = (marked boot ++ sys) ++ usr

build-joined :
    (file : Option File) (boot sys usr : List ℕ)
    → minix_open file ≡ some boot
    → boot_sector boot ≡ some (marked boot)
    → build file
        (some (record { st_size = length sys; bytes = sys }))
        (some (record { st_size = length usr; bytes = usr }))
      ≡ some (write_sizes (length sys) (length usr) (joined boot sys usr))
unfolding build
build-joined file boot sys usr opened accepted =
    rw
      (
        opened,
        accepted,
        copy_file-append (length sys) sys (marked boot) (omega arith),
        copy_file-append (length usr) usr (marked boot ++ sys) (omega arith),
      )
      refl

module _ (boot sys usr : List ℕ) (len : length boot ≡ 512) where
  joined-boot : (j : ℕ) → j < 512 → j ≢ 508 → j ≢ 509 → at (joined boot sys usr) j ≡ at boot j
  joined-boot j lt a b =
      let front : ltb j (length (marked boot)) ≡ true = ground (arith, length-marked boot, len) in
      let more : ltb j (length (marked boot ++ sys)) ≡ true =
        ground (arith, length-marked boot, len, length-append (marked boot) sys) in
      rw (at-append (marked boot ++ sys) usr j, more, at-append (marked boot) sys j, front)
        (at-marked boot j a b)

  joined-system : (j : ℕ) → j < length sys → at (joined boot sys usr) (512 + j) ≡ at sys j
  joined-system j lt =
      let behind : ltb (512 + j) (length (marked boot)) ≡ false =
        ground (arith, length-marked boot, len) in
      let more : ltb (512 + j) (length (marked boot ++ sys)) ≡ true =
        ground (arith, length-marked boot, len, length-append (marked boot) sys) in
      let place : 512 + j - length (marked boot) ≡ j = omega (arith, length-marked boot, len) in
      rw
        (
          at-append (marked boot ++ sys) usr (512 + j),
          more,
          at-append (marked boot) sys (512 + j),
          behind,
          place,
        )
        refl

  length-front : length (marked boot ++ sys) ≡ 512 + length sys
  length-front = omega (arith, length-append (marked boot) sys, length-marked boot, len)

  joined-user : (j : ℕ) → at (joined boot sys usr) (512 + length sys + j) ≡ at usr j
  joined-user j =
      let behind : ltb (512 + length sys + j) (length (marked boot ++ sys)) ≡ false =
        ground (arith, length-front) in
      let place : 512 + length sys + j - length (marked boot ++ sys) ≡ j =
        omega (arith, length-front) in
      rw (at-append (marked boot ++ sys) usr (512 + length sys + j), behind, place) refl

  joined-length : length (joined boot sys usr) ≡ 512 + length sys + length usr
  joined-length = omega (arith, length-append (marked boot ++ sys) usr, length-front)

  written-IsImage :
      at boot 510 ≡ 0x55
      → at boot 511 ≡ 0xaa
      → 12 ≤ length sys
      → length sys < 2 ^ 24
      → length usr < 2 ^ 24
      → IsImage boot sys usr (write_sizes (length sys) (length usr) (joined boot sys usr))
  written-IsImage a b room s u =
      let out = joined boot sys usr in
      let kept = write_sizes-kept (length sys) (length usr) out in
      let total = write_sizes-total (length sys) (length usr) out in
      let system = write_sizes-system (length sys) (length usr) out in
      let user = write_sizes-user (length sys) (length usr) out in
      record {
        size =
            length-write_sizes (length sys) (length usr) out (omega (arith, joined-length))
            ∙ joined-length;
        boots = λ j lt.
            kept j (ground arith) (ground arith)
            ∙ joined-boot j (omega arith) (omega arith) (omega arith);
        flag = (
          kept 510 refl refl ∙ joined-boot 510 (omega arith) (omega arith) (omega arith) ∙ a,
          kept 511 refl refl ∙ joined-boot 511 (omega arith) (omega arith) (omega arith) ∙ b,
        );
        paragraphs = rw (total 0 (omega arith), total 1 (omega arith)) (omega arith);
        sys_size =
            rw
              (
                system 0 (omega arith),
                system 1 (omega arith),
                system 2 (omega arith),
                system 3 (omega arith),
              )
              (omega arith);
        usr_size =
            rw
              (
                user 0 (omega arith),
                user 1 (omega arith),
                user 2 (omega arith),
                user 3 (omega arith),
              )
              (omega arith);
        system = λ j low high. kept (512 + j) (ground arith) (ground arith) ∙ joined-system j high;
        user = λ j lt. kept (512 + length sys + j) (ground arith) (ground arith) ∙ joined-user j;
      }

-- From a boot file with a good header and a boot sector of 512 bytes with the flag, a system of
-- twelve bytes or more and a user program, both shorter than 2 ^ 24 bytes, build makes an image of the
-- three: the boot code and the flag, the lengths of the two where the kernel and the loader read
-- them, the system but for its first twelve bytes, and the user program behind it, byte for byte.
pub build-IsImage :
    (file : Option File) (boot sys usr : List ℕ)
    → minix_open file ≡ some boot
    → length boot ≡ 512
    → at boot 510 ≡ 0x55
    → at boot 511 ≡ 0xaa
    → 12 ≤ length sys
    → length sys < 2 ^ 24
    → length usr < 2 ^ 24
    → (out : List ℕ) × (build file
          (some (record { st_size = length sys; bytes = sys }))
          (some (record { st_size = length usr; bytes = usr }))
        ≡ some out)
      × IsImage boot sys usr out
build-IsImage file boot sys usr opened len a b room s u = (
  write_sizes (length sys) (length usr) (joined boot sys usr),
  build-joined file boot sys usr opened (boot_sector-marked boot len a b),
  written-IsImage boot sys usr len a b room s u,
)

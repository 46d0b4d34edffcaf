-- ===== src/Utils.antt =====
-- zeOS/utils.c: the copies between memory blocks and the check of a user's pointer. Memory is a
-- function from addresses to bytes; addresses are numbers that do not wrap round.
pub mod Copy
pub mod Access
pub mod Ticks
mod Tests
use so2_soa_fib.Common.{
  ℕ, zero, suc, ◌+◌, ◌-◌, ◌/◌, ◌%◌, ◌^◌, Bool, true, false, ◌&&◌, ◌||◌, ltb, leb, if◌then◌else◌,
  update, ℤ, pos,
}

abbrev pub Memory : Type 0
Memory = ℕ → ℕ

-- `*q++ = *p++` on bytes, `size` times.
unfoldable pub copy_bytes : ℕ → ℕ → ℕ → Memory → Memory
copy_bytes zero p q mem = mem
copy_bytes (suc size) p q mem = copy_bytes size (p + 1) (q + 1) (update mem q (mem p))

-- `*q = *p` on a `DWord`: four bytes are read, then written.
unfoldable pub copy_word : ℕ → ℕ → Memory → Memory
copy_word p q mem =
    let m0 = update mem q (mem p) in
    let m1 = update m0 (q + 1) (mem (p + 1)) in
    let m2 = update m1 (q + 2) (mem (p + 2)) in update m2 (q + 3) (mem (p + 3))

-- The loop on words, on fuel, and then the loop on what is left.
unfoldable pub copy_words : ℕ → ℕ → ℕ → ℕ → Memory → Memory
copy_words zero p q size mem = copy_bytes size p q mem
copy_words (suc fuel) p q size mem =
    let rest = copy_words fuel (p + 4) (q + 4) (size - 4) (copy_word p q mem) in
    if ltb 4 size then rest else copy_bytes size p q mem

-- The caller's `size` is not negative.
unfoldable pub copy_data : ℕ → ℕ → ℕ → Memory → Memory
copy_data start dest size mem = copy_words size start dest size mem

unfoldable pub copy_from_user : ℕ → ℕ → ℕ → Memory → ℤ × Memory
copy_from_user start dest size mem = (pos 0, copy_words size start dest size mem)

unfoldable pub copy_to_user : ℕ → ℕ → ℕ → Memory → ℤ × Memory
copy_to_user start dest size mem = (pos 0, copy_words size start dest size mem)

-- L_USER_START >> 12, NUM_PAG_CODE and NUM_PAG_DATA
abbrev pub user_first_page : ℕ
user_first_page = 256

abbrev pub num_pag_code : ℕ
num_pag_code = 8

abbrev pub num_pag_data : ℕ
num_pag_data = 20

pub data AccessType : Type 0 where
  verify_read verify_write : AccessType

-- The `default` case of the switch.
unfoldable pub readable : ℕ → ℕ → Bool
readable addr_ini addr_fin =
    leb user_first_page addr_ini && leb addr_fin (user_first_page + num_pag_code + num_pag_data)

-- The case VERIFY_WRITE has no `break`: where its test fails, the default's is made.
unfoldable pub check_pages : AccessType → ℕ → ℕ → Bool
unfolding readable
check_pages verify_write addr_ini addr_fin =
    if leb (user_first_page + num_pag_code) addr_ini
      && leb addr_fin (user_first_page + num_pag_code + num_pag_data)
    then true
    else readable addr_ini addr_fin
check_pages verify_read addr_ini addr_fin = readable addr_ini addr_fin

unfoldable pub access_ok : AccessType → ℕ → ℕ → Bool
unfolding check_pages
access_ok type addr size =
    let addr_ini = addr / 4096 in
    let addr_fin = (addr + size) % 2 ^ 32 / 4096 in
    if ltb addr_fin addr_ini then false else check_pages type addr_ini addr_fin

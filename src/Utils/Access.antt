-- ===== src/Utils/Access.antt =====
-- What `access_ok` accepts.
use so2_soa_fib.Common.{ℕ, ◌+◌, ◌-◌, ◌*◌, ◌^◌, ◌≤◌, ◌<◌, ◌≡◌, ◌↔◌, true, arith}
use so2_soa_fib.Utils.{AccessType, verify_read, verify_write, access_ok}

-- `access_ok` accepts a block of at most 2 ^ 32 - 4096 bytes, for reading or writing, exactly if it
-- starts at or above the user's first page and ends within 28 pages of it or in the page that
-- follows them.
pub access_ok_iff :
    (type : AccessType) (addr size : ℕ)
    → addr < 2 ^ 32
    → size ≤ 2 ^ 32 - 4096
    → (access_ok type addr size ≡ true) ↔ ((256 * 4096 ≤ addr) × (addr + size < 285 * 4096))
unfolding access_ok
access_ok_iff verify_read addr size ha hs = ((λ h. ground arith), (λ h. ground arith))
access_ok_iff verify_write addr size ha hs = ((λ h. ground arith), (λ h. ground arith))

-- ===== src/SystemCall.antt =====
-- libsponge/util/util.hh and util.cc: `SystemCall`. A `unix_error` keeps the attempt and `errno`.
use network_project_cs.Common.{
  refl, pos, negsuc, ℕ, ℤ, is_negative, ◌≡◌, ◌≢◌, ◌⊎◌, ◌||◌, not, true, false, String, Result, ok,
  throw, unix_error, arith, ◌==◌, if◌then◌else◌,
}

-- What a system call answers: its return value, and `errno` after the call.
pub record Return : Type 0 where
  pub value : ℤ
  pub errno : ℕ

unfoldable pub system_call : String → ℤ → ℕ → ℕ → Result ℤ
system_call attempt return_value errno errno_mask =
    if not (is_negative return_value) || (errno == errno_mask)
    then ok return_value
    else throw (unix_error attempt errno)

-- A system call's value is passed on unless it is negative with an `errno` other than the mask.
pub system_call_cases :
    (attempt : String) (return_value : ℤ) (errno errno_mask : ℕ)
    → ((system_call attempt return_value errno errno_mask ≡ ok return_value)
        × ((is_negative return_value ≡ false) ⊎ (errno ≡ errno_mask)))
      ⊎ ((system_call attempt return_value errno errno_mask ≡ throw (unix_error attempt errno))
          × (is_negative return_value ≡ true)
          × (errno ≢ errno_mask))
unfolding system_call
system_call_cases attempt return_value errno errno_mask = ground arith

pub passes : (attempt : String) (n errno : ℕ) → system_call attempt (pos n) errno 0 ≡ ok (pos n)
unfolding system_call
passes attempt n errno = refl

pub refused :
    (attempt : String) (errno : ℕ)
    → errno ≢ 0
    → system_call attempt (negsuc 0) errno 0 ≡ throw (unix_error attempt errno)
unfolding system_call
refused attempt errno failed = ground arith

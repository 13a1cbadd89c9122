-- ===== src/InternetChecksum.antt =====
-- libsponge/util/util.hh and util.cc, class InternetChecksum.
pub mod Sums
pub mod Folding
pub mod Verification
mod Tests
use mathlib.Core.Logic.{dite}
use mathlib.Core.WellFounded.{Acc}
use network_project_cs.Common.{
  ℕ, ◌+◌, ◌-◌, ◌*◌, ◌/◌, ◌%◌, ◌^◌, ◌<◌, Bool, true, false, not, [], ◌∷◌, Bytes, arith, dec_lt,
  lt_wf, if◌then◌else◌,
}

pub record InternetChecksum : Type 0 where
  pub sum : ℕ
  pub parity : Bool

-- `InternetChecksum(const uint32_t initial_sum)`
unfoldable pub init : ℕ → InternetChecksum
init initial_sum = record { sum = initial_sum; parity = false }

-- One round of the loop of `add`: `val` is an `uint16_t`, `_sum` an `uint32_t`.
add_byte : InternetChecksum → ℕ → InternetChecksum
add_byte k c =
    let val = if not k.parity then c % 2 ^ 8 * 2 ^ 8 % 2 ^ 16 else c % 2 ^ 8 in
    record { sum = (k.sum + val) % 2 ^ 32; parity = not k.parity }

unfoldable pub add : InternetChecksum → Bytes → InternetChecksum
unfolding add_byte
add k [] = k
add k (c ∷ cs) = add (add_byte k c) cs

-- `(ret >> 16) + (ret & 0xffff)`
abbrev pub fold_once : ℕ → ℕ
fold_once ret = (ret / 2 ^ 16 + ret % 2 ^ 16) % 2 ^ 32

-- `while (ret > 0xffff)`: each round makes `ret` smaller, so the recursion is on `<`.
fold_acc : (ret : ℕ) → Acc ◌<◌ ret → ℕ
fold_acc ret (Acc.intro _ smaller) =
    dite (dec_lt 0xffff ret) (λ h. fold_acc (fold_once ret) (smaller (fold_once ret) (omega arith)))
      (λ _. ret)

unfoldable pub fold : ℕ → ℕ
unfolding fold_acc lt_wf dec_lt
fold ret = fold_acc ret (lt_wf.apply ret)

-- `return ~ret;`, cut to an `uint16_t`.
unfoldable pub value : InternetChecksum → ℕ
unfolding fold
value k = (2 ^ 32 - 1 - fold k.sum) % 2 ^ 16

-- ===== src/Common/Int.antt =====
-- Signed integers over the native numbers, and the conversions between C++'s integer types.
use Prim.Native.Nat.{ℕ, ◌+◌, ◌-◌, ◌%◌, ◌^◌, ◌<◌, ◌≤◌}
use mathlib.Core.Path.{◌≡◌, refl, sym, ◌∙◌}
use mathlib.Core.Logic.{◌≢◌}
use mathlib.Core.Bool.{Bool, true, false}
use native.Mathlib.Omega.{arith}
use network_project_cs.Common.Tests.{ltb, ◌==◌, if◌then◌else◌}

-- `negsuc n` is -(n + 1).
pub data ℤ : Type 0 where
  pos : ℕ → ℤ
  negsuc : ℕ → ℤ

abbrev pub is_negative : ℤ → Bool
is_negative (pos n) = false
is_negative (negsuc n) = true

-- a < b
abbrev pub ltb_ℤ : ℤ → ℤ → Bool
ltb_ℤ (pos a) (pos b) = ltb a b
ltb_ℤ (pos a) (negsuc b) = false
ltb_ℤ (negsuc a) (pos b) = true
ltb_ℤ (negsuc a) (negsuc b) = ltb b a

abbrev pub equal_ℤ : ℤ → ℤ → Bool
equal_ℤ (pos a) (pos b) = a == b
equal_ℤ (pos a) (negsuc b) = false
equal_ℤ (negsuc a) (pos b) = false
equal_ℤ (negsuc a) (negsuc b) = a == b

-- The bits of a number in a word of `m` values, and the signed number that bits stand for.
abbrev pub bits : ℕ → ℤ → ℕ
bits m (pos n) = n % m
bits m (negsuc n) = m - 1 - n % m

abbrev pub signed : ℕ → ℕ → ℤ
signed half b = if ltb b half then pos b else negsuc (half + half - 1 - b)

-- `ssize_t` to `int`, `size_t` to `ssize_t`, and `ssize_t` or `int` to `size_t`.
unfoldable pub int_of_ssize : ℤ → ℤ
int_of_ssize z = signed (2 ^ 31) (bits (2 ^ 32) z)

unfoldable pub ssize_of_size : ℕ → ℤ
ssize_of_size n = signed (2 ^ 63) n

unfoldable pub size_of_ssize : ℤ → ℕ
size_of_ssize z = bits (2 ^ 64) z

-- An `int` lies between -2^31 and 2^31 - 1.
abbrev pub IsInt : ℤ → Type 0
IsInt (pos n) = n < 2 ^ 31
IsInt (negsuc n) = n < 2 ^ 31

pub int_of_ssize-IsInt : (z : ℤ) → IsInt (int_of_ssize z)
unfolding int_of_ssize
int_of_ssize-IsInt (pos n) = ground arith
int_of_ssize-IsInt (negsuc n) = ground arith

pub int_of_ssize_small : (n : ℕ) → n < 2 ^ 31 → int_of_ssize (pos n) ≡ pos n
unfolding int_of_ssize
int_of_ssize_small n h = ground arith

pub minus_one : int_of_ssize (negsuc 0) ≡ negsuc 0
minus_one = unfold int_of_ssize in refl

-- A system call's answer that is -1 or at most 0x7ffff000 is the same as an `int`.
pub narrow :
    (z : ℤ) (n : ℕ)
    → ((v : ℕ) → z ≡ pos v → v ≤ 0x7ffff000)
    → ((v : ℕ) → z ≡ negsuc v → v ≡ 0)
    → int_of_ssize z ≡ pos n
    → z ≡ pos n
narrow (pos v) n high low e = sym (int_of_ssize_small v (omega (arith, high v refl))) ∙ e
narrow (negsuc v) n high low e = ground (arith, low v refl, minus_one)

pub equal_ℤ-true : (a b : ℤ) → equal_ℤ a b ≡ true → a ≡ b
equal_ℤ-true (pos a) (pos b) h = ground arith
equal_ℤ-true (pos a) (negsuc b) h = absurd (ground arith)
equal_ℤ-true (negsuc a) (pos b) h = absurd (ground arith)
equal_ℤ-true (negsuc a) (negsuc b) h = ground arith

pub pos-inj : (m n : ℕ) → pos m ≡ pos n → m ≡ n
pos-inj m n e = ground arith

pub never_negative : (m n : ℕ) → pos m ≢ negsuc n
never_negative m n e = ground arith

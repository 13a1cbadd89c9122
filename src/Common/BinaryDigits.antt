-- ===== src/Common/BinaryDigits.antt =====
-- The binary digits of `&`, `|` and `^` are those of the operands, joined one by one.
use Prim.Native.Nat.{
  ℕ, zero, suc, ◌+◌, ◌*◌, ◌/◌, ◌%◌, ◌≤◌, ◌<◌, min, max, bit_and, bit_or, bit_xor, bitwise, digits,
  differ, bit_and-bitwise, bit_or-bitwise, bit_xor-bitwise,
}
use mathlib.Core.Path.{◌≡◌, refl, ap, ◌∙◌}
use mathlib.Core.Logic.{◌⊎◌}
use native.Mathlib.Omega.{arith}

-- The digit of a number at a place, from the lowest on.
unfoldable pub binary_digit : (place n : ℕ) → ℕ
binary_digit zero n = n % 2
binary_digit (suc place) n = binary_digit place (n / 2)

pub binary_digit-cases : (place n : ℕ) → (binary_digit place n ≡ 0) ⊎ (binary_digit place n ≡ 1)
unfolding binary_digit
binary_digit-cases zero n = ground arith
binary_digit-cases (suc place) n = binary_digit-cases place (n / 2)

-- The recursion of the operations has fuel, which any number above the first operand is enough for.
module _ (end : ℕ → ℕ) (join : ℕ → ℕ → ℕ) where
  fuel_enough : (j k a b : ℕ) → a ≤ j → a ≤ k → digits end join j a b ≡ digits end join k a b
  fuel_enough zero zero a b p q = refl
  fuel_enough zero (suc k) zero b p q = refl
  fuel_enough zero (suc k) (suc a) b p q = absurd (omega arith)
  fuel_enough (suc j) zero zero b p q = refl
  fuel_enough (suc j) zero (suc a) b p q = absurd (omega arith)
  fuel_enough (suc j) (suc k) zero b p q = refl
  fuel_enough (suc j) (suc k) (suc a) b p q =
      ap (λ n. n * 2 + join (suc a % 2) (b % 2))
        (fuel_enough j k (suc a / 2) (b / 2) (omega arith) (omega arith))

  bitwise-halves :
      (a b : ℕ)
      → bitwise end join (suc a) b
        ≡ bitwise end join (suc a / 2) (b / 2) * 2 + join (suc a % 2) (b % 2)
  bitwise-halves a b =
      ap (λ n. n * 2 + join (suc a % 2) (b % 2))
        (fuel_enough a (suc a / 2) (suc a / 2) (b / 2) (omega arith) (omega arith))

bit_and-halves : (a b : ℕ) → bit_and a b ≡ bit_and (a / 2) (b / 2) * 2 + min (a % 2) (b % 2)
bit_and-halves zero b = simp bit_and-bitwise (omega arith)
bit_and-halves (suc a) b = simp bit_and-bitwise (bitwise-halves (λ y. 0) min a b)

bit_or-halves : (a b : ℕ) → bit_or a b ≡ bit_or (a / 2) (b / 2) * 2 + max (a % 2) (b % 2)
bit_or-halves zero b = simp bit_or-bitwise (omega arith)
bit_or-halves (suc a) b = simp bit_or-bitwise (bitwise-halves (λ y. y) max a b)

bit_xor-halves : (a b : ℕ) → bit_xor a b ≡ bit_xor (a / 2) (b / 2) * 2 + differ (a % 2) (b % 2)
bit_xor-halves zero b = simp bit_xor-bitwise (omega arith)
bit_xor-halves (suc a) b = simp bit_xor-bitwise (bitwise-halves (λ y. y) differ a b)

-- An operation that is known by its lowest digit and the halves is known by all digits.
binary_digit-join :
    (op join : ℕ → ℕ → ℕ)
    → ((a b : ℕ) → op a b ≡ op (a / 2) (b / 2) * 2 + join (a % 2) (b % 2))
    → ((a b : ℕ) → join (a % 2) (b % 2) < 2)
    → (place a b : ℕ)
    → binary_digit place (op a b) ≡ join (binary_digit place a) (binary_digit place b)
unfolding binary_digit
binary_digit-join op join halves small zero a b = omega (arith, halves a b, small a b)
binary_digit-join op join halves small (suc place) a b =
    let half : op a b / 2 ≡ op (a / 2) (b / 2) = omega (arith, halves a b, small a b) in
    ap (binary_digit place) half ∙ binary_digit-join op join halves small place (a / 2) (b / 2)

pub binary_digit-bit_and :
    (place a b : ℕ)
    → binary_digit place (bit_and a b) ≡ min (binary_digit place a) (binary_digit place b)
binary_digit-bit_and = binary_digit-join bit_and min bit_and-halves (λ a b. omega arith)

pub binary_digit-bit_or :
    (place a b : ℕ)
    → binary_digit place (bit_or a b) ≡ max (binary_digit place a) (binary_digit place b)
binary_digit-bit_or = binary_digit-join bit_or max bit_or-halves (λ a b. omega arith)

differ_small : (x y : ℕ) → x < 2 → y < 2 → differ x y < 2
differ_small zero y p q = q
differ_small (suc x) zero p q = p
differ_small (suc x) (suc y) p q = differ_small x y (omega arith) (omega arith)

pub binary_digit-bit_xor :
    (place a b : ℕ)
    → binary_digit place (bit_xor a b) ≡ differ (binary_digit place a) (binary_digit place b)
binary_digit-bit_xor =
    binary_digit-join bit_xor differ bit_xor-halves
      (λ a b. differ_small (a % 2) (b % 2) (omega arith) (omega arith))

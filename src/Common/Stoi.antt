-- ===== src/Common/Stoi.antt =====
-- `std::stoi`, and that it reads what a number is printed as.
use Prim.Native.Nat.{ℕ, zero, suc, ◌+◌, ◌-◌, ◌*◌, ◌/◌, ◌%◌, ◌^◌, ◌≤◌, ◌<◌}
use Prim.Native.Nat.pow
use mathlib.Core.Path.{ap, ◌≡◌, refl, ◌∙◌}
use mathlib.Core.Logic.{inl, inr}
use mathlib.Core.Bool.{Bool, true, false, ◌&&◌, ◌||◌}
use mathlib.Core.List.{[], ◌∷◌, ◌++◌}
use native.Mathlib.Omega.{arith}
use network_project_cs.Common.Exceptions.{Result, ok, throw, invalid_argument, out_of_range}
use network_project_cs.Common.Formatting.{digit, digits_within, digits}
use network_project_cs.Common.Int.{ℤ, pos, negsuc}
use network_project_cs.Common.Lists.{length, length-append, All, All-append}
use network_project_cs.Common.Tests.{ltb, ◌==◌, if◌then◌else◌, Bool-cases}
use network_project_cs.Common.Words.{Bytes}

-- `isspace` and `isdigit` of the C locale.
is_space : ℕ → Bool
is_space c = (c == 32) || (ltb 8 c && ltb c 14)

ltb-true : {a b : ℕ} → a < b → ltb a b ≡ true
ltb-true h = ground arith

is_digit : ℕ → Bool
is_digit c = ltb 47 c && ltb c 58

skip_spaces : Bytes → Bytes
unfolding is_space
skip_spaces [] = []
skip_spaces (c ∷ cs) = let rest = skip_spaces cs in if is_space c then rest else c ∷ cs

-- The number that the digits at the front stand for, after `value`.
read_digits : (value : ℕ) → Bytes → ℕ
unfolding is_digit
read_digits value [] = value
read_digits value (c ∷ cs) =
    let rest = read_digits (10 * value + (c - 48)) cs in if is_digit c then rest else value

negative : ℕ → ℤ
negative zero = pos 0
negative (suc n) = negsuc n

-- A number with its sign, if it is an `int`.
signed_int : (minus : Bool) → ℕ → Result ℤ
unfolding negative
signed_int minus n =
    if minus
    then (if ltb (2 ^ 31) n then throw (out_of_range "stoi") else ok (negative n))
    else (if ltb n (2 ^ 31) then ok (pos n) else throw (out_of_range "stoi"))

read_int : (minus : Bool) → Bytes → Result ℤ
unfolding read_digits signed_int is_digit
read_int minus [] = throw (invalid_argument "stoi")
read_int minus (c ∷ cs) =
    if is_digit c
    then signed_int minus (read_digits 0 (c ∷ cs))
    else throw (invalid_argument "stoi")

read_signed : Bytes → Result ℤ
unfolding read_int
read_signed [] = throw (invalid_argument "stoi")
read_signed (c ∷ cs) =
    if c == 45
    then read_int true cs
    else if c == 43
    then read_int false cs
    else read_int false (c ∷ cs)

unfoldable pub stoi : Bytes → Result ℤ
unfolding skip_spaces read_signed
stoi s = read_signed (skip_spaces s)

-- The characters of decimal digits.
abbrev pub IsDecimal : Bytes → Type 0
IsDecimal = All (λ c. (48 ≤ c) × (c < 58))

digit-IsDecimal : (d : ℕ) → d < 10 → IsDecimal (digit d ∷ [])
unfolding digit
digit-IsDecimal d small = ground arith

digits_within-IsDecimal : (fuel n : ℕ) → IsDecimal (digits_within fuel 10 n)
unfolding digits_within
digits_within-IsDecimal zero n = tt
digits_within-IsDecimal (suc fuel) n = elim (Bool-cases (ltb n 10)) [
  | inl one ↦ rw one (ground arith)
  | inr more ↦ rw more (
      All-append _ (digits_within fuel 10 (n / 10)) (digit (n % 10) ∷ [])
        (digits_within-IsDecimal fuel (n / 10)) (digit-IsDecimal (n % 10) (omega arith)))
]

read_digits-append :
    (value d : ℕ) (xs : Bytes)
    → IsDecimal xs
    → d < 10
    → read_digits value (xs ++ digit d ∷ []) ≡ 10 * read_digits value xs + d
unfolding read_digits digit is_digit
read_digits-append value d [] decimal small = ground arith
read_digits-append value d (c ∷ xs) ((low, high), decimal) small =
    let is : (ltb 47 c && ltb c 58) ≡ true = ground arith in
    rw is (read_digits-append (10 * value + (c - 48)) d xs decimal small)

read_digits-digits_within :
    (fuel n : ℕ) → n < 10 ^ fuel → read_digits 0 (digits_within fuel 10 n) ≡ n
unfolding digits_within read_digits
read_digits-digits_within zero n small = let none_left : n ≡ 0 = omega arith in rw none_left refl
read_digits-digits_within (suc fuel) n small = elim (Bool-cases (ltb n 10)) [
  | inl one ↦ rw one (ground arith)
  | inr more ↦
      let fewer : n / 10 < 10 ^ fuel = omega (arith, pow.suc 10 fuel) in
      rw
        (
          more,
          read_digits-append 0 (n % 10) (digits_within fuel 10 (n / 10))
              (digits_within-IsDecimal fuel (n / 10)) (omega arith),
          read_digits-digits_within fuel (n / 10) fewer,
        )
        (omega arith)
]

length-digits_within : (fuel n : ℕ) → 1 ≤ length (digits_within (suc fuel) 10 n)
unfolding digits_within
length-digits_within fuel n = elim (Bool-cases (ltb n 10)) [
  | inl one ↦ rw one (omega arith)
  | inr more ↦
      rw more (omega (arith, length-append (digits_within fuel 10 (n / 10)) (digit (n % 10) ∷ [])))
]

signed_int-pos : (n : ℕ) → n < 2 ^ 31 → signed_int false n ≡ ok (pos n)
unfolding signed_int
signed_int-pos n small = let fits : ltb n (2 ^ 31) ≡ true = ltb-true small in rw fits refl

read_int-eq :
    (c : ℕ) (cs : Bytes)
    → is_digit c ≡ true
    → read_int false (c ∷ cs) ≡ signed_int false (read_digits 0 (c ∷ cs))
unfolding read_int
read_int-eq c cs is = rw is refl

stoi-read_digits :
    (s : Bytes)
    → IsDecimal s
    → 1 ≤ length s
    → read_digits 0 s < 2 ^ 31
    → stoi s ≡ ok (pos (read_digits 0 s))
unfolding stoi skip_spaces read_signed is_space
stoi-read_digits [] decimal some_there small = absurd (omega arith)
stoi-read_digits (c ∷ cs) ((low, high), decimal) some_there small =
    let no_space : ((c == 32) || (ltb 8 c && ltb c 14)) ≡ false = ground arith in
    let no_minus : (c == 45) ≡ false = ground arith in
    let no_plus : (c == 43) ≡ false = ground arith in
    let is : is_digit c ≡ true = unfold is_digit in ground arith in
    rw (no_space, no_minus, no_plus)
      (read_int-eq c cs is ∙ signed_int-pos (read_digits 0 (c ∷ cs)) small)

pub digits-IsDecimal : (n : ℕ) → IsDecimal (digits 10 n)
unfolding digits
digits-IsDecimal n = digits_within-IsDecimal 32 n

-- `stoi` reads a number that is not negative as it was printed.
pub stoi-digits : (n : ℕ) → n < 2 ^ 31 → stoi (digits 10 n) ≡ ok (pos n)
unfolding digits
stoi-digits n small =
    let read : read_digits 0 (digits_within 32 10 n) ≡ n =
      read_digits-digits_within 32 n (omega arith) in
    stoi-read_digits (digits_within 32 10 n) (digits_within-IsDecimal 32 n)
      (length-digits_within 31 n) (omega arith)
    ∙ ap (λ k. ok (pos k)) read

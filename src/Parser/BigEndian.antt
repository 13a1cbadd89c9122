-- ===== src/Parser/BigEndian.antt =====
-- Network byte order, described apart from the code: the number that a byte string stands for, and
-- the digits of a number to the base 256.
use network_project_cs.Common.{
  ℕ, zero, suc, ◌+◌, ◌*◌, ◌/◌, ◌%◌, ◌^◌, ◌≤◌, ◌<◌, ◌≡◌, refl, ap, ap₂, ◌∙◌, [], ◌∷◌, Bytes, IsBytes,
  length, arith,
}
use native.Mathlib.Nat.{
  pow-suc, one-le-pow, div-add-mod, div-div-eq-div-mul, mul-add-div_right, mul-le-mul_right,
  div-eq_of_lt,
}
use native.Mathlib.Numerals.{towards_suc}

-- The number that continues `acc` by the given digits.
unfoldable pub continued : ℕ → Bytes → ℕ
continued acc [] = acc
continued acc (c ∷ cs) = continued (acc * 256 + c) cs

unfoldable pub value : Bytes → ℕ
unfolding continued
value cs = continued 0 cs

-- The last `k` digits of `v`, the highest first.
unfoldable pub digits : ℕ → ℕ → Bytes
digits zero v = []
digits (suc k) v = (v / 256 ^ k) % 256 ∷ digits k v

pub pow_pos : (k : ℕ) → 1 ≤ 256 ^ k
pow_pos k = one-le-pow k 256 (omega arith)

pub pow_step : (k : ℕ) → 256 ^ suc k ≡ 256 ^ k * 256
pow_step k = pow-suc 256 k

pub two_pow : (k : ℕ) → 2 ^ (8 * k) ≡ 256 ^ k
two_pow zero = refl
two_pow (suc k) =
    let e : 8 * suc k ≡ 8 * k + 8 = omega arith in
    rw e (simp towards_suc (omega (arith, two_pow k, pow_step k)))

pub length-digits : (k v : ℕ) → length (digits k v) ≡ k
unfolding digits
length-digits zero v = refl
length-digits (suc k) v = ap suc (length-digits k v)

pub digits-IsBytes : (k v : ℕ) → IsBytes (digits k v)
unfolding digits
digits-IsBytes zero v = tt
digits-IsBytes (suc k) v = (omega arith, digits-IsBytes k v)

mod_step : (v p : ℕ) → 1 ≤ p → (v / p) % 256 * p + v % p ≡ v % (p * 256)
mod_step v p h = omega (
  arith,
  div-add-mod v p,
  ap (λ (t : ℕ). p * t) (div-add-mod (v / p) 256),
  div-add-mod v (p * 256),
  ap (λ (t : ℕ). p * 256 * t) (div-div-eq-div-mul v p 256),
)

continued-digits : (k acc v : ℕ) → continued acc (digits k v) ≡ acc * 256 ^ k + v % 256 ^ k
unfolding continued digits
continued-digits zero acc v = omega arith
continued-digits (suc k) acc v = omega (
  arith,
  continued-digits k (acc * 256 + (v / 256 ^ k) % 256) v,
  mod_step v (256 ^ k) (pow_pos k),
  ap (λ (t : ℕ). acc * t) (pow_step k),
  ap (λ (t : ℕ). v % t) (pow_step k),
)

-- The digits of a number stand for it, as far as they reach.
pub value-digits : (k v : ℕ) → value (digits k v) ≡ v % 256 ^ k
unfolding value
value-digits k v = omega (arith, continued-digits k 0 v)

digits_shift : (k x y : ℕ) → digits k (x * 256 ^ k + y) ≡ digits k y
unfolding digits
digits_shift zero x y = refl
digits_shift (suc k) x y = rw regroup (ap₂ ◌∷◌ digit (digits_shift k (x * 256) y))
  where
    regroup : x * 256 ^ suc k + y ≡ (x * 256) * 256 ^ k + y
    regroup = omega (arith, ap (λ (t : ℕ). x * t) (pow_step k))

    digit : ((x * 256) * 256 ^ k + y) / 256 ^ k % 256 ≡ y / 256 ^ k % 256
    digit = omega (arith, mul-add-div_right (pow_pos k) (x * 256) y)

continued_split : (acc : ℕ) (cs : Bytes) → continued acc cs ≡ acc * 256 ^ length cs + value cs
unfolding value continued
continued_split acc [] = omega arith
continued_split acc (c ∷ cs) = omega (
  arith,
  continued_split (acc * 256 + c) cs,
  continued_split (0 * 256 + c) cs,
  ap (λ (t : ℕ). acc * t) (pow_step (length cs)),
)

value-cons : (c : ℕ) (cs : Bytes) → value (c ∷ cs) ≡ c * 256 ^ length cs + value cs
unfolding value continued
value-cons c cs = omega (arith, continued_split (0 * 256 + c) cs)

pub value-lt : (cs : Bytes) → IsBytes cs → value cs < 256 ^ length cs
value-lt [] h = unfold value in omega arith
value-lt (c ∷ cs) h = omega (
  arith,
  value-lt cs h.1,
  value-cons c cs,
  pow_step (length cs),
  mul-le-mul_right (256 ^ length cs) (le_of_byte c h.0),
)
  where
    le_of_byte : (b : ℕ) → b < 256 → b ≤ 255
    le_of_byte b l = omega arith

-- A byte string is the digits of the number that it stands for.
pub digits-value : (cs : Bytes) → IsBytes cs → digits (length cs) (value cs) ≡ cs
unfolding digits
digits-value [] h = refl
digits-value (c ∷ cs) h =
    rw (value-cons c cs)
      (ap₂ ◌∷◌ digit (digits_shift (length cs) c (value cs) ∙ digits-value cs h.1))
  where
    digit : (c * 256 ^ length cs + value cs) / 256 ^ length cs % 256 ≡ c
    digit = omega (
      arith,
      h.0,
      mul-add-div_right (pow_pos (length cs)) c (value cs),
      div-eq_of_lt (value-lt cs h.1),
    )

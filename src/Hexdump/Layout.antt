-- ===== src/Hexdump/Layout.antt =====
-- What a hexdump looks like: a line for every 16 bytes.
use network_project_cs.Common.{
  ◌==◌, refl, ◌%◌, ltb, inl, inr, Bool-cases, true, false, ℕ, zero, suc, ◌+◌, ◌-◌, ◌*◌, ◌/◌, ◌%◌,
  ◌≤◌, ◌<◌, ◌≡◌, refl, Bool, [], ◌∷◌, ◌++◌, Bytes, IsBytes, length, take, drop, length-append,
  replicate, arith,
}
use network_project_cs.Common.Formatting.{fill_left, digits, digits_within, digit}
use network_project_cs.Hexdump.{space, newline, colon}
use network_project_cs.Hexdump.Steps.{hex, spaced, pairs, chars_of}

-- Text filled up with spaces.
abbrev fill_right : (width : ℕ) → Bytes → Bytes
fill_right width s = s ++ replicate (width - length s) space

module _ (isprint : ℕ → Bool) (indent_string : Bytes) where
  -- A line: the offset of its first byte, the bytes in pairs, and from the 44th place after the
  -- colon's gap on, the bytes as characters.
  unfoldable pub line : (offset : ℕ) → Bytes → Bytes
  unfolding pairs hex
  line offset row =
      indent_string
      ++ hex 8 offset
      ++ colon
      ++ fill_right 43 (pairs row)
      ++ chars_of isprint indent_string row
      ++ newline ∷ []

  -- The lines of that many rows.
  unfoldable pub lines : (rows offset : ℕ) → Bytes → Bytes
  unfolding line
  lines zero offset bytes = []
  lines (suc rows) offset [] = []
  lines (suc rows) offset bytes =
      line offset (take 16 bytes) ++ lines rows (offset + 16) (drop 16 bytes)

digits_within-one : (fuel n : ℕ) → n < 16 → digits_within (suc fuel) 16 n ≡ digit n ∷ []
unfolding digits_within
digits_within-one fuel n small = let one : ltb n 16 ≡ true = ground arith in rw one refl

digits_within-more :
    (fuel n : ℕ)
    → 16 ≤ n
    → digits_within (suc fuel) 16 n ≡ digits_within fuel 16 (n / 16) ++ digit (n % 16) ∷ []
unfolding digits_within
digits_within-more fuel n large = let more : ltb n 16 ≡ false = ground arith in rw more refl

length-hex_byte : (b : ℕ) → b < 256 → length (hex 2 b) ≡ 2
unfolding hex fill_left digits
length-hex_byte b byte = elim (Bool-cases (ltb b 16)) [
  | inl one ↦ rw (digits_within-one 31 b (ground arith)) refl
  | inr two ↦
      rw (digits_within-more 31 b (ground arith), digits_within-one 30 (b / 16) (ground arith)) refl
]

length-spaced :
    (bytes : Bytes)
    → IsBytes bytes
    → length (spaced bytes) ≡ 2 * length bytes + (length bytes + 1) / 2
unfolding spaced
length-spaced [] byte = refl
length-spaced (a ∷ []) (x, byte) = omega (arith, length-hex_byte a x)
length-spaced (a ∷ b ∷ bytes) (x, (y, byte)) = omega (
  arith,
  length-hex_byte a x,
  length-hex_byte b y,
  length-append (hex 2 a ++ hex 2 b) (spaced bytes),
  length-append (hex 2 a) (hex 2 b),
  length-spaced bytes byte,
)

length-pairs :
    (bytes : Bytes)
    → IsBytes bytes
    → length (pairs bytes) ≡ 2 * length bytes + (length bytes - 1) / 2
unfolding pairs
length-pairs [] byte = refl
length-pairs (a ∷ []) (x, byte) = omega (arith, length-hex_byte a x)
length-pairs (a ∷ b ∷ bytes) (x, (y, byte)) = omega (
  arith,
  length-hex_byte a x,
  length-hex_byte b y,
  length-append (hex 2 a ++ hex 2 b) (spaced bytes),
  length-append (hex 2 a) (hex 2 b),
  length-spaced bytes byte,
)

pub not_zero : (n : ℕ) → 1 ≤ n → (n == 0) ≡ false
not_zero n some_there = ground arith

pub more_than : (n : ℕ) → ltb 16 n ≡ true → 16 < n
more_than n more = ground arith

-- The width that the code fills up.
pub width-eq :
    (row : Bytes)
    → IsBytes row
    → 1 ≤ length row
    → length row ≤ 16
    → 43 - length (pairs row) ≡ 2 * (16 - length row) + (16 - length row) / 2 + 4
width-eq row byte some_left fits = omega (arith, length-pairs row byte)

-- ===== src/Common/Formatting.antt =====
-- Numbers as text, and the streams of the standard library that the code prints to. Text is its
-- bytes in ASCII.
use Prim.Native.Nat.{ℕ, zero, suc, ◌+◌, ◌-◌, ◌/◌, ◌%◌}
use mathlib.Core.List.{[], ◌∷◌, ◌++◌}
use network_project_cs.Common.Lists.{length, take, drop, replicate}
use network_project_cs.Common.Tests.{ltb, if◌then◌else◌}
use network_project_cs.Common.Words.{Bytes}

-- The digit of a number below 16.
unfoldable pub digit : ℕ → ℕ
digit d = if ltb d 10 then 48 + d else 87 + d

unfoldable pub digits_within : (fuel : ℕ) → (base n : ℕ) → Bytes
unfolding digit
digits_within zero base n = []
digits_within (suc fuel) base n =
    let front = digits_within fuel base (n / base) in
    if ltb n base then digit n ∷ [] else front ++ digit (n % base) ∷ []

-- A number of at most 32 bits has at most 32 digits in any base.
unfoldable pub digits : (base n : ℕ) → Bytes
unfolding digits_within
digits base n = digits_within 32 base n

-- The text filled up on the left.
unfoldable pub fill_left : (fill width : ℕ) → Bytes → Bytes
fill_left fill width s = replicate (width - length s) fill ++ s

-- A `std::ostream`: what has been written to it, the base of its flags, and the fill character. All
-- other flags are the default ones.
pub record Stream : Type 0 where
  pub text : Bytes
  pub base : ℕ
  pub fill : ℕ

unfoldable pub put : Bytes → Stream → Stream
put s out = record out { text = out.text ++ s }

-- `out << setw(width) << n`
unfoldable pub put_number : (width n : ℕ) → Stream → Stream
unfolding put fill_left digits
put_number width n out = put (fill_left out.fill width (digits out.base n)) out

-- A `std::stringstream` with its put position. One that is made from a string, and `str(s)`, put
-- the position at the start.
pub record StringStream : Type 0 where
  pub contents : Bytes
  pub position : ℕ

unfoldable pub of_str : Bytes → StringStream
of_str s = record { contents = s; position = 0 }

-- A character overwrites the one at the put position.
unfoldable pub put_char : ℕ → StringStream → StringStream
put_char c s = record {
  contents = take s.position s.contents ++ c ∷ drop (s.position + 1) s.contents;
  position = s.position + 1;
}

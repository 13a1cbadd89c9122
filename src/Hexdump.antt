-- ===== src/Hexdump.antt =====
-- libsponge/util/util.cc: hexdump. The bytes that it prints are a list, and `isprint` is the
-- function of the C library.
pub mod Steps
pub mod Layout
pub mod Printing
mod Tests
use network_project_cs.Common.{
  ℕ, ◌+◌, ◌-◌, ◌*◌, ◌/◌, ◌%◌, ◌^◌, Bool, List, [], ◌∷◌, ◌++◌, Bytes, Outcome, returns, throws,
  fault, diverges, replicate, ◌==◌, if◌then◌else◌,
}
use network_project_cs.Common.Actions.{Action, ◌>>◌}
use network_project_cs.Common.Formatting.{Stream, put, put_number, StringStream, of_str, put_char}

abbrev pub space : ℕ
space = 32

abbrev pub newline : ℕ
newline = 10

-- The variables of the loop, and `cout`.
pub record Dump : Type 0 where
  pub cout : Stream
  pub pchars : StringStream
  pub printed : ℕ

-- `":    "`
abbrev pub colon : Bytes
colon = 58 ∷ replicate 4 space

-- What is printed before the first byte of a row: the end of the row before, and the offset.
unfoldable pub end_row : Dump → Dump
unfolding put of_str
end_row s = if s.printed == 0 then s else record s {
  cout = put (replicate 4 space ++ s.pchars.contents ++ newline ∷ []) s.cout;
  pchars = of_str (space ∷ []);
}

unfoldable pub start_row : (indent_string : Bytes) → Dump → Dump
unfolding end_row put put_number
start_row indent_string s =
    let s' = end_row s in
    record s' { cout = put colon (put_number 8 s'.printed (put indent_string s'.cout)) }

-- The byte as a character.
unfoldable pub shown : (isprint : ℕ → Bool) → ℕ → ℕ
shown isprint b = if isprint b then b else 46

module _ (isprint : ℕ → Bool) (indent_string : Bytes) where
  unfoldable pub before_byte : Dump → Dump
  unfolding start_row put
  before_byte s =
      if s.printed % 16 == 0
      then start_row indent_string s
      else if s.printed % 2 == 0
      then record s { cout = put (space ∷ []) s.cout }
      else s

  -- The body of the loop; `printed` is an `int`, whose overflow is a fault.
  unfoldable pub show_byte : ℕ → Action Dump (Unit {0})
  unfolding before_byte put_number shown put_char
  show_byte b s =
      let s' = before_byte s in
      let after : Dump = record s' {
        cout = put_number 2 b s'.cout;
        pchars = put_char (shown isprint b) s'.pchars;
      } in
      if s.printed + 1 == 2 ^ 31
      then (fault, after)
      else (returns tt, record after { printed = s.printed + 1 })

  unfoldable pub show_bytes : Bytes → Action Dump (Unit {0})
  unfolding show_byte
  show_bytes [] s = (returns tt, s)
  show_bytes (b ∷ bytes) s = (show_byte b >> show_bytes bytes) s

-- What follows the loop.
unfoldable pub finish : (flags : ℕ) → Outcome (Unit {0}) × Dump → Outcome (Unit {0}) × Stream
unfolding put
finish flags (returns a, s) =
    let print_rem = (16 - s.printed % 16) % 16 in
    let spaces = replicate (2 * print_rem + print_rem / 2 + 4) space in
    (
      returns tt,
      record (put (newline ∷ newline ∷ []) (put (spaces ++ s.pchars.contents) s.cout)) {
        base = flags;
      },
    )
finish flags (throws e, s) = (throws e, s.cout)
finish flags (fault, s) = (fault, s.cout)
finish flags (diverges, s) = (diverges, s.cout)

-- `void hexdump(const uint8_t *bytes, const size_t len, const size_t indent)`
unfoldable pub hexdump :
    (isprint : ℕ → Bool) → (bytes : Bytes) → (indent : ℕ) → Action Stream (Unit {0})
unfolding show_bytes finish of_str
hexdump isprint bytes indent cout = finish cout.base (
    show_bytes isprint (replicate indent space) bytes (record {
      cout = record cout { base = 16; fill = 48 };
      pchars = of_str (space ∷ []);
      printed = 0;
    }))

-- ===== src/Parser/ParseResult.antt =====
-- libsponge/util/parser.hh and parser.cc, enum class ParseResult and `as_string`.
use network_project_cs.Common.{ℕ, ◌≡◌, ◌↔◌, List, [], ◌∷◌, Option, none, String, get_elem?, arith}

pub data ParseResult : Type 0 where
  no_error bad_checksum packet_too_short wrong_ip_version : ParseResult
  header_too_short truncated_packet unsupported : ParseResult

-- `static_cast<size_t>(r)`
unfoldable pub code : ParseResult → ℕ
code no_error = 0
code bad_checksum = 1
code packet_too_short = 2
code wrong_ip_version = 3
code header_too_short = 4
code truncated_packet = 5
code unsupported = 6

abbrev pub names : List String
names =
    "NoError" ∷ "BadChecksum" ∷ "PacketTooShort" ∷ "WrongIPVersion" ∷ "HeaderTooShort"
    ∷ "TruncatedPacket" ∷ []

-- `none` is a read past the end of the array, which C++ leaves undefined.
unfoldable pub as_string : ParseResult → Option String
unfolding code
as_string r = get_elem? names (code r)

-- The table of names is read past its end exactly for `Unsupported`.
pub as_string_fault : (r : ParseResult) → (as_string r ≡ none) ↔ (r ≡ unsupported)
unfolding as_string
as_string_fault no_error = ground arith
as_string_fault _ = ground arith

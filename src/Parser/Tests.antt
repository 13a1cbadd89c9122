-- ===== src/Parser/Tests.antt =====
-- The parser and the unparser on small inputs.
use network_project_cs.Common.{
  take, ◌++◌, List, ◌≡◌, ◌≢◌, ◌↔◌, refl, inl, [], ◌∷◌, Bytes, some, none, ok, arith, length,
  size_sub, size_add, ltb, if◌then◌else◌,
}
use network_project_cs.Buffers.Buffer
use network_project_cs.Buffers.Buffer.{Buffer}
use network_project_cs.Buffers.Buffer.Contents as BufferContents
use network_project_cs.Parser.ParseResult.{
  no_error, bad_checksum, unsupported, packet_too_short, as_string, as_string_fault,
}
use network_project_cs.Parser.NetParser
use network_project_cs.Parser.NetParser.{NetParser}
use network_project_cs.Parser.NetParser.Parsing
use network_project_cs.Parser.NetUnparser
use network_project_cs.Parser.RoundTrip
use network_project_cs.Parser.RoundTrip.{Field, field, write_fields, Reads}

abbrev octets : Bytes
octets = 0xde ∷ 0xad ∷ 0xbe ∷ 0xef ∷ 0x7f ∷ []

abbrev parser : NetParser
parser = NetParser.of_buffer (Buffer.of_string octets)

abbrev failed : NetParser
failed = NetParser.set_error parser bad_checksum

read_32 : (NetParser.u32 parser).0 ≡ ok 0xdead_beef
unfolding NetParser.u32 NetParser.of_buffer Buffer.at Buffer.remove_prefix Buffer.str Buffer.size
    Buffer.of_string size_sub size_add
read_32 = refl

written_16 : NetUnparser.u16 (1 ∷ []) 0xabcd ≡ 1 ∷ 0xab ∷ 0xcd ∷ []
unfolding NetUnparser.u16
written_16 = refl

named : as_string bad_checksum ≡ some "BadChecksum"
unfolding as_string
named = refl

octets-str : Buffer.str (Buffer.of_string octets) ≡ octets
octets-str = BufferContents.str-of_string octets (omega arith)

parser-IsValid : Parsing.IsValid parser
unfolding NetParser.of_buffer
parser-IsValid = record {
  buffer_valid = BufferContents.of_string-IsValid octets (omega arith);
  bytes = rw octets-str (omega arith);
}

parser_clean : parser.error ≡ no_error
unfolding NetParser.of_buffer
parser_clean = refl

parser-rest : Parsing.rest parser ≡ octets
unfolding NetParser.of_buffer
parser-rest = octets-str

as_string_fault_example : (as_string unsupported ≡ none) ↔ (unsupported ≡ unsupported)
as_string_fault_example = as_string_fault unsupported

parse_int-value_example : Parsing.ParsesValue 4 parser
parse_int-value_example =
    Parsing.parse_int-value 4 parser parser-IsValid parser_clean (rw parser-rest (omega arith))

parse_int_error_example : NetParser.parse_int 4 failed ≡ (
  ok 0,
  (if ltb (length (Parsing.rest failed)) 4
      then NetParser.set_error failed packet_too_short
      else failed),
)
parse_int_error_example = Parsing.parse_int_error 4 failed (inl failed_error)
  where
    failed_error : failed.error ≢ no_error
    failed_error = unfold NetParser.set_error in λ e. cc

remove_prefix_checked_example : Parsing.RemovePrefixCases parser 3
remove_prefix_checked_example = Parsing.remove_prefix_checked parser 3 parser-IsValid

abbrev tail : Bytes
tail = 0xbe ∷ 0xef ∷ 0x7f ∷ []

parser_starts : Parsing.rest parser ≡ NetUnparser.unparse_int 2 [] 0xdead ++ tail
unfolding NetUnparser.unparse_int
parser_starts = parser-rest

parse_int-unparse_int_example : (NetParser.parse_int 2 parser).0 ≡ ok 0xdead
parse_int-unparse_int_example =
    (RoundTrip.parse_int-unparse_int 2 0xdead tail parser (omega arith) parser-IsValid parser_clean
      parser_starts).0

unparse_int-parse_int_example :
    NetUnparser.unparse_int 2 [] 0xdead ≡ [] ++ take 2 (Parsing.rest parser)
unparse_int-parse_int_example =
    RoundTrip.unparse_int-parse_int 2 parser 0xdead [] parser-IsValid parser_clean
      (rw parser-rest (omega arith)) parse_int-unparse_int_example

abbrev message : List Field
message = field 2 0xdead ∷ field 1 0xbe ∷ []

message_starts : Parsing.rest parser ≡ write_fields message ++ 0xef ∷ 0x7f ∷ []
unfolding write_fields NetUnparser.unparse_int
message_starts = parser-rest

Reads-write_fields_example :
    (last : NetParser) × Reads parser message last
    × (Parsing.rest last ≡ 0xef ∷ 0x7f ∷ [])
    × (last.error ≡ no_error)
Reads-write_fields_example =
    RoundTrip.Reads-write_fields message (0xef ∷ 0x7f ∷ []) parser (omega arith) parser-IsValid
      parser_clean message_starts

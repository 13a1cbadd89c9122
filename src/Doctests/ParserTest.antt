-- ===== src/Doctests/ParserTest.antt =====
-- doctests/parser_dt.cc and the example that it runs, doctests/parser_example.cc.
pub mod RoundTrip
mod Tests
use network_project_cs.Common.{
  ℕ, ◌^◌, not, ◌||◌, [], ◌∷◌, ◌++◌, Bytes, Result, Outcome, returns, throws, fault, diverges,
  Option, some, none, runtime_error, of_result, ◌==◌, if◌then◌else◌,
}
use network_project_cs.Common.Actions.{Action, ◌>>=◌, pure, raise}
use network_project_cs.Buffers.Buffer
use network_project_cs.Parser.NetParser
use network_project_cs.Parser.NetParser.{NetParser}
use network_project_cs.Parser.NetUnparser
use network_project_cs.Doctests.{exit_of}
use network_project_cs.Webget.{Exit, exit_success, exit_failure}

-- A method of the parser `p`, which is a local variable.
abbrev pub parsing : (NetParser → Result ℕ × NetParser) → Action NetParser ℕ
parsing method p = let (outcome, p') = method p in (of_result outcome, p')

-- `buffer`, with 0x32 at its beginning.
unfoldable pub serialize : (val1 val2 val3 val4 : ℕ) → Bytes
unfolding NetUnparser.u32 NetUnparser.u16 NetUnparser.u8
serialize val1 val2 val3 val4 =
    let buffer : Bytes = [] ++ 0x32 ∷ [] in
    let buffer1 = NetUnparser.u32 buffer val1 in
    let buffer2 = NetUnparser.u16 buffer1 val2 in
    let buffer3 = NetUnparser.u8 buffer2 val3 in NetUnparser.u32 buffer3 val4

unfoldable pub read_back : (val1 val2 val3 val4 : ℕ) → Action NetParser (Unit {0})
unfolding NetParser.u32 NetParser.u16 NetParser.u8
read_back val1 val2 val3 val4 = do
  out0 ← parsing NetParser.u8
  out1 ← parsing NetParser.u32
  out2 ← parsing NetParser.u16
  out3 ← parsing NetParser.u8
  out4 ← parsing NetParser.u32
  if not (out0 == 0x32)
        || not (out1 == val1)
        || not (out2 == val2)
        || not (out3 == val3)
        || not (out4 == val4)
      then raise (runtime_error "bad parse")
      else pure tt

-- The example at any four values, and at its own.
unfoldable pub parser_example_at : (val1 val2 val3 val4 : ℕ) → Outcome (Unit {0})
unfolding serialize read_back NetParser.of_buffer
parser_example_at val1 val2 val3 val4 =
    (read_back val1 val2 val3 val4
      (NetParser.of_buffer (Buffer.of_string (serialize val1 val2 val3 val4)))).0

unfoldable pub parser_example : Outcome (Unit {0})
unfolding parser_example_at
parser_example = parser_example_at 0xdeadbeef 0xc0c0 0xff 0x0c05fefe

unfoldable pub parser_dt : Outcome Exit
unfolding exit_of parser_example
parser_dt = exit_of parser_example

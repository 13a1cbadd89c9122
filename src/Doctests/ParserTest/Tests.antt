-- ===== src/Doctests/ParserTest/Tests.antt =====
-- The example of the parser at its own values.
use network_project_cs.Common.{◌≡◌, refl, returns, arith, ◌∷◌, []}
use network_project_cs.Webget.{exit_success}
use network_project_cs.Doctests.{exit_of}
use network_project_cs.Doctests.ParserTest.{serialize, parser_example_at, parser_example, parser_dt}
use network_project_cs.Doctests.ParserTest.RoundTrip.{parser_example_at-returns}

the_buffer :
    serialize 0xdeadbeef 0xc0c0 0xff 0x0c05fefe
    ≡ 0x32 ∷ 0xde ∷ 0xad ∷ 0xbe ∷ 0xef ∷ 0xc0 ∷ 0xc0 ∷ 0xff ∷ 0x0c ∷ 0x05 ∷ 0xfe ∷ 0xfe ∷ []
unfolding serialize
the_buffer = refl

parser_example_at-returns_example : parser_example_at 0xdeadbeef 0xc0c0 0xff 0x0c05fefe ≡ returns tt
parser_example_at-returns_example =
    parser_example_at-returns 0xdeadbeef 0xc0c0 0xff 0x0c05fefe (omega arith) (omega arith)
      (omega arith) (omega arith)

program_succeeds : parser_dt ≡ returns exit_success
unfolding parser_dt parser_example exit_of
program_succeeds =
    rw
      (parser_example_at-returns 0xdeadbeef 0xc0c0 0xff 0x0c05fefe (omega arith) (omega arith)
        (omega arith) (omega arith))
      refl

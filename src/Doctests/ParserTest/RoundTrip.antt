-- ===== src/Doctests/ParserTest/RoundTrip.antt =====
-- The example of the parser, for all values.
use network_project_cs.Common.{
  size_mod, ◌<◌, ℕ, ◌+◌, ◌≡◌, refl, sym, ap, ◌∙◌, List, [], ◌∷◌, ◌++◌, Bytes, IsBytes, length,
  All-append, length-append, append_assoc, append-nil, arith, ◌^◌, ◌==◌, true, returns,
}
use network_project_cs.Buffers.Buffer
use network_project_cs.Buffers.Buffer.Contents as BufferContents
use network_project_cs.Parser.BigEndian.{digits, length-digits, digits-IsBytes}
use network_project_cs.Parser.ParseResult.{no_error}
use network_project_cs.Parser.NetParser
use network_project_cs.Parser.NetParser.{NetParser, parse_int}
use network_project_cs.Parser.NetParser.Parsing.{IsValid, rest}
use network_project_cs.Parser.NetUnparser
use network_project_cs.Parser.NetUnparser.{unparse_int}
use network_project_cs.Parser.NetUnparser.Unparsing.{unparse_int-digits}
use network_project_cs.Parser.RoundTrip.{Field, field, write_fields, parse_int-unparse_int}
use network_project_cs.Doctests.ParserTest.{read_back, parser_example_at, serialize}

write_after : Bytes → List Field → Bytes
write_after s [] = s
write_after s (field len v ∷ fs) = write_after (unparse_int len s v) fs

write_after-write_fields : (s : Bytes) (fs : List Field) → write_after s fs ≡ s ++ write_fields fs
unfolding write_after write_fields
write_after-write_fields s [] = sym (append-nil s)
write_after-write_fields s (field len v ∷ fs) =
    write_after-write_fields (unparse_int len s v) fs
    ∙ ap (λ t. t ++ write_fields fs)
        (unparse_int-digits len s v ∙ ap (◌++◌ s) (sym (unparse_int-digits len [] v)))
    ∙ append_assoc s (unparse_int len [] v) (write_fields fs)

write_fields-IsBytes : (fs : List Field) → IsBytes (write_fields fs)
unfolding write_fields
write_fields-IsBytes [] = tt
write_fields-IsBytes (field len v ∷ fs) =
    rw (unparse_int-digits len [] v) (
      All-append _ (digits len v) (write_fields fs) (digits-IsBytes len v)
        (write_fields-IsBytes fs))

width : List Field → ℕ
width [] = 0
width (field len v ∷ fs) = len + width fs

length-write_fields : (fs : List Field) → length (write_fields fs) ≡ width fs
unfolding write_fields width
length-write_fields [] = refl
length-write_fields (field len v ∷ fs) = rw (unparse_int-digits len [] v) (
    omega (
      arith,
      length-append (digits len v) (write_fields fs),
      length-digits len v,
      length-write_fields fs,
    ))

abbrev message : (val1 val2 val3 val4 : ℕ) → List Field
message val1 val2 val3 val4 =
    field 1 0x32 ∷ field 4 val1 ∷ field 2 val2 ∷ field 1 val3 ∷ field 4 val4 ∷ []

serialize-write_fields :
    (val1 val2 val3 val4 : ℕ)
    → serialize val1 val2 val3 val4 ≡ write_fields (message val1 val2 val3 val4)
unfolding serialize write_after write_fields NetUnparser.u32 NetUnparser.u16 NetUnparser.u8 digits
serialize-write_fields val1 val2 val3 val4 =
    write_after-write_fields (0x32 ∷ [])
      (field 4 val1 ∷ field 2 val2 ∷ field 1 val3 ∷ field 4 val4 ∷ [])
    ∙ ap (λ t. t ++ write_fields (field 4 val1 ∷ field 2 val2 ∷ field 1 val3 ∷ field 4 val4 ∷ []))
        (sym (unparse_int-digits 1 [] 0x32))

module _ (val1 val2 val3 val4 : ℕ) where
  start : NetParser
  start = NetParser.of_buffer (Buffer.of_string (serialize val1 val2 val3 val4))

  small : length (serialize val1 val2 val3 val4) < size_mod
  unfolding width
  small =
      rw (serialize-write_fields val1 val2 val3 val4)
        (rw (length-write_fields (message val1 val2 val3 val4)) (omega arith))

  start-rest : rest start ≡ write_fields (message val1 val2 val3 val4)
  unfolding start NetParser.of_buffer
  start-rest =
      BufferContents.str-of_string (serialize val1 val2 val3 val4) small
      ∙ serialize-write_fields val1 val2 val3 val4

  start-IsValid : IsValid start
  unfolding start NetParser.of_buffer
  start-IsValid = record {
    buffer_valid = BufferContents.of_string-IsValid (serialize val1 val2 val3 val4) small;
    bytes = rw (BufferContents.str-of_string (serialize val1 val2 val3 val4) small) (
        rw (serialize-write_fields val1 val2 val3 val4)
          (write_fields-IsBytes (message val1 val2 val3 val4)));
  }

  start-error : start.error ≡ no_error
  unfolding start NetParser.of_buffer
  start-error = refl

  read_back-returns :
      (p0 : NetParser)
      → val1 < 2 ^ 32
      → val2 < 2 ^ 16
      → val3 < 2 ^ 8
      → val4 < 2 ^ 32
      → IsValid p0
      → p0.error ≡ no_error
      → rest p0 ≡ write_fields (message val1 val2 val3 val4)
      → (read_back val1 val2 val3 val4 p0).0 ≡ returns tt
  unfolding read_back write_fields NetParser.u32 NetParser.u16 NetParser.u8
  read_back-returns p0 fits1 fits2 fits3 fits4 valid clean left =
      let rest4 = unparse_int 4 [] val4 ++ [] in
      let rest3 = unparse_int 1 [] val3 ++ rest4 in
      let rest2 = unparse_int 2 [] val2 ++ rest3 in
      let rest1 = unparse_int 4 [] val1 ++ rest2 in
      let p1 = (parse_int 1 p0).1 in
      let p2 = (parse_int 4 p1).1 in
      let p3 = (parse_int 2 p2).1 in
      let p4 = (parse_int 1 p3).1 in
      let (read0, left0, clean0, valid0) =
        parse_int-unparse_int 1 0x32 rest1 p0 (omega arith) valid clean left in
      let (read1, left1, clean1, valid1) =
        parse_int-unparse_int 4 val1 rest2 p1 fits1 valid0 clean0 left0 in
      let (read2, left2, clean2, valid2) =
        parse_int-unparse_int 2 val2 rest3 p2 fits2 valid1 clean1 left1 in
      let (read3, left3, clean3, valid3) =
        parse_int-unparse_int 1 val3 rest4 p3 fits3 valid2 clean2 left2 in
      let (read4, left4, clean4, valid4) =
        parse_int-unparse_int 4 val4 [] p4 fits4 valid3 clean3 left3 in
      rw (read0, read1, read2, read3, read4) (rw (same val1, same val2, same val3, same val4) refl)
    where
      same : (n : ℕ) → (n == n) ≡ true
      same n = ground arith

  -- Any four values that fit their types are read back as they were written.
  pub parser_example_at-returns :
      val1 < 2 ^ 32
      → val2 < 2 ^ 16
      → val3 < 2 ^ 8
      → val4 < 2 ^ 32
      → parser_example_at val1 val2 val3 val4 ≡ returns tt
  unfolding parser_example_at start
  parser_example_at-returns fits1 fits2 fits3 fits4 =
      read_back-returns start fits1 fits2 fits3 fits4 start-IsValid start-error start-rest

-- ===== src/Parser/RoundTrip.antt =====
-- Reading what NetUnparser wrote, and writing what NetParser read.
use network_project_cs.Common.{
  All-take, ap₂, append_assoc, ℕ, ◌*◌, ◌%◌, ◌^◌, ◌≤◌, ◌<◌, ◌≡◌, ap, ◌∙◌, List, [], ◌∷◌, ◌++◌, Bytes,
  ok, arith, length, take, drop, All, length-append, length-take, take_all, take-append_left,
  drop-append_right,
}
use native.Mathlib.Nat.{mod-eq_of_lt}
use network_project_cs.Parser.BigEndian.{
  value, digits, value-digits, digits-value, length-digits, two_pow,
}
use network_project_cs.Parser.ParseResult.{no_error}
use network_project_cs.Parser.NetParser.{NetParser, parse_int}
use network_project_cs.Parser.NetParser.Parsing.{IsValid, rest, parse_int-value}
use network_project_cs.Parser.NetUnparser.{unparse_int}
use network_project_cs.Parser.NetUnparser.Unparsing.{unparse_int-digits}

-- What stands in the parser's buffer after the value that `unparse_int` has written.
take_written : (len v : ℕ) (more : Bytes) → take len (digits len v ++ more) ≡ digits len v
take_written len v more =
    take-append_left len (digits len v) more (omega (arith, length-digits len v))
    ∙ take_all len (digits len v) (omega (arith, length-digits len v))

drop_written : (len v : ℕ) (more : Bytes) → drop len (digits len v ++ more) ≡ more
drop_written len v more =
    drop-append_right len (digits len v) more (omega (arith, length-digits len v))
    ∙ ap (λ k. drop k more) {y = 0} (omega (arith, length-digits len v))

-- A parser without error whose buffer begins with an unparsed value reads that value back, takes
-- just its bytes, and is left without error at what follows.
pub parse_int-unparse_int :
    (len v : ℕ) (more : Bytes) (p : NetParser)
    → v < 2 ^ (8 * len)
    → IsValid p
    → p.error ≡ no_error
    → rest p ≡ unparse_int len [] v ++ more
    → (let (outcome, p') = parse_int len p in
        (outcome ≡ ok v) × (rest p' ≡ more) × (p'.error ≡ no_error) × IsValid p')
parse_int-unparse_int len v more p fits valid e r =
    let found : rest p ≡ digits len v ++ more =
      r ∙ ap (λ t. t ++ more) (unparse_int-digits len [] v) in
    let enough : len ≤ length (rest p) =
      omega (arith, ap length found, length-append (digits len v) more, length-digits len v) in
    let taken = ap (take len) found ∙ take_written len v more in
    let (done, left, clean, still) = parse_int-value len p valid e enough in
    (
      done ∙ ap ok (ap value taken ∙ value-digits len v ∙ same),
      left ∙ ap (drop len) found ∙ drop_written len v more,
      clean,
      still,
    )
  where
    same : v % 256 ^ len ≡ v
    same = mod-eq_of_lt (rw (two_pow len) at fits)

-- Writing the number just read appends the bytes that it was read from.
pub unparse_int-parse_int :
    (len : ℕ) (p : NetParser) (v : ℕ) (s : Bytes)
    → IsValid p
    → p.error ≡ no_error
    → len ≤ length (rest p)
    → (parse_int len p).0 ≡ ok v
    → unparse_int len s v ≡ s ++ take len (rest p)
unparse_int-parse_int len p v s valid e h read = unparse_int-digits len s v ∙ ap (◌++◌ s) again
  where
    parsed : v ≡ value (take len (rest p))
    parsed = cc ((parse_int-value len p valid e h).0)

    again : digits len v ≡ take len (rest p)
    again =
        ap₂ digits {y = length (take len (rest p))} (omega (arith, length-take len (rest p))) parsed
        ∙ digits-value (take len (rest p)) (All-take _ len (rest p) valid.bytes)

-- A message is a list of fields, each with its width in bytes.
pub data Field : Type 0 where
  field : ℕ → ℕ → Field

abbrev pub Fits : Field → Type 0
Fits (field len v) = v < 2 ^ (8 * len)

unfoldable pub write_fields : List Field → Bytes
write_fields [] = []
write_fields (field len v ∷ fs) = unparse_int len [] v ++ write_fields fs

-- The fields are read one after another by their widths. `Reads` says that every call returns the
-- field's value without an exception, and that `last` is the parser after the last call.
pub data Reads : NetParser → List Field → NetParser → Type 0 where
  done : (p : NetParser) → Reads p [] p
  next :
      {p last : NetParser} (len v : ℕ) (fs : List Field)
      → (parse_int len p).0 ≡ ok v
      → Reads (parse_int len p).1 fs last
      → Reads p (field len v ∷ fs) last

-- Every message that was written field by field is read back field by field, whatever follows it
-- in the buffer; the parser ends without error at what follows.
pub Reads-write_fields :
    (fs : List Field) (more : Bytes) (p : NetParser)
    → All Fits fs
    → IsValid p
    → p.error ≡ no_error
    → rest p ≡ write_fields fs ++ more
    → (last : NetParser) × Reads p fs last × (rest last ≡ more) × (last.error ≡ no_error)
unfolding write_fields
Reads-write_fields [] more p fits valid e r = (p, done p, r, e)
Reads-write_fields (field len v ∷ fs) more p fits valid e r =
    let (value_read, left, clean, still) =
      parse_int-unparse_int len v (write_fields fs ++ more) p fits.0 valid e
        (r ∙ append_assoc (unparse_int len [] v) (write_fields fs) more) in
    let (last, reads, at_more, no_errors) =
      Reads-write_fields fs more (parse_int len p).1 fits.1 still clean left in
    (last, next len v fs value_read reads, at_more, no_errors)

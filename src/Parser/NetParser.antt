-- ===== src/Parser/NetParser.antt =====
-- libsponge/util/parser.hh and parser.cc, class NetParser. A method that may throw returns its
-- outcome beside the parser. An unsigned type of `len` bytes holds the numbers below 2 ^ (8 * len).
pub mod Parsing
use network_project_cs.Common.{
  ℕ, zero, suc, ◌+◌, ◌*◌, ◌%◌, ◌^◌, Bool, true, false, Result, ok, throw, ltb, if◌then◌else◌, ◌>>=◌,
}
use network_project_cs.Buffers.Buffer
use network_project_cs.Buffers.Buffer.{Buffer}
use network_project_cs.Parser.ParseResult.{
  ParseResult, no_error, bad_checksum, packet_too_short, wrong_ip_version, header_too_short,
  truncated_packet, unsupported,
}

pub record NetParser : Type 0 where
  pub buffer : Buffer
  pub error : ParseResult

unfoldable pub of_buffer : Buffer → NetParser
of_buffer b = record { buffer = b; error = no_error }

-- `get_error() != ParseResult::NoError`
unfoldable pub is_error : ParseResult → Bool
is_error no_error = false
is_error _ = true

unfoldable pub set_error : NetParser → ParseResult → NetParser
set_error p res = record p { error = res }

unfoldable pub check_size : NetParser → ℕ → NetParser
unfolding set_error
check_size p size = if ltb (Buffer.size p.buffer) size then set_error p packet_too_short else p

-- `ret <<= 8; ret += uint8_t(_buffer.at(i));` for the `left` indices from `i` on.
digits_loop : ℕ → Buffer → ℕ → ℕ → ℕ → Result ℕ
digits_loop len b zero i ret = ok ret
digits_loop len b (suc left) i ret = do
  c ← Buffer.at b i
  digits_loop len b left (i + 1) ((ret * 2 ^ 8 % 2 ^ (8 * len) + c) % 2 ^ (8 * len))

-- `_buffer.remove_prefix(len);` and the return of `a`.
discard {ℓ} : {A : Type ℓ} → NetParser → ℕ → A → Result A × NetParser
discard p len a =
    let (outcome, b) = Buffer.remove_prefix p.buffer len in
    (outcome >>= λ _. ok a, record p { buffer = b })

parse_checked : ℕ → NetParser → Result ℕ × NetParser
unfolding is_error digits_loop discard
parse_checked len p =
    if is_error p.error then (ok 0, p) else (elim (digits_loop len p.buffer len 0 0) [
      | ok ret ↦ discard p len ret
      | throw e ↦ (throw e, p)
    ])

-- `_parse_int<T>` at a type of `len` bytes.
unfoldable pub parse_int : ℕ → NetParser → Result ℕ × NetParser
unfolding check_size parse_checked
parse_int len p = parse_checked len (check_size p len)

unfoldable pub u32 : NetParser → Result ℕ × NetParser
unfolding parse_int
u32 p = parse_int 4 p

unfoldable pub u16 : NetParser → Result ℕ × NetParser
unfolding parse_int
u16 p = parse_int 2 p

unfoldable pub u8 : NetParser → Result ℕ × NetParser
unfolding parse_int
u8 p = parse_int 1 p

remove_checked : NetParser → ℕ → Result (Unit {0}) × NetParser
unfolding is_error discard
remove_checked p n = if is_error p.error then (ok tt, p) else discard p n tt

unfoldable pub remove_prefix : NetParser → ℕ → Result (Unit {0}) × NetParser
unfolding check_size remove_checked
remove_prefix p n = remove_checked (check_size p n) n

-- ===== src/Parser.antt =====
-- libsponge/util/parser.hh and parser.cc: reading and writing integers in network byte order.
pub mod BigEndian
pub mod ParseResult
pub mod NetParser
pub mod NetUnparser
pub mod RoundTrip
mod Tests

-- ===== src/ByteStream.antt =====
-- libsponge/byte_stream.hh and byte_stream.cc: ByteStream, whose methods but two are placeholders.
mod Tests
use network_project_cs.Common.{ℕ, Bool, true, false, [], Bytes}

pub record ByteStream : Type 0 where
  pub error : Bool

-- `ByteStream(const size_t capacity)`
unfoldable pub create : (capacity : ℕ) → ByteStream
create capacity = record { error = false }

unfoldable pub write : ByteStream → (written : Bytes) → ℕ × ByteStream
write s written = (0, s)

unfoldable pub remaining_capacity : ByteStream → ℕ
remaining_capacity s = 0

unfoldable pub end_input : ByteStream → ByteStream
end_input s = s

unfoldable pub set_error : ByteStream → ByteStream
set_error s = record s { error = true }

unfoldable pub peek_output : ByteStream → (len : ℕ) → Bytes
peek_output s len = []

unfoldable pub pop_output : ByteStream → (len : ℕ) → ByteStream
pop_output s len = s

unfoldable pub read : ByteStream → (len : ℕ) → Bytes × ByteStream
read s len = ([], s)

unfoldable pub input_ended : ByteStream → Bool
input_ended s = false

unfoldable pub buffer_size : ByteStream → ℕ
buffer_size s = 0

unfoldable pub buffer_empty : ByteStream → Bool
buffer_empty s = false

unfoldable pub eof : ByteStream → Bool
eof s = false

unfoldable pub bytes_written : ByteStream → ℕ
bytes_written s = 0

unfoldable pub bytes_read : ByteStream → ℕ
bytes_read s = 0

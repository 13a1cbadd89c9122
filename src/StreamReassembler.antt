-- ===== src/StreamReassembler.antt =====
-- libsponge/stream_reassembler.hh and stream_reassembler.cc: StreamReassembler, whose methods but
-- the accessors are placeholders.
mod Tests
use network_project_cs.Common.{ℕ, Bool, false, Bytes}
use network_project_cs.ByteStream
use network_project_cs.ByteStream.{ByteStream}

pub record StreamReassembler : Type 0 where
  pub output : ByteStream
  pub capacity : ℕ

-- `StreamReassembler(const size_t capacity)`
unfoldable pub create : (capacity : ℕ) → StreamReassembler
create capacity = record { output = ByteStream.create capacity; capacity = capacity }

unfoldable pub push_substring :
    StreamReassembler → (substring : Bytes) (index : ℕ) (eof : Bool) → StreamReassembler
push_substring r substring index eof = r

unfoldable pub unassembled_bytes : StreamReassembler → ℕ
unassembled_bytes r = 0

unfoldable pub empty : StreamReassembler → Bool
empty r = false

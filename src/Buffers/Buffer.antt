-- ===== src/Buffers/Buffer.antt =====
-- libsponge/util/buffer.hh and buffer.cc, class Buffer: a read-only string behind a `shared_ptr`,
-- with a starting offset. The string is never written, so copies that share it are plain copies.
pub mod Contents
use network_project_cs.Common.{
  ℕ, ◌%◌, ◌^◌, ◌≤◌, ◌<◌, ◌≡◌, Bytes, [], Option, none, some, Result, ok, throw, out_of_range,
  length, get_elem?, take, drop, ltb, ◌==◌, if◌then◌else◌, size_mod, size_add, size_sub,
}

pub record Buffer : Type 0 where
  pub storage : Option Bytes
  pub starting_offset : ℕ

-- `Buffer()`, and `Buffer(std::string &&str)`.
unfoldable pub empty : Buffer
empty = record { storage = none; starting_offset = 0 }

unfoldable pub of_string : Bytes → Buffer
of_string s = record { storage = some s; starting_offset = 0 }

-- The view `{_storage->data() + off, _storage->size() - off}`.
unfoldable pub view_from : Option Bytes → ℕ → Bytes
view_from none off = []
view_from (some s) off = take (size_sub (length s) off) (drop off s)

unfoldable pub str : Buffer → Bytes
unfolding view_from
str b = view_from b.storage b.starting_offset

unfoldable pub size : Buffer → ℕ
size b = length (str b)

unfoldable pub copy : Buffer → Bytes
copy b = str b

-- `std::string_view::at` throws past the end.
byte_or_throw : Option ℕ → Result ℕ
byte_or_throw none = throw (out_of_range "basic_string_view::at")
byte_or_throw (some c) = ok (c % 2 ^ 8)

unfoldable pub at : Buffer → ℕ → Result ℕ
unfolding byte_or_throw
at b n = byte_or_throw (get_elem? (str b) n)

-- `if (_storage and _starting_offset == _storage->size()) _storage.reset();`
release : Option Bytes → ℕ → Option Bytes
release none off = none
release (some s) off = if off == length s then none else some s

unfoldable pub remove_prefix : Buffer → ℕ → Result (Unit {0}) × Buffer
unfolding release
remove_prefix b n =
    if ltb (size b) n
    then (throw (out_of_range "Buffer::remove_prefix"), b)
    else (let off = size_add b.starting_offset n in
        (ok tt, record { storage = release b.storage off; starting_offset = off }))

-- The offset lies in the string, and the string fits the address space.
abbrev Fits : Option Bytes → ℕ → Type 0
Fits none off = off < size_mod
Fits (some s) off = (off ≤ length s) × (length s < size_mod)

abbrev pub IsValid : Buffer → Type 0
IsValid b = Fits b.storage b.starting_offset

-- The string has been given back.
abbrev pub IsReleased : Buffer → Type 0
IsReleased b = b.storage ≡ none

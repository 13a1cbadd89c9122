-- ===== src/Buffers/BufferList.antt =====
-- libsponge/util/buffer.hh and buffer.cc, class BufferList: a queue of Buffers.
pub mod Contents
use network_project_cs.Common.{
  ℕ, List, [], ◌∷◌, ◌++◌, Bytes, Result, ok, throw, out_of_range, runtime_error, ltb, ◌==◌,
  if◌then◌else◌, size_add, size_sub,
}
use network_project_cs.Buffers.Buffer
use network_project_cs.Buffers.Buffer.{Buffer}

pub record BufferList : Type 0 where
  pub buffers : List Buffer

unfoldable pub empty : BufferList
empty = record { buffers = [] }

unfoldable pub of_buffer : Buffer → BufferList
of_buffer b = record { buffers = b ∷ [] }

-- `for (const auto &buf : other._buffers) { _buffers.push_back(buf); }`
push_back_all : List Buffer → List Buffer → List Buffer
push_back_all bufs [] = bufs
push_back_all bufs (b ∷ bs) = push_back_all (bufs ++ b ∷ []) bs

-- The two lists are distinct objects.
unfoldable pub append : BufferList → BufferList → BufferList
unfolding push_back_all
append l other = record { buffers = push_back_all l.buffers other.buffers }

-- `BufferList(std::string &&str)`
unfoldable pub of_string : Bytes → BufferList
unfolding append empty of_buffer Buffer.of_string
of_string s = append empty (of_buffer (Buffer.of_string s))

only_buffer : List Buffer → Result Buffer
only_buffer [] = ok Buffer.empty
only_buffer (b ∷ []) = ok b
only_buffer (b ∷ c ∷ bs) = throw (
    runtime_error
      "BufferList: please use concatenate() to combine a multi-Buffer BufferList into one Buffer")

-- `operator Buffer()`
unfoldable pub to_buffer : BufferList → Result Buffer
unfolding only_buffer
to_buffer l = only_buffer l.buffers

append_strings : Bytes → List Buffer → Bytes
append_strings ret [] = ret
append_strings ret (b ∷ bs) = append_strings (ret ++ Buffer.str b) bs

unfoldable pub concatenate : BufferList → Bytes
unfolding append_strings
concatenate l = append_strings [] l.buffers

add_sizes : ℕ → List Buffer → ℕ
add_sizes ret [] = ret
add_sizes ret (b ∷ bs) = add_sizes (size_add ret (Buffer.size b)) bs

unfoldable pub size : BufferList → ℕ
unfolding add_sizes
size l = add_sizes 0 l.buffers

-- `_buffers.front().remove_prefix(n); n = 0;`
shrink_front : Buffer → List Buffer → ℕ → Result (Unit {0}) × List Buffer
shrink_front b bs n = let (outcome, b') = Buffer.remove_prefix b n in (outcome, b' ∷ bs)

-- The loop of `remove_prefix`, with the queue that it leaves.
remove_loop : List Buffer → ℕ → Result (Unit {0}) × List Buffer
unfolding shrink_front
remove_loop [] n =
    if n == 0 then (ok tt, []) else (throw (out_of_range "BufferList::remove_prefix"), [])
remove_loop (b ∷ bs) n =
    let rest = remove_loop bs (size_sub n (Buffer.size b)) in
    if n == 0
    then (ok tt, b ∷ bs)
    else (if ltb n (Buffer.size b) then shrink_front b bs n else rest)

unfoldable pub remove_prefix : BufferList → ℕ → Result (Unit {0}) × BufferList
unfolding remove_loop
remove_prefix l n =
    let (outcome, bufs) = remove_loop l.buffers n in (outcome, record { buffers = bufs })

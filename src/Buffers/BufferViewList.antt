-- ===== src/Buffers/BufferViewList.antt =====
-- libsponge/util/buffer.hh and buffer.cc, class BufferViewList: a queue of string views, and its
-- `iovec`s. A view is the bytes that it shows; the strings behind it are not written meanwhile.
pub mod Contents
use network_project_cs.Common.{
  up_to_nul, ℕ, zero, suc, List, [], ◌∷◌, ◌++◌, Bytes, Result, ok, throw, out_of_range, length,
  drop, ltb, ◌==◌, if◌then◌else◌, size_add, size_sub,
}
use network_project_cs.Buffers.Buffer
use network_project_cs.Buffers.Buffer.{Buffer}
use network_project_cs.Buffers.BufferList.{BufferList}

pub record BufferViewList : Type 0 where
  pub views : List Bytes

-- `BufferViewList(std::string_view str)`, and `BufferViewList(const std::string &str)` through it.
unfoldable pub of_view : Bytes → BufferViewList
of_view s = record { views = s ∷ [] }

-- `std::string_view(const char *)`: `memory` is what the pointer points to.
unfoldable pub of_c_string : Bytes → BufferViewList
unfolding up_to_nul of_view
of_c_string memory = of_view (up_to_nul memory)

push_views : List Bytes → List Buffer → List Bytes
push_views vs [] = vs
push_views vs (b ∷ bs) = push_views (vs ++ Buffer.str b ∷ []) bs

-- `BufferViewList(const BufferList &buffers)`
unfoldable pub of_buffer_list : BufferList → BufferViewList
unfolding push_views
of_buffer_list l = record { views = push_views [] l.buffers }

remove_loop : List Bytes → ℕ → Result (Unit {0}) × List Bytes
remove_loop [] n =
    if n == 0 then (ok tt, []) else (throw (out_of_range "BufferListView::remove_prefix"), [])
remove_loop (v ∷ vs) n =
    let rest = remove_loop vs (size_sub n (length v)) in
    if n == 0 then (ok tt, v ∷ vs) else (if ltb n (length v) then (ok tt, drop n v ∷ vs) else rest)

unfoldable pub remove_prefix : BufferViewList → ℕ → Result (Unit {0}) × BufferViewList
unfolding remove_loop
remove_prefix l n = let (outcome, vs) = remove_loop l.views n in (outcome, record { views = vs })

add_sizes : ℕ → List Bytes → ℕ
add_sizes ret [] = ret
add_sizes ret (v ∷ vs) = add_sizes (size_add ret (length v)) vs

unfoldable pub size : BufferViewList → ℕ
unfolding add_sizes
size l = add_sizes 0 l.views

-- `struct iovec`; the pointer is given by the bytes from it on.
pub record Iovec : Type 0 where
  pub iov_base : Bytes
  pub iov_len : ℕ

push_iovecs : List Iovec → List Bytes → List Iovec
push_iovecs ret [] = ret
push_iovecs ret (v ∷ vs) = push_iovecs (ret ++ record { iov_base = v; iov_len = length v } ∷ []) vs

unfoldable pub as_iovecs : BufferViewList → List Iovec
unfolding push_iovecs
as_iovecs l = push_iovecs [] l.views

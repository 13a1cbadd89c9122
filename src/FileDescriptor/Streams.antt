-- ===== src/FileDescriptor/Streams.antt =====
-- Two descriptors that are the two ends of a stream: what is written at the one is read
-- at the other.
pub mod Moves
pub mod InOrder
mod Tests
use network_project_cs.Common.{
  ℕ, suc, ℤ, pos, negsuc, ◌≡◌, ◌≢◌, ◌≤◌, ◌<◌, ◌^◌, refl, sym, ap, ap₂, ◌∙◌, List, [], ◌∷◌, ◌++◌,
  Bytes, length, take, drop, min, map, some, get_elem?, set, All, true, int_of_ssize, narrow,
  append-nil, append_assoc, take-append-drop, arith, Outcome, returns, throws, fault, diverges,
  set-get_elem?, some-inj, ◌==◌, zero,
}
use network_project_cs.Common.Actions.{Ends, Leaves, bind-Ends, Ends-weaken, ◌>>=◌, pure}
use network_project_cs.Buffers.BufferViewList
use network_project_cs.Buffers.BufferViewList.{BufferViewList, Iovec}
use network_project_cs.Buffers.BufferViewList.Contents
use network_project_cs.Kernel.{Kernel}
use network_project_cs.Machine.{FdWrapper, Machine, M}
use network_project_cs.FileDescriptor.{read, read_into, write, buffer_size}
use network_project_cs.FileDescriptor.Handles.{IsLive}
use network_project_cs.FileDescriptor.Reading.{answer, read_returns, read_fails}
use network_project_cs.FileDescriptor.Transfers.{IsStored}
use network_project_cs.FileDescriptor.Transfers.Reads.{read_into-Tame}
use network_project_cs.FileDescriptor.Transfers.Writes.{write-Tame}
use network_project_cs.FileDescriptor.WriteAll

-- A stream from the descriptor `out` to the descriptor `inp`, with all bytes that were accepted and
-- delivered so far. The laws are those of writev(2) and read(2), and that the bytes come in order.
pub record Stream (K : Kernel) (out inp : ℤ) : Type 0 where
  pub accepted : K.State → Bytes
  pub delivered : K.State → Bytes
  pub at_most :
      (iovs : List Iovec) (k : K.State) (n : ℕ)
      → (K.writev out iovs k).0.value ≡ pos n
      → n ≤ 0x7ffff000
  pub write_failure :
      (iovs : List Iovec) (k : K.State) (n : ℕ) → (K.writev out iovs k).0.value ≡ negsuc n → n ≡ 0
  pub writes :
      (iovs : List Iovec) (k : K.State) (n : ℕ)
      → (K.writev out iovs k).0.value ≡ pos n
      → (accepted (K.writev out iovs k).1 ≡ accepted k ++ take n (Contents.gather iovs))
        × (delivered (K.writev out iovs k).1 ≡ delivered k)
  pub reads :
      (size : ℕ) (k : K.State) (n : ℕ)
      → (K.read inp size k).0.0.value ≡ pos n
      → (length (K.read inp size k).0.1 ≡ n)
        × (n ≤ size)
        × (delivered (K.read inp size k).1 ≡ delivered k ++ (K.read inp size k).0.1)
        × (accepted (K.read inp size k).1 ≡ accepted k)
  pub read_failure :
      (size : ℕ) (k : K.State) (n : ℕ)
      → (K.read inp size k).0.0.value ≡ negsuc n
      → (n ≡ 0) × ((K.read inp size k).0.0.errno ≢ 0)
  pub in_order : (k : K.State) → (left : Bytes) × (accepted k ≡ delivered k ++ left)

-- A call of `write`, of all bytes, or of `read`.
pub data Transfer : Type 0 where
  sends : BufferViewList → Transfer
  receives : (limit : ℕ) → Transfer

abbrev pub IsSmall : Transfer → Type 0
IsSmall (sends buffer) = length (Contents.contents buffer) < 2 ^ 63
IsSmall (receives limit) = Unit {0}

-- The calls of `write` through `h1` and of `read` through `h2`, and all that was read.
module _ {K : Kernel} (h1 h2 : ℕ) where
  unfoldable pub transfer_all : List Transfer → M K Bytes
  transfer_all [] = pure []
  transfer_all (sends buffer ∷ ts) = do written ← write h1 buffer true; transfer_all ts
  transfer_all (receives limit ∷ ts) = do
    str ← read h2 limit
    rest ← transfer_all ts
    pure (str ++ rest)

abbrev pub sent_all : List Transfer → Bytes
sent_all [] = []
sent_all (sends buffer ∷ ts) = Contents.contents buffer ++ sent_all ts
sent_all (receives limit ∷ ts) = sent_all ts

-- The number and the owners of each object.
abbrev pub tags : List FdWrapper → List (ℤ × ℕ)
tags ws = map (λ x. (x.fd, x.use_count)) ws

pub tags-found :
    (ws : List FdWrapper) (h : ℕ) {t : ℤ × ℕ}
    → get_elem? (tags ws) h ≡ some t
    → (x : FdWrapper) × (get_elem? ws h ≡ some x) × ((x.fd, x.use_count) ≡ t)
tags-found [] h found = absurd cc
tags-found (y ∷ ws) zero found = (y, refl, some-inj found)
tags-found (y ∷ ws) (suc h) found = tags-found ws h found

pub tags-get_elem? :
    (ws : List FdWrapper) (h : ℕ) {x : FdWrapper}
    → get_elem? ws h ≡ some x
    → get_elem? (tags ws) h ≡ some (x.fd, x.use_count)
tags-get_elem? [] h found = absurd cc
tags-get_elem? (y ∷ ws) zero found = ap (λ x. some (x.fd, x.use_count)) (some-inj found)
tags-get_elem? (y ∷ ws) (suc h) found = tags-get_elem? ws h found

tags-set :
    (ws : List FdWrapper) (h : ℕ) (y : FdWrapper)
    → tags (set ws h y) ≡ set (tags ws) h (y.fd, y.use_count)
tags-set [] h y = refl
tags-set (x ∷ ws) zero y = refl
tags-set (x ∷ ws) (suc h) y = ap (◌∷◌ (x.fd, x.use_count)) (tags-set ws h y)

pub tags-IsStored : (ts : List (ℤ × ℕ)) → IsStored (λ ws. tags ws ≡ ts)
tags-IsStored ts ws h x y kept found evolves sound same =
    tags-set ws h y
    ∙ ap (set (tags ws) h) (ap₂ (λ fd n. (fd, n)) evolves.0 same)
    ∙ set-get_elem? (tags ws) h (tags-get_elem? ws h found)
    ∙ kept

pub append_cancel : (xs ys zs : Bytes) → xs ++ ys ≡ xs ++ zs → ys ≡ zs
append_cancel [] ys zs e = e
append_cancel (x ∷ xs) ys zs e = append_cancel xs ys zs (ap (drop 1) e)

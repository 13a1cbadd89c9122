-- ===== src/Address.antt =====
-- libsponge/util/address.hh and address.cc: socket addresses as byte images. The layouts of
-- `sockaddr_storage` and `sockaddr_in` are the system's.
pub mod Numeric
pub mod Resolver
mod Tests
use network_project_cs.Common.{
  ℕ, ◌%◌, ◌^◌, Bool, true, false, not, ◌&&◌, ◌||◌, List, [], ◌∷◌, ◌++◌, Bytes, Result, ok, throw,
  runtime_error, take, drop, replicate, ltb, ◌==◌, if◌then◌else◌,
}

-- `struct sockaddr_in`, with the members that are used: `s_addr` is `sin_addr.s_addr`.
pub record SockaddrIn : Type 0 where
  pub sin_family : ℕ
  pub s_addr : ℕ

-- The system's structures: their sizes, the image of a `sockaddr_in` in which nothing else is set,
-- and what the members of an image read as; and the two conversions of <endian.h>.
pub record Layout : Type 0 where
  pub storage_size : ℕ
  pub sockaddr_in_size : ℕ
  pub af_inet : ℕ
  pub ss_family : Bytes → ℕ
  pub image_in : SockaddrIn → Bytes
  pub members_in : Bytes → SockaddrIn
  pub htobe32 : ℕ → ℕ
  pub be32toh : ℕ → ℕ

pub record Address : Type 0 where
  pub size : ℕ
  pub storage : Bytes

-- `memcmp` on that many bytes, compared with 0.
unfoldable pub equal_bytes : Bytes → Bytes → Bool
equal_bytes [] [] = true
equal_bytes [] (y ∷ ys) = false
equal_bytes (x ∷ xs) [] = false
equal_bytes (x ∷ xs) (y ∷ ys) = (x == y) && equal_bytes xs ys

-- `operator==`
unfoldable pub equal : Address → Address → Bool
unfolding equal_bytes
equal a other =
    if not (a.size == other.size)
    then false
    else equal_bytes (take a.size a.storage) (take a.size other.storage)

module _ (L : Layout) where
  -- `Address(const sockaddr *addr, const size_t size)`: `addr` points to at least `size` bytes.
  unfoldable pub of_sockaddr : Bytes → ℕ → Result Address
  of_sockaddr addr size =
      if ltb L.storage_size size
      then throw (runtime_error "invalid sockaddr size")
      else ok (record {
        size = size % 2 ^ 32;
        storage = take size addr ++ drop size (replicate L.storage_size 0);
      })

  -- The `memcpy` fills the whole of `ipv4_addr`, since the sizes are the same.
  unfoldable pub ipv4_numeric : Address → Result ℕ
  ipv4_numeric a =
      if not (L.ss_family a.storage == L.af_inet) || not (a.size == L.sockaddr_in_size)
      then throw (runtime_error "ipv4_numeric called on non-IPV4 address")
      else (let ipv4_addr = L.members_in (take a.size a.storage) in ok (L.be32toh ipv4_addr.s_addr))

  unfoldable pub from_ipv4_numeric : ℕ → Result Address
  unfolding of_sockaddr
  from_ipv4_numeric ip_address =
      let ipv4_addr : SockaddrIn = record {
        sin_family = L.af_inet;
        s_addr = L.htobe32 (ip_address % 2 ^ 32);
      } in
      of_sockaddr (L.image_in ipv4_addr) L.sockaddr_in_size

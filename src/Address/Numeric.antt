-- ===== src/Address/Numeric.antt =====
-- Numeric addresses there and back, and what the equality of addresses means.
use network_project_cs.Common.{
  ◌∙◌, ap, take-append_left, ok, ℕ, ◌%◌, ◌^◌, ◌≤◌, ◌<◌, ◌≡◌, ◌↔◌, refl, ap, ◌∙◌, true, false, [],
  ◌∷◌, ◌++◌, Bytes, ok, length, take, drop, replicate, ltb, ◌==◌, arith, take_all, take-append_left,
}
use network_project_cs.Parser.BigEndian.{digits, value, value-digits}
use network_project_cs.Address.{
  Layout, SockaddrIn, Address, equal_bytes, equal, of_sockaddr, ipv4_numeric, from_ipv4_numeric,
}

-- What the program relies on. A `sockaddr_in` fits in the storage, and a socklen_t holds its size;
-- the members of an image read as they were set, and `sin_addr` stands at `addr_offset` with the
-- four bytes that the machine stores for it. `htobe32` gives the number whose bytes in memory are
-- those of its argument in network byte order; `be32toh` reads a number's bytes in memory in network
-- byte order.
pub record IsSound (L : Layout) : Type 0 where
  pub fits : L.sockaddr_in_size ≤ L.storage_size
  pub small : L.sockaddr_in_size < 2 ^ 32
  pub addr_offset : ℕ
  pub stored_bytes : ℕ → Bytes
  pub length_in : (s : SockaddrIn) → length (L.image_in s) ≡ L.sockaddr_in_size
  pub family_in :
      (s : SockaddrIn) (rest : Bytes) → L.ss_family (L.image_in s ++ rest) ≡ s.sin_family
  pub members : (s : SockaddrIn) → s.s_addr < 2 ^ 32 → L.members_in (L.image_in s) ≡ s
  pub addr_in :
      (s : SockaddrIn) (rest : Bytes)
      → s.s_addr < 2 ^ 32
      → take 4 (drop addr_offset (L.image_in s ++ rest)) ≡ stored_bytes s.s_addr
  pub width : (x : ℕ) → x < 2 ^ 32 → L.htobe32 x < 2 ^ 32
  pub to_network : (x : ℕ) → x < 2 ^ 32 → stored_bytes (L.htobe32 x) ≡ digits 4 x
  pub from_network : (x : ℕ) → x < 2 ^ 32 → L.be32toh x ≡ value (stored_bytes x)

-- `be32toh` undoes `htobe32`.
be32toh-htobe32 : (L : Layout) (x : ℕ) → IsSound L → x < 2 ^ 32 → L.be32toh (L.htobe32 x) ≡ x
be32toh-htobe32 L x sound small =
    sound.from_network (L.htobe32 x) (sound.width x small)
    ∙ ap value (sound.to_network x small)
    ∙ value-digits 4 x
    ∙ omega arith

-- On a system whose structures and conversions are as documented: making an address of a 32-bit
-- number never throws. The four bytes of the number stand in the address's image in network byte
-- order, and `ipv4_numeric` gives the number back.
pub from_ipv4_numeric-ipv4_numeric :
    (L : Layout) (ip : ℕ) (sound : IsSound L)
    → ip < 2 ^ 32
    → (a : Address) × (from_ipv4_numeric L ip ≡ ok a)
      × (take 4 (drop sound.addr_offset a.storage) ≡ digits 4 ip)
      × (ipv4_numeric L a ≡ ok ip)
unfolding from_ipv4_numeric of_sockaddr ipv4_numeric
from_ipv4_numeric-ipv4_numeric L ip sound small =
    let n = L.sockaddr_in_size in
    let kept : ip % 2 ^ 32 ≡ ip = omega arith in
    let s : SockaddrIn = record { sin_family = L.af_inet; s_addr = L.htobe32 ip } in
    let rest : Bytes = drop n (replicate L.storage_size 0) in
    let fits : ltb L.storage_size n ≡ false = ground (arith, sound.fits) in
    let size_kept : n % 2 ^ 32 ≡ n = omega (arith, sound.small) in
    let whole : take n (L.image_in s) ≡ L.image_in s =
      take_all n (L.image_in s) (omega (arith, sound.length_in s)) in
    let front : take n (L.image_in s ++ rest) ≡ L.image_in s =
      take-append_left n (L.image_in s) rest (omega (arith, sound.length_in s)) ∙ whole in
    let is_inet : (L.ss_family (L.image_in s ++ rest) == L.af_inet) ≡ true =
      ground (arith, sound.family_in s rest) in
    let same_size : (n == n) ≡ true = ground arith in
    let width = sound.width ip small in
    (
      record { size = n % 2 ^ 32; storage = take n (L.image_in s) ++ rest },
      rw (kept, fits) refl,
      rw whole (sound.addr_in s rest width ∙ sound.to_network ip small),
      rw (size_kept, whole, is_inet, same_size, front)
          (ap (λ t. ok (L.be32toh t.s_addr)) (sound.members s width)
            ∙ ap ok (be32toh-htobe32 L ip sound small)),
    )

equal_bytes-true : (xs ys : Bytes) → equal_bytes xs ys ≡ true ↔ xs ≡ ys
unfolding equal_bytes
equal_bytes-true [] [] = ((λ _. refl), (λ _. refl))
equal_bytes-true [] (y ∷ ys) = ground arith
equal_bytes-true (x ∷ xs) [] = ground arith
equal_bytes-true (x ∷ xs) (y ∷ ys) = ground (arith, equal_bytes-true xs ys)

-- Addresses are equal just when their sizes are and the images are, as far as the size.
equal-true :
    (a b : Address)
    → equal a b ≡ true ↔ ((a.size ≡ b.size) × (take a.size a.storage ≡ take a.size b.storage))
unfolding equal
equal-true a b = ground (arith, equal_bytes-true (take a.size a.storage) (take a.size b.storage))

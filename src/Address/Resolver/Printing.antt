-- ===== src/Address/Resolver/Printing.antt =====
-- An address made of its text prints as this text.
use Prim.Native.Nat.{bit_or}
use network_project_cs.Common.{
  ℕ, ◌%◌, ◌^◌, ◌≤◌, ◌<◌, ◌≡◌, refl, ap, ◌≢◌, pos, [], ◌∷◌, ◌++◌, Bytes, All, ok, up_to_nul, ltb,
  false, take, drop, replicate, length, take_all, ◌==◌, arith,
}
use network_project_cs.Common.Formatting.{digits}
use network_project_cs.Common.Stoi.{stoi-digits, IsDecimal, digits-IsDecimal}
use network_project_cs.Address.{List, Layout, Address, of_sockaddr}
use network_project_cs.Address.Resolver.{
  Resolver, Addrinfo, resolve, first_address, of_ip, ip_port, to_string,
}

-- What is documented of numeric text: an address and a port in decimal are resolved, without a
-- look-up, to one or more results, the first of them an image of a `sockaddr_in`; from an image,
-- wherever it is stored, the same text is written into the caller's arrays, with a NUL after it.
-- `dotted` is the text of an address.
pub record IsNumeric (L : Layout) (R : Resolver) : Type 0 where
  pub dotted : ℕ → Bytes
  pub image : (ip port : ℕ) → Bytes
  pub length_image : (ip port : ℕ) → length (image ip port) ≡ L.sockaddr_in_size
  pub fits : L.sockaddr_in_size ≤ L.storage_size
  pub small : L.sockaddr_in_size < 2 ^ 32
  -- The further results, for other types of sockets.
  pub others : (ip port : ℕ) → List Addrinfo
  pub no_nul : (ip : ℕ) → All (λ c. c ≢ 0) (dotted ip)
  pub host_end : Bytes
  pub service_end : Bytes
  pub resolved :
      (ip port : ℕ)
      → ip < 2 ^ 32
      → port < 2 ^ 16
      → R.getaddrinfo
          (dotted ip)
          (digits 10 port)
          (bit_or R.ai_numerichost R.ai_numericserv)
          L.af_inet
        ≡ (
          pos 0,
          record { ai_addr = image ip port; ai_addrlen = L.sockaddr_in_size } ∷ others ip port,
        )
  pub named :
      (ip port : ℕ) (rest : Bytes)
      → ip < 2 ^ 32
      → port < 2 ^ 16
      → R.getnameinfo
          (image ip port ++ rest)
          L.sockaddr_in_size
          (bit_or R.ni_numerichost R.ni_numericserv)
        ≡ (pos 0, (dotted ip ++ 0 ∷ host_end, digits 10 port ++ 0 ∷ service_end))

up_to_nul-append : (s rest : Bytes) → All (λ c. c ≢ 0) s → up_to_nul (s ++ 0 ∷ rest) ≡ s
unfolding up_to_nul
up_to_nul-append [] rest no_nul = refl
up_to_nul-append (c ∷ s) rest (some_char, no_nul) =
    let not_end : (c == 0) ≡ false = ground arith in
    rw not_end (ap (◌∷◌ c) (up_to_nul-append s rest no_nul))

up_to_nul_whole : (s : Bytes) → All (λ c. c ≢ 0) s → up_to_nul s ≡ s
unfolding up_to_nul
up_to_nul_whole [] no_nul = refl
up_to_nul_whole (c ∷ s) (some_char, no_nul) =
    let not_end : (c == 0) ≡ false = ground arith in
    rw not_end (ap (◌∷◌ c) (up_to_nul_whole s no_nul))

decimal_no_nul : (s : Bytes) → IsDecimal s → All (λ c. c ≢ 0) s
decimal_no_nul [] decimal = tt
decimal_no_nul (c ∷ s) ((low, high), decimal) = ((λ z. omega arith), decimal_no_nul s decimal)

module _ (L : Layout) (R : Resolver) (numeric : IsNumeric L R) where
  -- The address that the image is copied to.
  address_of : (ip port : ℕ) → Address
  address_of ip port = record {
    size = L.sockaddr_in_size;
    storage = numeric.image ip port ++ drop L.sockaddr_in_size (replicate L.storage_size 0);
  }

  of_ip-eq :
      (n port : ℕ)
      → n < 2 ^ 32
      → port < 2 ^ 16
      → of_ip L R (numeric.dotted n) port ≡ ok (address_of n port)
  unfolding of_ip resolve first_address of_sockaddr address_of
  of_ip-eq n port quad word =
      let kept : port % 2 ^ 16 ≡ port = omega arith in
      let size_kept : L.sockaddr_in_size % 2 ^ 32 ≡ L.sockaddr_in_size =
        omega (arith, numeric.small) in
      let fits : ltb L.storage_size L.sockaddr_in_size ≡ false = ground (arith, numeric.fits) in
      let whole : take L.sockaddr_in_size (numeric.image n port) ≡ numeric.image n port =
        take_all L.sockaddr_in_size (numeric.image n port)
          (omega (arith, numeric.length_image n port)) in
      rw
        (
          kept,
          up_to_nul_whole (numeric.dotted n) (numeric.no_nul n),
          up_to_nul_whole (digits 10 port)
              (decimal_no_nul (digits 10 port) (digits-IsDecimal port)),
          numeric.resolved n port quad word,
          fits,
          whole,
          size_kept,
        )
        refl

  ip_port-eq :
      (n port : ℕ)
      → n < 2 ^ 32
      → port < 2 ^ 16
      → ip_port R (address_of n port) ≡ ok (numeric.dotted n, port)
  unfolding ip_port address_of
  ip_port-eq n port quad word =
      let kept : port % 2 ^ 16 ≡ port = omega arith in
      rw
        (
          numeric.named n port (drop L.sockaddr_in_size (replicate L.storage_size 0)) quad word,
          up_to_nul-append (digits 10 port) numeric.service_end
              (decimal_no_nul (digits 10 port) (digits-IsDecimal port)),
          up_to_nul-append (numeric.dotted n) numeric.host_end (numeric.no_nul n),
          stoi-digits port (omega arith),
          kept,
        )
        refl

-- On a resolver that handles numeric text as documented, an `Address` made of a dotted quad and a
-- port has been made without an exception; its `ip_port` is this pair, and its `to_string` the
-- quad, a colon and the port in decimal.
pub of_ip-ip_port :
    (L : Layout) (R : Resolver) (numeric : IsNumeric L R) (n number : ℕ)
    → n < 2 ^ 32
    → number < 2 ^ 16
    → (a : Address) × (of_ip L R (numeric.dotted n) number ≡ ok a)
      × (ip_port R a ≡ ok (numeric.dotted n, number))
      × (to_string R a ≡ ok (numeric.dotted n ++ 58 ∷ digits 10 number))
unfolding to_string
of_ip-ip_port L R numeric n number quad word = (
  address_of L R numeric n number,
  of_ip-eq L R numeric n number quad word,
  ip_port-eq L R numeric n number quad word,
  rw (ip_port-eq L R numeric n number quad word) refl,
)

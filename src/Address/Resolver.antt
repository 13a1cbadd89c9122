-- ===== src/Address/Resolver.antt =====
-- libsponge/util/address.hh and address.cc: addresses from and to text. The resolver is the C
-- library's; the strings that it stores in the caller's arrays end at their first NUL.
pub mod Printing
use Prim.Native.Nat.{bit_or}
use network_project_cs.Common.{
  ℕ, ◌%◌, ◌^◌, List, [], ◌∷◌, ◌++◌, Bytes, Result, ok, throw, ◌>>=◌, runtime_error, gai_error, ℤ,
  pos, bits, equal_ℤ, not, up_to_nul, if◌then◌else◌,
}
use network_project_cs.Common.Formatting.{digits}
use network_project_cs.Common.Stoi.{stoi}
use network_project_cs.Address.{Layout, Address, of_sockaddr}

-- `struct addrinfo`, as far as it is used.
pub record Addrinfo : Type 0 where
  pub ai_addr : Bytes
  pub ai_addrlen : ℕ

-- The functions of the resolver, and the constants of its headers. The list that `getaddrinfo`
-- makes is empty for a null pointer.
pub record Resolver : Type 0 where
  pub getaddrinfo : (node service : Bytes) (ai_flags ai_family : ℕ) → ℤ × List Addrinfo
  pub getnameinfo : (address : Bytes) (size flags : ℕ) → ℤ × (Bytes × Bytes)
  pub ai_all : ℕ
  pub ai_numerichost : ℕ
  pub ai_numericserv : ℕ
  pub ni_numerichost : ℕ
  pub ni_numericserv : ℕ

-- `"getaddrinfo(" + node + ", " + service + ")"`
unfoldable pub attempt : (node service : Bytes) → Bytes
attempt node service =
    (103 ∷ 101 ∷ 116 ∷ 97 ∷ 100 ∷ 100 ∷ 114 ∷ 105 ∷ 110 ∷ 102 ∷ 111 ∷ 40 ∷ [])
    ++ node
    ++ (44 ∷ 32 ∷ [])
    ++ service
    ++ 41 ∷ []

-- "getnameinfo"
abbrev getnameinfo_name : Bytes
getnameinfo_name = 103 ∷ 101 ∷ 116 ∷ 110 ∷ 97 ∷ 109 ∷ 101 ∷ 105 ∷ 110 ∷ 102 ∷ 111 ∷ []

module _ (L : Layout) (R : Resolver) where
  -- The first of the results. That the list is freed afterwards changes nothing that is modelled.
  first_address : List Addrinfo → Result Address
  first_address [] = throw (runtime_error "getaddrinfo returned successfully but with no results")
  first_address (resolved_address ∷ others) =
      of_sockaddr L resolved_address.ai_addr resolved_address.ai_addrlen

  -- `Address(const string &node, const string &service, const addrinfo &hints)`
  unfoldable pub resolve : (node service : Bytes) (ai_flags ai_family : ℕ) → Result Address
  unfolding attempt first_address
  resolve node service ai_flags ai_family =
      let (gai_ret, resolved) =
        R.getaddrinfo (up_to_nul node) (up_to_nul service) ai_flags ai_family in
      if not (equal_ℤ gai_ret (pos 0))
      then throw (gai_error (attempt node service) gai_ret)
      else first_address resolved

  -- `Address(const string &hostname, const string &service)`
  unfoldable pub of_hostname : (hostname service : Bytes) → Result Address
  unfolding resolve
  of_hostname hostname service = resolve hostname service R.ai_all L.af_inet

  -- `Address(const string &ip, const uint16_t port)`
  unfoldable pub of_ip : (ip : Bytes) (port : ℕ) → Result Address
  unfolding resolve
  of_ip ip port =
      resolve ip (digits 10 (port % 2 ^ 16)) (bit_or R.ai_numerichost R.ai_numericserv) L.af_inet

module _ (R : Resolver) where
  unfoldable pub ip_port : Address → Result (Bytes × ℕ)
  ip_port a =
      let (gni_ret, (ip, port)) =
        R.getnameinfo a.storage a.size (bit_or R.ni_numerichost R.ni_numericserv) in
      if not (equal_ℤ gni_ret (pos 0))
      then throw (gai_error getnameinfo_name gni_ret)
      else stoi (up_to_nul port) >>= λ number. ok (up_to_nul ip, bits (2 ^ 16) number)

  -- The text, a colon and the port.
  unfoldable pub to_string : Address → Result Bytes
  unfolding ip_port
  to_string a = ip_port a >>= λ (ip, port). ok (ip ++ 58 ∷ digits 10 port)

  unfoldable pub ip : Address → Result Bytes
  unfolding ip_port
  ip a = ip_port a >>= λ (text, number). ok text

  unfoldable pub port : Address → Result ℕ
  unfolding ip_port
  port a = ip_port a >>= λ (text, number). ok number

-- ===== src/Address/Tests.antt =====
-- Addresses in a small layout.
use network_project_cs.Common.{
  IsBytes, take, drop, ap, ◌∙◌, ℕ, zero, suc, ℤ, pos, negsuc, Result, throw, All, Bytes, replicate,
  length, length-replicate, ◌++◌, ◌≢◌, ◌≡◌, refl, [], ◌∷◌, ok, arith,
}
use network_project_cs.Address.{List, Layout, SockaddrIn, Address, from_ipv4_numeric, ipv4_numeric}
use network_project_cs.Address.Resolver.{Resolver, Addrinfo, of_ip, ip_port, to_string}
use network_project_cs.Address.Resolver.Printing.{IsNumeric, of_ip-ip_port}
use network_project_cs.Common.Stoi.{stoi, stoi-digits}
use network_project_cs.Common.Formatting.{digits as decimal}
use network_project_cs.Parser.BigEndian.{digits, value, value-digits, value-lt, digits-value}
use network_project_cs.Address.Numeric.{IsSound, from_ipv4_numeric-ipv4_numeric}

-- A machine that stores numbers with the lowest byte first: the other way round than digits.
turned : Bytes → Bytes
turned (a ∷ b ∷ c ∷ d ∷ []) = d ∷ c ∷ b ∷ a ∷ []
turned cs = cs

abbrev stored : ℕ → Bytes
stored x = turned (digits 4 x)

abbrev swapped : ℕ → ℕ
swapped x = value (stored x)

members_of : Bytes → SockaddrIn
unfolding turned
members_of [] = record { sin_family = 0; s_addr = 0 }
members_of (family ∷ cs) = record { sin_family = family; s_addr = value (turned cs) }

-- One place for the family and four for the address.
five_places : Layout
unfolding turned members_of
five_places = record {
  storage_size = 8;
  sockaddr_in_size = 5;
  af_inet = 2;
  ss_family = λ s. elim s [ [] ↦ 0 | b ∷ bs ↦ b ];
  image_in = λ s. s.sin_family ∷ stored s.s_addr;
  members_in = members_of;
  htobe32 = swapped;
  be32toh = swapped;
}

stored-IsBytes : (x : ℕ) → IsBytes (stored x)
unfolding turned digits
stored-IsBytes x = omega arith

five_places-IsSound : IsSound five_places
unfolding five_places turned members_of digits
five_places-IsSound = record {
  fits = omega arith;
  small = omega arith;
  addr_offset = 1;
  stored_bytes = stored;
  length_in = λ s. refl;
  family_in = λ s rest. refl;
  members = λ s small.
      ap (λ n. record { sin_family = s.sin_family; s_addr = n })
        (value-digits 4 s.s_addr ∙ omega arith);
  addr_in = λ s rest small. refl;
  width = λ x small. value-lt (stored x) (stored-IsBytes x);
  to_network = λ x small. ap turned (digits-value (stored x) (stored-IsBytes x));
  from_network = λ x small. refl;
}

from_ipv4_numeric-ipv4_numeric_example :
    (a : Address) × (from_ipv4_numeric five_places 167772161 ≡ ok a)
    × (take 4 (drop 1 a.storage) ≡ digits 4 167772161)
    × (ipv4_numeric five_places a ≡ ok 167772161)
unfolding five_places-IsSound
from_ipv4_numeric-ipv4_numeric_example =
    from_ipv4_numeric-ipv4_numeric five_places 167772161 five_places-IsSound (omega arith)

-- 10.0.0.1
in_network_order : digits 4 167772161 ≡ 10 ∷ 0 ∷ 0 ∷ 1 ∷ []
unfolding digits
in_network_order = refl

-- A layout with one place each for the family, the address and the port, and a resolver whose text of an address has as many
-- characters as the number says.
abbrev three_places : Layout
three_places = record {
  storage_size = 4;
  sockaddr_in_size = 3;
  af_inet = 2;
  ss_family = λ s. 2;
  image_in = λ s. s.sin_family ∷ s.s_addr ∷ 0 ∷ [];
  members_in = λ bs. record { sin_family = 2; s_addr = 0 };
  htobe32 = λ x. x;
  be32toh = λ x. x;
}

port_of : Result ℤ → ℕ
port_of (ok (pos n)) = n
port_of (ok (negsuc n)) = 0
port_of (throw e) = 0

name_of : Bytes → Bytes × Bytes
name_of [] = ([], [])
name_of (family ∷ []) = ([], [])
name_of (family ∷ n ∷ []) = ([], [])
name_of (family ∷ n ∷ number ∷ rest) = (replicate n 49 ++ 0 ∷ [], decimal 10 number ++ 0 ∷ [])

-- One result for each type of socket.
abbrev three_of : Addrinfo → List Addrinfo
three_of a = a ∷ a ∷ a ∷ []

resolver : Resolver
unfolding port_of name_of
resolver = record {
  getaddrinfo = λ node service flags family. (
    pos 0,
    three_of
        (record { ai_addr = family ∷ length node ∷ port_of (stoi service) ∷ []; ai_addrlen = 3 }),
  );
  getnameinfo = λ address size flags. (pos 0, name_of address);
  ai_all = 16;
  ai_numerichost = 4;
  ai_numericserv = 1024;
  ni_numerichost = 1;
  ni_numericserv = 2;
}

replicate_no_nul : (n : ℕ) → All (λ (c : ℕ). c ≢ 0) (replicate n 49)
replicate_no_nul zero = tt
replicate_no_nul (suc n) = ((λ z. omega arith), replicate_no_nul n)

resolver-IsNumeric : IsNumeric three_places resolver
unfolding resolver port_of name_of
resolver-IsNumeric = record {
  dotted = λ n. replicate n 49;
  image = λ n number. 2 ∷ n ∷ number ∷ [];
  length_image = λ n number. refl;
  fits = omega arith;
  small = omega arith;
  others = λ n number.
      let a : Addrinfo = record { ai_addr = 2 ∷ n ∷ number ∷ []; ai_addrlen = 3 } in a ∷ a ∷ [];
  no_nul = replicate_no_nul;
  host_end = [];
  service_end = [];
  resolved = λ n number quad word.
      rw (length-replicate {A = ℕ} n 49, stoi-digits number (omega arith)) refl;
  named = λ n number rest quad word. refl;
}

of_ip-ip_port_example :
    (a : Address) × (of_ip three_places resolver (49 ∷ 49 ∷ []) 53 ≡ ok a)
    × (ip_port resolver a ≡ ok (49 ∷ 49 ∷ [], 53))
    × (to_string resolver a ≡ ok ((49 ∷ 49 ∷ []) ++ 58 ∷ decimal 10 53))
unfolding resolver-IsNumeric
of_ip-ip_port_example =
    of_ip-ip_port three_places resolver resolver-IsNumeric 2 53 (omega arith) (omega arith)

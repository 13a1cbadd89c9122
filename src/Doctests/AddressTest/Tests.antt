-- ===== src/Doctests/AddressTest/Tests.antt =====
-- The addresses that the example looks up, with a resolver that knows them.
use network_project_cs.Common.{
  pos, negsuc, ◌≡◌, refl, [], ◌∷◌, none, if◌then◌else◌, length, up_to_nul, ltb,
}
use network_project_cs.Common.Stoi.{stoi}
use network_project_cs.Webget.{exit_success, exit_failure}
use network_project_cs.Parser.BigEndian.{value}
use network_project_cs.Common.{take, up_to_nul}
use network_project_cs.Common.Stoi.{stoi}
use network_project_cs.Address.{Layout, of_sockaddr}
use network_project_cs.Address.Resolver.{Resolver}
use network_project_cs.Doctests.AddressTest.{address_dt}

-- The family, four bytes of the address, and two of the port.
abbrev layout : Layout
layout = record {
  storage_size = 16;
  sockaddr_in_size = 7;
  af_inet = 2;
  ss_family = λ s. elim s [ [] ↦ 0 | b ∷ bs ↦ b ];
  image_in = λ s. s.sin_family ∷ [];
  members_in = λ s. elim s [
    | [] ↦ record { sin_family = 0; s_addr = 0 }
    | family ∷ bs ↦ record { sin_family = family; s_addr = value (take 4 bs) }
  ];
  htobe32 = λ x. x;
  be32toh = λ x. x;
}

abbrev knows : Resolver
knows = record {
  getaddrinfo = λ node service flags family. (
    pos 0,
    record {
      ai_addr =
          if ltb 11 (length node)
          then 2 ∷ 142 ∷ 250 ∷ 72 ∷ 4 ∷ 1 ∷ 187 ∷ []
          else 2 ∷ 18 ∷ 71 ∷ 0 ∷ 151 ∷ 0 ∷ 53 ∷ [];
      ai_addrlen = 7;
    }
        ∷ [],
  );
  getnameinfo = λ address size flags. (pos 0, ([], 52 ∷ 52 ∷ 51 ∷ []));
  ai_all = 16;
  ai_numerichost = 4;
  ai_numericserv = 1024;
  ni_numerichost = 1;
  ni_numericserv = 2;
}

all_as_expected : address_dt layout knows ≡ (exit_success, none)
unfolding address_dt of_sockaddr value stoi up_to_nul
all_as_expected = refl

no_internet :
    (address_dt layout
      (record knows { getaddrinfo = λ node service flags family. (negsuc 1, []) })).0
    ≡ exit_failure
unfolding address_dt
no_internet = refl

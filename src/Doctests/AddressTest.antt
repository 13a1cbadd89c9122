-- ===== src/Doctests/AddressTest.antt =====
-- doctests/address_dt.cc and the examples that it runs, doctests/address_example_1.cc to
-- address_example_3.cc. The resolver is a parameter.
mod Tests
use network_project_cs.Common.{
  ℕ, not, ◌||◌, [], ◌∷◌, Bytes, Result, ok, throw, ◌>>=◌, Exception, Option, some, none,
  runtime_error, ◌==◌, if◌then◌else◌,
}
use network_project_cs.Webget.{Exit, exit_success, exit_failure}
use network_project_cs.Address.{Layout, Address, ipv4_numeric}
use network_project_cs.Address.Resolver.{Resolver, of_hostname, of_ip, port}

-- "www.google.com", "https" and "18.71.0.151"
abbrev google_hostname : Bytes
google_hostname =
    119 ∷ 119 ∷ 119 ∷ 46 ∷ 103 ∷ 111 ∷ 111 ∷ 103 ∷ 108 ∷ 101 ∷ 46 ∷ 99 ∷ 111 ∷ 109 ∷ []

abbrev https : Bytes
https = 104 ∷ 116 ∷ 116 ∷ 112 ∷ 115 ∷ []

abbrev dns_server_ip : Bytes
dns_server_ip = 49 ∷ 56 ∷ 46 ∷ 55 ∷ 49 ∷ 46 ∷ 48 ∷ 46 ∷ 49 ∷ 53 ∷ 49 ∷ []

module _ (L : Layout) (R : Resolver) where
  -- The body of `try`. The port is asked for first, and the number is compared if it is right.
  unfoldable pub address_example : Result (Unit {0})
  unfolding of_hostname of_ip ipv4_numeric port
  address_example = do
    google_webserver ← of_hostname L R google_hostname https
    a_dns_server ← of_ip L R dns_server_ip 53
    a_dns_server_numeric ← ipv4_numeric L a_dns_server
    google_port ← port R google_webserver
    if not (google_port == 443) || not (a_dns_server_numeric == 0x12470097)
        then throw (runtime_error "unexpected value")
        else ok tt

  -- The exit code, and the exception whose text goes to the standard error.
  unfoldable pub address_dt : Exit × Option Exception
  unfolding address_example
  address_dt = elim address_example [
    | ok done ↦ (exit_success, none)
    | throw e ↦ (exit_failure, some e)
  ]

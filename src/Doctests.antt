-- ===== src/Doctests.antt =====
-- doctests: the example programs of the documentation. A local variable that is a socket is
-- destroyed at the end of its block.
pub mod UdpExchange
pub mod TcpExchange
pub mod LocalPair
pub mod SocketTest
pub mod ParserTest
pub mod AddressTest
pub mod Messages
pub mod Tidiness
mod Tests
use network_project_cs.Common.{
  ℕ, ◌^◌, ◌-◌, ◌+◌, ◌%◌, not, ◌||◌, [], ◌∷◌, Bytes, runtime_error, Outcome, returns, throws, fault,
  diverges, if◌then◌else◌,
}
use network_project_cs.Webget.{Exit, exit_success, exit_failure}
use network_project_cs.Kernel.{Kernel}
use network_project_cs.Machine.{M, pure, raise}
use network_project_cs.Address.{equal_bytes}

-- "hi there", "hi yourself" and "127.0.0.1"
abbrev pub hi_there : Bytes
hi_there = 104 ∷ 105 ∷ 32 ∷ 116 ∷ 104 ∷ 101 ∷ 114 ∷ 101 ∷ []

abbrev pub hi_yourself : Bytes
hi_yourself = 104 ∷ 105 ∷ 32 ∷ 121 ∷ 111 ∷ 117 ∷ 114 ∷ 115 ∷ 101 ∷ 108 ∷ 102 ∷ []

abbrev pub localhost : Bytes
localhost = 49 ∷ 50 ∷ 55 ∷ 46 ∷ 48 ∷ 46 ∷ 48 ∷ 46 ∷ 49 ∷ []

-- The defaults of `limit` and `mtu`.
abbrev pub no_limit : ℕ
no_limit = 2 ^ 64 - 1

abbrev pub default_mtu : ℕ
default_mtu = 65536

-- `((std::random_device()()) % 50000) + 1025`, of the number that the device has given.
unfoldable pub portnum : ℕ → ℕ
portnum random = (random % 50000 + 1025) % 2 ^ 16

-- The test at the end of each example.
abbrev pub check_received : {K : Kernel} → (recvd recvd2 : Bytes) → M K (Unit {0})
check_received recvd recvd2 =
    if not (equal_bytes recvd hi_there) || not (equal_bytes recvd2 hi_yourself)
    then raise (runtime_error "wrong data received")
    else pure tt

-- `try { …; } catch (...) { return EXIT_FAILURE; } return EXIT_SUCCESS;`
unfoldable pub exit_of : Outcome (Unit {0}) → Outcome Exit
exit_of (returns done) = returns exit_success
exit_of (throws e) = returns exit_failure
exit_of fault = fault
exit_of diverges = diverges

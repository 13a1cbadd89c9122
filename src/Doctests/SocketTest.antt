-- ===== src/Doctests/SocketTest.antt =====
-- doctests/socket_dt.cc: the three examples, each in a block of its own.
use network_project_cs.Common.{ℕ}
use network_project_cs.Kernel.{Kernel}
use network_project_cs.Machine.{M, ◌>>◌}
use network_project_cs.Address.Resolver.{Resolver}
use network_project_cs.Socket.{SocketCalls}
use network_project_cs.Doctests.{exit_of}
use network_project_cs.Webget.{Exit}
use network_project_cs.Doctests.UdpExchange.{udp_exchange}
use network_project_cs.Doctests.TcpExchange.{tcp_exchange}
use network_project_cs.Doctests.LocalPair.{Socketpair, local_pair}

module _ {K : Kernel} (S : SocketCalls K) (R : Resolver) where
  unfoldable pub examples : (random1 random2 : ℕ) → Socketpair K → M K (Unit {0})
  unfolding udp_exchange tcp_exchange local_pair
  examples random1 random2 socketpair = do
    udp_exchange S R random1
    tcp_exchange S R random2
    local_pair S socketpair

  unfoldable pub socket_dt : (random1 random2 : ℕ) → Socketpair K → M K Exit
  unfolding exit_of examples
  socket_dt random1 random2 socketpair m =
      let (outcome, m') = examples random1 random2 socketpair m in (exit_of outcome, m')

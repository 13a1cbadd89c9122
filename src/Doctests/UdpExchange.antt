-- ===== src/Doctests/UdpExchange.antt =====
-- doctests/socket_example_1.cc: two UDP sockets. The resolver and the random device are parameters.
use network_project_cs.Common.{ℕ, of_result}
use network_project_cs.Buffers.BufferViewList
use network_project_cs.Kernel.{Kernel}
use network_project_cs.Machine.{M, ◌>>=◌, ◌>>◌, lift}
use network_project_cs.FileDescriptor.Scoped.{scoped}
use network_project_cs.Address.Resolver.{Resolver, of_ip}
use network_project_cs.Socket.{SocketCalls, bind, connect}
use network_project_cs.Socket.UdpSocket.{create_udp, sendto, send, recv}
use network_project_cs.Doctests.{
  hi_there, hi_yourself, localhost, default_mtu, portnum, check_received,
}

module _ {K : Kernel} (S : SocketCalls K) (R : Resolver) where
  -- From the first datagram on.
  unfoldable pub datagrams : (random sock1 sock2 : ℕ) → M K (Unit {0})
  unfolding portnum BufferViewList.of_c_string
  datagrams random sock1 sock2 = do
    there ← lift (of_result (of_ip S.layout R localhost (portnum random)))
    sendto S sock2 there (BufferViewList.of_c_string hi_there)
    recvd ← recv S sock1 default_mtu
    connect S sock1 recvd.source_address
    send S sock1 (BufferViewList.of_c_string hi_yourself)
    recvd2 ← recv S sock2 default_mtu
    check_received recvd.payload recvd2.payload

  -- The block of `sock1`.
  unfoldable pub with_bound : (random sock1 : ℕ) → M K (Unit {0})
  unfolding portnum datagrams scoped
  with_bound random sock1 = do
    here ← lift (of_result (of_ip S.layout R localhost (portnum random)))
    bind S sock1 here
    sock2 ← create_udp S
    scoped sock2 (datagrams random sock1 sock2)

  unfoldable pub udp_exchange : (random : ℕ) → M K (Unit {0})
  unfolding with_bound scoped
  udp_exchange random = do sock1 ← create_udp S; scoped sock1 (with_bound random sock1)

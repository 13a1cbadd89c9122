-- ===== src/Doctests/TcpExchange.antt =====
-- doctests/socket_example_2.cc: a TCP connection. The resolver and the random device are
-- parameters.
use network_project_cs.Common.{ℕ, pos, true, of_result}
use network_project_cs.Buffers.BufferViewList
use network_project_cs.Kernel.{Kernel}
use network_project_cs.Machine.{M, ◌>>=◌, ◌>>◌, lift}
use network_project_cs.FileDescriptor.{read, write, close}
use network_project_cs.FileDescriptor.Scoped.{scoped}
use network_project_cs.Address.Resolver.{Resolver, of_ip}
use network_project_cs.Socket.{SocketCalls, bind, connect, shutdown}
use network_project_cs.Socket.TcpSocket.{create_tcp, listen, accept}
use network_project_cs.Doctests.{
  hi_there, hi_yourself, localhost, no_limit, portnum, check_received,
}

module _ {K : Kernel} (S : SocketCalls K) where
  -- From the first message on.
  unfoldable pub conversation : (sock1 sock2 sock3 : ℕ) → M K (Unit {0})
  unfolding BufferViewList.of_c_string
  conversation sock1 sock2 sock3 = do
    written ← write sock3 (BufferViewList.of_c_string hi_there) true
    recvd ← read sock2 no_limit
    written2 ← write sock2 (BufferViewList.of_c_string hi_yourself) true
    recvd2 ← read sock3 no_limit
    close sock1
    close sock2
    shutdown S sock3 S.shut_rdwr
    check_received recvd recvd2

module _ {K : Kernel} (S : SocketCalls K) (R : Resolver) where
  -- The block of `sock2`.
  unfoldable pub with_client : (random sock1 sock2 : ℕ) → M K (Unit {0})
  unfolding portnum conversation scoped
  with_client random sock1 sock2 = do
    there ← lift (of_result (of_ip S.layout R localhost (portnum random)))
    connect S sock2 there
    sock3 ← accept S sock1
    scoped sock3 (conversation S sock1 sock2 sock3)

  -- The block of `sock1`.
  unfoldable pub with_server : (random sock1 : ℕ) → M K (Unit {0})
  unfolding portnum with_client scoped
  with_server random sock1 = do
    here ← lift (of_result (of_ip S.layout R localhost (portnum random)))
    bind S sock1 here
    listen S sock1 (pos 1)
    sock2 ← create_tcp S
    scoped sock2 (with_client random sock1 sock2)

  unfoldable pub tcp_exchange : (random : ℕ) → M K (Unit {0})
  unfolding with_server scoped
  tcp_exchange random = do sock1 ← create_tcp S; scoped sock1 (with_server random sock1)

-- ===== src/Socket/TcpSocket.antt =====
-- libsponge/util/socket.hh and socket.cc: TCPSocket, and LocalStreamSocket.
pub mod Accepting
use network_project_cs.Common.{ℕ, ℤ}
use network_project_cs.Kernel.{Kernel}
use network_project_cs.Machine.{M, ◌>>=◌, ◌>>◌, pure, call, wrapper}
use network_project_cs.FileDescriptor.{make, checked, register_read}
use network_project_cs.Socket.{SocketCalls, create, of_descriptor}

module _ {K : Kernel} (S : SocketCalls K) where
  -- `TCPSocket()`
  unfoldable pub create_tcp : M K ℕ
  unfolding create
  create_tcp = create S S.af_inet S.sock_stream

  -- `TCPSocket(FileDescriptor &&fd)`
  unfoldable pub tcp_of_descriptor : ℕ → M K ℕ
  unfolding of_descriptor
  tcp_of_descriptor h = of_descriptor S h S.af_inet S.sock_stream

  -- `LocalStreamSocket(FileDescriptor &&fd)`
  unfoldable pub local_of_descriptor : ℕ → M K ℕ
  unfolding of_descriptor
  local_of_descriptor h = of_descriptor S h S.af_unix S.sock_stream

  unfoldable pub listen : ℕ → (backlog : ℤ) → M K (Unit {0})
  listen h backlog = do
    x ← wrapper h
    r ← call (S.listen x.fd backlog)
    value ← checked "listen" r
    pure tt

  -- The new descriptor that `accept` answers, made into a FileDescriptor and then into a socket.
  pub accepted : (fd : ℤ) → M K ℕ
  unfolding tcp_of_descriptor
  accepted fd = do h ← make fd; tcp_of_descriptor h

  -- The read is counted before the call.
  unfoldable pub accept : ℕ → M K ℕ
  unfolding accepted
  accept h = do
    register_read h
    x ← wrapper h
    r ← call (S.accept x.fd)
    fd ← checked "accept" r
    accepted fd

-- ===== src/Doctests/LocalPair.antt =====
-- doctests/socket_example_3.cc: two stream sockets that are connected to each other.
use network_project_cs.Common.{ℕ, ℤ, pos, true}
use network_project_cs.SystemCall.{Return}
use network_project_cs.Buffers.BufferViewList
use network_project_cs.Kernel.{Kernel}
use network_project_cs.Machine.{M, ◌>>=◌, call}
use network_project_cs.FileDescriptor.{make, read, write, checked}
use network_project_cs.FileDescriptor.Scoped.{scoped}
use network_project_cs.Socket.{SocketCalls}
use network_project_cs.Socket.TcpSocket.{local_of_descriptor}
use network_project_cs.Doctests.{hi_there, hi_yourself, no_limit, check_received}

-- `::socketpair`, with the two numbers that it stores.
abbrev pub Socketpair : Kernel → Type 0
Socketpair K = (domain type protocol : ℤ) → K.State → (Return × ℤ × ℤ) × K.State

module _ {K : Kernel} (S : SocketCalls K) where
  -- The two messages, there and back.
  unfoldable pub exchange : (pipe1 pipe2 : ℕ) → M K (Unit {0})
  unfolding BufferViewList.of_c_string
  exchange pipe1 pipe2 = do
    written ← write pipe1 (BufferViewList.of_c_string hi_there) true
    recvd ← read pipe2 no_limit
    written2 ← write pipe2 (BufferViewList.of_c_string hi_yourself) true
    recvd2 ← read pipe1 no_limit
    check_received recvd recvd2

  -- `LocalStreamSocket pipe{FileDescriptor(fd)}`
  unfoldable pub open_pipe : (fd : ℤ) → M K ℕ
  unfolding local_of_descriptor
  open_pipe fd = do h ← make fd; local_of_descriptor S h

  unfoldable pub local_pair : Socketpair K → M K (Unit {0})
  unfolding exchange open_pipe scoped
  local_pair socketpair = do
    (r, fd0, fd1) ← call (socketpair S.af_unix S.sock_stream (pos 0))
    value ← checked "socketpair" r
    pipe1 ← open_pipe fd0
    scoped pipe1 (do pipe2 ← open_pipe fd1; scoped pipe2 (exchange pipe1 pipe2))

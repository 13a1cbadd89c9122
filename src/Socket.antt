-- ===== src/Socket.antt =====
-- libsponge/util/socket.hh and socket.cc: Socket and its subclasses. A socket is a FileDescriptor,
-- so it is a handle.
pub mod Verifying
pub mod Registers
pub mod UdpSocket
pub mod TcpSocket
pub mod Owners
mod Tests
use Prim.Native.String.{String}
use network_project_cs.Common.{
  ℕ, ℤ, pos, equal_ℤ, int_of_ssize, not, ◌||◌, List, Bytes, Option, runtime_error, of_result, ◌==◌,
  if◌then◌else◌,
}
use network_project_cs.Buffers.BufferViewList.{Iovec}
use network_project_cs.SystemCall.{Return}
use network_project_cs.Kernel.{Kernel}
use network_project_cs.Machine.{M, ◌>>=◌, ◌>>◌, pure, raise, lift, call, wrapper}
use network_project_cs.FileDescriptor.{make, checked, register_read, register_write}
use network_project_cs.FileDescriptor.Construction.{constructing}
use network_project_cs.Address.{Layout, Address, of_sockaddr}

-- What `recvfrom` answers: besides its value, the bytes that it has stored at the front of the
-- buffer, and what the caller's `sockaddr_storage` and its length hold.
pub record Received : Type 0 where
  pub result : Return
  pub payload : Bytes
  pub source : Bytes
  pub fromlen : ℕ

-- `struct msghdr`, with no name for a null pointer.
pub record Msghdr : Type 0 where
  pub msg_name : Option Bytes
  pub msg_namelen : ℕ
  pub msg_iov : List Iovec

-- The system calls on sockets, and the constants of their headers.
pub record SocketCalls (K : Kernel) : Type 0 where
  pub layout : Layout
  pub socket : (domain type protocol : ℤ) → K.State → Return × K.State
  -- The value and its length after the call.
  pub getsockopt : (fd level option : ℤ) (len : ℕ) → K.State → (Return × ℤ × ℕ) × K.State
  pub setsockopt : (fd level option value : ℤ) (len : ℕ) → K.State → Return × K.State
  -- The storage and its length after the call.
  pub getsockname : (fd : ℤ) (size : ℕ) → K.State → (Return × Bytes × ℕ) × K.State
  pub getpeername : (fd : ℤ) (size : ℕ) → K.State → (Return × Bytes × ℕ) × K.State
  pub bind : (fd : ℤ) (address : Bytes) (size : ℕ) → K.State → Return × K.State
  pub connect : (fd : ℤ) (address : Bytes) (size : ℕ) → K.State → Return × K.State
  pub shutdown : (fd how : ℤ) → K.State → Return × K.State
  pub recvfrom : (fd : ℤ) (size : ℕ) (flags : ℤ) (fromlen : ℕ) → K.State → Received × K.State
  pub sendmsg : (fd : ℤ) → Msghdr → (flags : ℤ) → K.State → Return × K.State
  pub listen : (fd backlog : ℤ) → K.State → Return × K.State
  pub accept : (fd : ℤ) → K.State → Return × K.State
  pub af_inet : ℤ
  pub af_unix : ℤ
  pub sock_stream : ℤ
  pub sock_dgram : ℤ
  pub sol_socket : ℤ
  pub so_domain : ℤ
  pub so_type : ℤ
  pub so_reuseaddr : ℤ
  pub msg_trunc : ℤ
  pub shut_rd : ℤ
  pub shut_wr : ℤ
  pub shut_rdwr : ℤ

-- `sizeof(int)`
abbrev pub sizeof_int : ℕ
sizeof_int = 4

-- `UDPSocket::received_datagram`
pub record ReceivedDatagram : Type 0 where
  pub source_address : Address
  pub payload : Bytes

-- A result of type `ssize_t`, which `SystemCall` takes as an `int`.
abbrev pub narrowed : Return → Return
narrowed r = record r { value = int_of_ssize r.value }

module _ {K : Kernel} (S : SocketCalls K) where
  -- `Socket(const int domain, const int type)`
  unfoldable pub create : (domain type : ℤ) → M K ℕ
  create domain type = do r ← call (S.socket domain type (pos 0)); fd ← checked "socket" r; make fd

  -- One of the two tests of a given descriptor: what `getsockopt` answers is the value expected.
  pub verify : ℕ → (option expected : ℤ) → (mismatch : String) → M K (Unit {0})
  verify h option expected mismatch = do
    x ← wrapper h
    (r, actual_value, len) ← call (S.getsockopt x.fd S.sol_socket option sizeof_int)
    value ← checked "getsockopt" r
    if not (len == sizeof_int) || not (equal_ℤ actual_value expected)
        then raise (runtime_error mismatch)
        else pure tt

  pub verify_both : ℕ → (domain type : ℤ) → M K ℕ
  unfolding verify
  verify_both h domain type = do
    verify h S.so_domain domain "socket domain mismatch"
    verify h S.so_type type "socket type mismatch"
    pure h

  -- `Socket(FileDescriptor &&fd, const int domain, const int type)`
  unfoldable pub of_descriptor : ℕ → (domain type : ℤ) → M K ℕ
  unfolding verify_both
  of_descriptor h domain type = constructing h (verify_both h domain type)

  -- `get_address`, at one of its two functions.
  get_address :
      (name_of_function : String)
      → ((fd : ℤ) (size : ℕ) → K.State → (Return × Bytes × ℕ) × K.State)
      → ℕ
      → M K Address
  get_address name_of_function function h = do
    x ← wrapper h
    (r, address, size) ← call (function x.fd S.layout.storage_size)
    value ← checked name_of_function r
    lift (of_result (of_sockaddr S.layout address size))

  unfoldable pub local_address : ℕ → M K Address
  unfolding get_address
  local_address h = get_address "getsockname" S.getsockname h

  unfoldable pub peer_address : ℕ → M K Address
  unfolding get_address
  peer_address h = get_address "getpeername" S.getpeername h

  unfoldable pub bind : ℕ → Address → M K (Unit {0})
  bind h address = do
    x ← wrapper h
    r ← call (S.bind x.fd address.storage address.size)
    value ← checked "bind" r
    pure tt

  unfoldable pub connect : ℕ → Address → M K (Unit {0})
  connect h address = do
    x ← wrapper h
    r ← call (S.connect x.fd address.storage address.size)
    value ← checked "connect" r
    pure tt

  -- The `switch` of `shutdown`.
  pub count_shutdown : ℕ → (how : ℤ) → M K (Unit {0})
  count_shutdown h how =
      if equal_ℤ how S.shut_rd
      then register_read h
      else if equal_ℤ how S.shut_wr
      then register_write h
      else if equal_ℤ how S.shut_rdwr
      then register_read h >> register_write h
      else raise (runtime_error "Socket::shutdown() called with invalid `how`")

  unfoldable pub shutdown : ℕ → (how : ℤ) → M K (Unit {0})
  unfolding count_shutdown
  shutdown h how = do
    x ← wrapper h
    r ← call (S.shutdown x.fd how)
    value ← checked "shutdown" r
    count_shutdown h how

  -- `set_reuseaddr`, with `setsockopt` at an option of type `int`.
  unfoldable pub setsockopt : ℕ → (level option option_value : ℤ) → M K (Unit {0})
  setsockopt h level option option_value = do
    x ← wrapper h
    r ← call (S.setsockopt x.fd level option option_value sizeof_int)
    value ← checked "setsockopt" r
    pure tt

  unfoldable pub set_reuseaddr : ℕ → M K (Unit {0})
  unfolding setsockopt
  set_reuseaddr h = setsockopt h S.sol_socket S.so_reuseaddr (pos 1)

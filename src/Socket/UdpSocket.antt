-- ===== src/Socket/UdpSocket.antt =====
-- libsponge/util/socket.hh and socket.cc: UDPSocket.
pub mod Datagrams
pub mod Sending
use network_project_cs.Common.{
  [], ℕ, ℤ, pos, ltb_ℤ, ssize_of_size, size_of_ssize, not, ◌++◌, Bytes, Option, none, some,
  runtime_error, of_result, length, take, drop, ◌==◌, if◌then◌else◌,
}
use network_project_cs.Buffers.BufferViewList
use network_project_cs.Buffers.BufferViewList.{BufferViewList}
use network_project_cs.Kernel.{Kernel}
use network_project_cs.Machine.{Machine, M, ◌>>=◌, ◌>>◌, pure, raise, lift, call, wrapper}
use network_project_cs.FileDescriptor.{checked, resize, register_read, register_write}
use network_project_cs.Address.{Address, of_sockaddr}
use network_project_cs.Socket.{
  SocketCalls, Received, Msghdr, ReceivedDatagram, narrowed, create, of_descriptor,
}

module _ {K : Kernel} (S : SocketCalls K) where
  -- `UDPSocket()`
  unfoldable pub create_udp : M K ℕ
  unfolding create
  create_udp = create S S.af_inet S.sock_dgram

  -- `UDPSocket(FileDescriptor &&fd)`
  unfoldable pub udp_of_descriptor : ℕ → M K ℕ
  unfolding of_descriptor
  udp_of_descriptor h = of_descriptor S h S.af_inet S.sock_dgram

  -- From the answer of `recvfrom` on, with `payload` for the buffer after the call.
  unfoldable pub take_datagram :
      ℕ → (mtu : ℕ) → (recv_len : ℤ) → Received → (payload : Bytes) → M K ReceivedDatagram
  unfolding resize
  take_datagram h mtu recv_len r payload = do
    if ltb_ℤ (ssize_of_size mtu) recv_len
        then raise (runtime_error "recvfrom (oversized datagram)")
        else pure tt
    register_read h
    source_address ← lift (of_result (of_sockaddr S.layout r.source r.fromlen))
    resized ← lift (resize recv_len payload)
    pure (record { source_address = source_address; payload = resized })

  -- `void recv(received_datagram &datagram, const size_t mtu)`: the datagram that is left.
  unfoldable pub recv_into : ℕ → ReceivedDatagram → (mtu : ℕ) → M K ReceivedDatagram
  unfolding resize take_datagram
  recv_into h datagram mtu = do
    resized ← lift (resize (pos mtu) datagram.payload)
    x ← wrapper h
    r ← call (S.recvfrom x.fd (length resized) S.msg_trunc S.layout.storage_size)
    recv_len ← checked "recvfrom" (narrowed r.result)
    take_datagram h mtu recv_len r (take mtu r.payload ++ drop (length r.payload) resized)

  -- `received_datagram recv(const size_t mtu)`
  unfoldable pub recv : ℕ → (mtu : ℕ) → M K ReceivedDatagram
  unfolding recv_into of_sockaddr
  recv h mtu = do
    nowhere ← lift (of_result (of_sockaddr S.layout [] 0))
    recv_into h (record { source_address = nowhere; payload = [] }) mtu

  unfoldable pub sendmsg_helper : (fd_num : ℤ) → Option Bytes → ℕ → BufferViewList → M K (Unit {0})
  sendmsg_helper fd_num destination_address destination_address_len payload = do
    let message : Msghdr = record {
      msg_name = destination_address;
      msg_namelen = destination_address_len;
      msg_iov = BufferViewList.as_iovecs payload;
    }
    r ← call (S.sendmsg fd_num message (pos 0))
    bytes_sent ← checked "sendmsg" (narrowed r)
    if not (size_of_ssize bytes_sent == BufferViewList.size payload)
        then raise (runtime_error "datagram payload too big for sendmsg()")
        else pure tt

  unfoldable pub sendto : ℕ → Address → BufferViewList → M K (Unit {0})
  unfolding sendmsg_helper
  sendto h destination payload = do
    x ← wrapper h
    sendmsg_helper x.fd (some destination.storage) destination.size payload
    register_write h

  unfoldable pub send : ℕ → BufferViewList → M K (Unit {0})
  unfolding sendmsg_helper
  send h payload = do x ← wrapper h; sendmsg_helper x.fd none 0 payload; register_write h

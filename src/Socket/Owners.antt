-- ===== src/Socket/Owners.antt =====
-- Sockets that are local variables: their constructors make one object with one owner, and their
-- methods leave the numbers of owners as they are.
use network_project_cs.Common.{
  drop, ◌++◌, take, get_elem?-append_last, [], ℕ, suc, ℤ, pos, ◌≡◌, refl, List, Bytes, some,
  get_elem?, Bool-cases, inl, inr, ltb_ℤ, ssize_of_size, size_of_ssize, not, ◌==◌, length,
  runtime_error, Option, none, if◌then◌else◌, of_result, equal_ℤ,
}
use network_project_cs.Common.Actions.{◌>>=◌, pure, raise, lift, Ends-weaken}
use network_project_cs.Buffers.BufferViewList
use network_project_cs.Buffers.BufferViewList.{BufferViewList}
use network_project_cs.Kernel.{Kernel}
use network_project_cs.Machine.{Machine, call, wrapper}
use network_project_cs.FileDescriptor.{
  make, new_wrapper, checked, resize, register_read, register_write,
}
use network_project_cs.FileDescriptor.Construction.{made-Ends, with_new, NothingLost}
use network_project_cs.FileDescriptor.Owners.{Keeps, bind-Keeps, register_read-Keeps}
use network_project_cs.FileDescriptor.Keeping.{
  pure-Keeps, call-Keeps, checked-Keeps, result-Keeps, resize-Keeps, raise_if-Keeps, wrapper-Keeps,
  attempt-Keeps, register_write-Keeps,
}
use network_project_cs.FileDescriptor.Making.{
  Makes, Made, bind-Makes, make-Makes, last-Made, NothingLost-NoneLeft,
}
use network_project_cs.FileDescriptor.Scoped.{NoneLeft}
use network_project_cs.Address.{Address, of_sockaddr}
use network_project_cs.Socket.{
  Msghdr, SocketCalls, Received, ReceivedDatagram, narrowed, create, of_descriptor, verify_both,
  bind, connect, shutdown, count_shutdown,
}
use network_project_cs.Socket.Verifying.{Verified, verify_both-Ends}
use network_project_cs.Socket.UdpSocket.{
  sendto, send, recv, recv_into, take_datagram, sendmsg_helper,
}
use network_project_cs.Socket.TcpSocket.{listen, accept}

module _ {K : Kernel} (S : SocketCalls K) (cs : List ℕ) where
  pub of_descriptor-Makes :
      (fd domain type : ℤ) → Makes {K = K} cs (make fd >>= λ h. of_descriptor S h domain type)
  unfolding of_descriptor new_wrapper
  of_descriptor-Makes fd domain type m counted =
      let Right : ℕ → Machine K → Type 0 = λ h m'.
        (h ≡ length m.wrappers)
        × (m'.wrappers ≡ (with_new fd m).wrappers)
        × Verified S fd domain type in
      Ends-weaken Right (Made cs) (NothingLost m.wrappers fd) (λ m'. NoneLeft cs m'.wrappers)
        (λ h m' (last, same, verified). last-Made cs h fd m m' counted last same)
        (λ m'. NothingLost-NoneLeft cs fd m m' counted)
        ((make fd >>= λ h. of_descriptor S h domain type) m)
        (made-Ends Right fd (λ h. verify_both S h domain type) m
          (verify_both-Ends S (length m.wrappers) domain type (with_new fd m) (new_wrapper fd)
            (get_elem?-append_last m.wrappers (new_wrapper fd)) refl))

  pub create-Makes : (domain type : ℤ) → Makes {K = K} cs (create S domain type)
  unfolding create
  create-Makes domain type =
      bind-Makes cs (call (S.socket domain type (pos 0))) _
        (call-Keeps cs (S.socket domain type (pos 0)))
        λ r.
          bind-Makes cs (checked "socket" r) _ (checked-Keeps cs "socket" r) λ fd. make-Makes cs fd

  module _ (h n : ℕ) (owned : get_elem? cs h ≡ some (suc n)) where
    pub bind_socket-Keeps : (address : Address) → Keeps {K = K} cs (bind S h address)
    unfolding bind
    bind_socket-Keeps address =
        attempt-Keeps cs h n owned "bind" (λ x. S.bind x.fd address.storage address.size)

    pub connect-Keeps : (address : Address) → Keeps {K = K} cs (connect S h address)
    unfolding connect
    connect-Keeps address =
        attempt-Keeps cs h n owned "connect" (λ x. S.connect x.fd address.storage address.size)

    pub listen-Keeps : (backlog : ℤ) → Keeps {K = K} cs (listen S h backlog)
    unfolding listen
    listen-Keeps backlog = attempt-Keeps cs h n owned "listen" (λ x. S.listen x.fd backlog)

    count_shutdown-Keeps : (how : ℤ) → Keeps {K = K} cs (count_shutdown S h how)
    unfolding count_shutdown
    count_shutdown-Keeps how m counted = elim (Bool-cases (equal_ℤ how S.shut_rd)) [
      | inl rd ↦ rw rd (register_read-Keeps cs h n owned m counted)
      | inr not_rd ↦ elim (Bool-cases (equal_ℤ how S.shut_wr)) [
        | inl wr ↦ rw (not_rd, wr) (register_write-Keeps cs h n owned m counted)
        | inr not_wr ↦ elim (Bool-cases (equal_ℤ how S.shut_rdwr)) [
          | inl rdwr ↦
              rw (not_rd, not_wr, rdwr)
                (bind-Keeps cs (register_read h) (λ _. register_write h)
                  (register_read-Keeps cs h n owned) (λ _. register_write-Keeps cs h n owned) m
                  counted)
          | inr none_of_them ↦ rw (not_rd, not_wr, none_of_them) counted
        ]
      ]
    ]

    pub shutdown-Keeps : (how : ℤ) → Keeps {K = K} cs (shutdown S h how)
    unfolding shutdown
    shutdown-Keeps how = bind-Keeps cs (wrapper h) _ (wrapper-Keeps cs h n owned) λ x.
        bind-Keeps cs (call (S.shutdown x.fd how)) _ (call-Keeps cs (S.shutdown x.fd how)) λ r.
          bind-Keeps cs (checked "shutdown" r) _ (checked-Keeps cs "shutdown" r)
            λ value. count_shutdown-Keeps how

    pub accept-Makes : Makes {K = K} cs (accept S h)
    unfolding accept
    accept-Makes = bind-Makes cs (register_read h) _ (register_read-Keeps cs h n owned) λ _.
        bind-Makes cs (wrapper h) _ (wrapper-Keeps cs h n owned) λ x.
          bind-Makes cs (call (S.accept x.fd)) _ (call-Keeps cs (S.accept x.fd)) λ r.
            bind-Makes cs (checked "accept" r) _ (checked-Keeps cs "accept" r)
              λ fd. of_descriptor-Makes fd S.af_inet S.sock_stream

    take_datagram-Keeps :
        (mtu : ℕ) (recv_len : ℤ) (r : Received) (payload : Bytes)
        → Keeps {K = K} cs (take_datagram S h mtu recv_len r payload)
    unfolding take_datagram
    take_datagram-Keeps mtu recv_len r payload =
        bind-Keeps cs
          (if ltb_ℤ (ssize_of_size mtu) recv_len
            then raise (runtime_error "recvfrom (oversized datagram)")
            else pure tt)
          _
          (raise_if-Keeps cs (ltb_ℤ (ssize_of_size mtu) recv_len)
            (runtime_error "recvfrom (oversized datagram)") tt)
          λ _. bind-Keeps cs (register_read h) _ (register_read-Keeps cs h n owned) λ _.
            bind-Keeps cs (lift (of_result (of_sockaddr S.layout r.source r.fromlen))) _
              (result-Keeps cs (of_sockaddr S.layout r.source r.fromlen))
              λ source.
                bind-Keeps cs (lift (resize recv_len payload))
                  (λ resized.
                    pure {A = ReceivedDatagram}
                      (record { source_address = source; payload = resized }))
                  (resize-Keeps cs recv_len payload)
                  λ resized.
                    pure-Keeps cs {A = ReceivedDatagram}
                      (record { source_address = source; payload = resized })

    recv_into-Keeps :
        (datagram : ReceivedDatagram) (mtu : ℕ) → Keeps {K = K} cs (recv_into S h datagram mtu)
    unfolding recv_into
    recv_into-Keeps datagram mtu =
        bind-Keeps cs (lift (resize (pos mtu) datagram.payload)) _
          (resize-Keeps cs (pos mtu) datagram.payload)
          λ resized. bind-Keeps cs (wrapper h) _ (wrapper-Keeps cs h n owned) λ x.
            let receive = S.recvfrom x.fd (length resized) S.msg_trunc S.layout.storage_size in
            bind-Keeps cs (call receive) _ (call-Keeps cs receive) λ r.
              bind-Keeps cs (checked "recvfrom" (narrowed r.result))
                (λ recv_len.
                  take_datagram S h mtu recv_len r
                    (take mtu r.payload ++ drop (length r.payload) resized))
                (checked-Keeps cs "recvfrom" (narrowed r.result))
                λ recv_len.
                  take_datagram-Keeps mtu recv_len r
                    (take mtu r.payload ++ drop (length r.payload) resized)

    pub recv-Keeps : (mtu : ℕ) → Keeps {K = K} cs (recv S h mtu)
    unfolding recv
    recv-Keeps mtu =
        bind-Keeps cs (lift (of_result (of_sockaddr S.layout [] 0))) _
          (result-Keeps cs (of_sockaddr S.layout [] 0))
          λ nowhere. recv_into-Keeps (record { source_address = nowhere; payload = [] }) mtu

    sendmsg_helper-Keeps :
        (fd : ℤ) (destination : Option Bytes) (size : ℕ) (payload : BufferViewList)
        → Keeps {K = K} cs (sendmsg_helper S fd destination size payload)
    unfolding sendmsg_helper
    sendmsg_helper-Keeps fd destination size payload =
        let message : Msghdr = record {
          msg_name = destination;
          msg_namelen = size;
          msg_iov = BufferViewList.as_iovecs payload;
        } in
        let transmit = S.sendmsg fd message (pos 0) in
        bind-Keeps cs (call transmit) _ (call-Keeps cs transmit) λ r.
          bind-Keeps cs (checked "sendmsg" (narrowed r))
            (λ sent.
              if not (size_of_ssize sent == BufferViewList.size payload)
              then raise (runtime_error "datagram payload too big for sendmsg()")
              else pure tt)
            (checked-Keeps cs "sendmsg" (narrowed r))
            λ sent.
              raise_if-Keeps cs (not (size_of_ssize sent == BufferViewList.size payload))
                (runtime_error "datagram payload too big for sendmsg()") tt

    pub sendto-Keeps :
        (destination : Address) (payload : BufferViewList)
        → Keeps {K = K} cs (sendto S h destination payload)
    unfolding sendto
    sendto-Keeps destination payload = bind-Keeps cs (wrapper h) _ (wrapper-Keeps cs h n owned) λ x.
        bind-Keeps cs (sendmsg_helper S x.fd (some destination.storage) destination.size payload) _
          (sendmsg_helper-Keeps x.fd (some destination.storage) destination.size payload)
          λ _. register_write-Keeps cs h n owned

    pub send-Keeps : (payload : BufferViewList) → Keeps {K = K} cs (send S h payload)
    unfolding send
    send-Keeps payload = bind-Keeps cs (wrapper h) _ (wrapper-Keeps cs h n owned) λ x.
        bind-Keeps cs (sendmsg_helper S x.fd none 0 payload) _
          (sendmsg_helper-Keeps x.fd none 0 payload) λ _. register_write-Keeps cs h n owned

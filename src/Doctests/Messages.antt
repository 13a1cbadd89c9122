-- ===== src/Doctests/Messages.antt =====
-- The messages of the examples, sent and received by sockets that have their one owner.
use network_project_cs.Common.{zero, suc, Bytes, not, ◌||◌, runtime_error}
use network_project_cs.Address.{equal_bytes}
use network_project_cs.Common.{
  not, suc, Bytes, ℕ, ◌≡◌, List, [], ◌∷◌, ◌++◌, some, get_elem?, arith, true, of_result,
}
use network_project_cs.Common.Actions.{lift}
use network_project_cs.Buffers.BufferViewList
use network_project_cs.Buffers.BufferViewList.Contents
use network_project_cs.Kernel.{Kernel}
use network_project_cs.FileDescriptor.{read, write, close}
use network_project_cs.FileDescriptor.Owners.{Keeps, bind-Keeps, read-Keeps, write-Keeps}
use network_project_cs.FileDescriptor.Keeping.{result-Keeps, raise_if-Keeps, close-Keeps}
use network_project_cs.Address.{equal_bytes}
use network_project_cs.Address.Resolver.{Resolver, of_ip}
use network_project_cs.Socket.{SocketCalls, connect, shutdown}
use network_project_cs.Socket.Owners.{
  connect-Keeps, shutdown-Keeps, recv-Keeps, sendto-Keeps, send-Keeps,
}
use network_project_cs.Socket.UdpSocket.{sendto, send, recv}
use network_project_cs.Doctests.{
  hi_there, hi_yourself, localhost, no_limit, default_mtu, portnum, check_received,
}
use network_project_cs.Doctests.UdpExchange.{datagrams}
use network_project_cs.Doctests.TcpExchange.{conversation}
use network_project_cs.Doctests.LocalPair.{exchange}

pub owned_still :
    (cs : List ℕ) (h n k : ℕ) → get_elem? cs h ≡ some n → get_elem? (cs ++ k ∷ []) h ≡ some n
owned_still [] h n k owned = absurd cc
owned_still (c ∷ cs) zero n k owned = owned
owned_still (c ∷ cs) (suc h) n k owned = owned_still cs h n k owned

module _ {K : Kernel} (cs : List ℕ) where
  check_received-Keeps : (recvd recvd2 : Bytes) → Keeps {K = K} cs (check_received recvd recvd2)
  check_received-Keeps recvd recvd2 =
      raise_if-Keeps cs (not (equal_bytes recvd hi_there) || not (equal_bytes recvd2 hi_yourself))
        (runtime_error "wrong data received") tt

  module _ (h n : ℕ) (owned : get_elem? cs h ≡ some (suc n)) where
    write_there-Keeps : Keeps {K = K} cs (write h (BufferViewList.of_c_string hi_there) true)
    unfolding Contents.flat BufferViewList.of_c_string
    write_there-Keeps = write-Keeps cs h n owned (BufferViewList.of_c_string hi_there) (omega arith)

    write_yourself-Keeps : Keeps {K = K} cs (write h (BufferViewList.of_c_string hi_yourself) true)
    unfolding Contents.flat BufferViewList.of_c_string
    write_yourself-Keeps =
        write-Keeps cs h n owned (BufferViewList.of_c_string hi_yourself) (omega arith)

module _ {K : Kernel} (S : SocketCalls K) where
  pub conversation-Keeps :
      (cs : List ℕ) (sock1 sock2 sock3 : ℕ)
      → get_elem? cs sock1 ≡ some 1
      → get_elem? cs sock2 ≡ some 1
      → get_elem? cs sock3 ≡ some 1
      → Keeps {K = K} cs (conversation S sock1 sock2 sock3)
  unfolding conversation
  conversation-Keeps cs sock1 sock2 sock3 owned1 owned2 owned3 =
      bind-Keeps cs (write sock3 (BufferViewList.of_c_string hi_there) true) _
        (write_there-Keeps cs sock3 0 owned3)
        λ _. bind-Keeps cs (read sock2 no_limit) _ (read-Keeps cs sock2 0 owned2 no_limit) λ recvd.
          bind-Keeps cs (write sock2 (BufferViewList.of_c_string hi_yourself) true) _
            (write_yourself-Keeps cs sock2 0 owned2)
            λ _.
              bind-Keeps cs (read sock3 no_limit) _ (read-Keeps cs sock3 0 owned3 no_limit)
                λ recvd2. bind-Keeps cs (close sock1) _ (close-Keeps cs sock1 0 owned1) λ _.
                  bind-Keeps cs (close sock2) _ (close-Keeps cs sock2 0 owned2) λ _.
                    bind-Keeps cs (shutdown S sock3 S.shut_rdwr) (λ _. check_received recvd recvd2)
                      (shutdown-Keeps S cs sock3 0 owned3 S.shut_rdwr)
                      λ _. check_received-Keeps cs recvd recvd2

  pub exchange-Keeps :
      (cs : List ℕ) (pipe1 pipe2 : ℕ)
      → get_elem? cs pipe1 ≡ some 1
      → get_elem? cs pipe2 ≡ some 1
      → Keeps {K = K} cs (exchange S pipe1 pipe2)
  unfolding exchange
  exchange-Keeps cs pipe1 pipe2 owned1 owned2 =
      bind-Keeps cs (write pipe1 (BufferViewList.of_c_string hi_there) true) _
        (write_there-Keeps cs pipe1 0 owned1)
        λ _. bind-Keeps cs (read pipe2 no_limit) _ (read-Keeps cs pipe2 0 owned2 no_limit) λ recvd.
          bind-Keeps cs (write pipe2 (BufferViewList.of_c_string hi_yourself) true) _
            (write_yourself-Keeps cs pipe2 0 owned2)
            λ _.
              bind-Keeps cs (read pipe1 no_limit) (λ recvd2. check_received recvd recvd2)
                (read-Keeps cs pipe1 0 owned1 no_limit)
                λ recvd2. check_received-Keeps cs recvd recvd2

module _ {K : Kernel} (S : SocketCalls K) (R : Resolver) where
  pub datagrams-Keeps :
      (cs : List ℕ) (random sock1 sock2 : ℕ)
      → get_elem? cs sock1 ≡ some 1
      → get_elem? cs sock2 ≡ some 1
      → Keeps {K = K} cs (datagrams S R random sock1 sock2)
  unfolding datagrams
  datagrams-Keeps cs random sock1 sock2 owned1 owned2 =
      let message = BufferViewList.of_c_string hi_there in
      let answer = BufferViewList.of_c_string hi_yourself in
      let address = of_ip S.layout R localhost (portnum random) in
      bind-Keeps cs (lift (of_result address)) _ (result-Keeps cs address) λ there.
        bind-Keeps cs (sendto S sock2 there message) _
          (sendto-Keeps S cs sock2 0 owned2 there message)
          λ _.
            bind-Keeps cs (recv S sock1 default_mtu) _ (recv-Keeps S cs sock1 0 owned1 default_mtu)
              λ recvd.
                bind-Keeps cs (connect S sock1 recvd.source_address) _
                  (connect-Keeps S cs sock1 0 owned1 recvd.source_address)
                  λ _.
                    bind-Keeps cs (send S sock1 answer) _ (send-Keeps S cs sock1 0 owned1 answer)
                      λ _.
                        bind-Keeps cs (recv S sock2 default_mtu)
                          (λ recvd2. check_received recvd.payload recvd2.payload)
                          (recv-Keeps S cs sock2 0 owned2 default_mtu)
                          λ recvd2. check_received-Keeps cs recvd.payload recvd2.payload

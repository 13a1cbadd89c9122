-- ===== src/Doctests/Tidiness.antt =====
-- Whatever the kernel and the resolver do, socket_dt ends, and none of its sockets is left.
use network_project_cs.Common.{
  ℕ, ℤ, pos, ◌≡◌, refl, List, [], ◌∷◌, ◌++◌, length, some, get_elem?, get_elem?-append_last,
  of_result, Outcome, returns, throws, fault, diverges,
}
use network_project_cs.Common.Actions.{◌>>◌, ◌>>◌, Ends, ◌>>=◌, lift}
use network_project_cs.Kernel.{Kernel}
use network_project_cs.Machine.{Machine, call}
use network_project_cs.FileDescriptor.{checked}
use network_project_cs.FileDescriptor.Owners.{owner_counts}
use network_project_cs.FileDescriptor.Keeping.{call-Keeps, checked-Keeps, result-Keeps}
use network_project_cs.FileDescriptor.Making.{variable-Tidy, seq-Tidy, Makes}
use network_project_cs.FileDescriptor.Scoped.{scoped, NoneLeft, Tidy, Keeps-Tidy, bind-Tidy}
use network_project_cs.Address.Resolver.{Resolver, of_ip}
use network_project_cs.Socket.{SocketCalls, bind, connect}
use network_project_cs.Socket.Owners.{
  of_descriptor-Makes, create-Makes, bind_socket-Keeps, connect-Keeps, listen-Keeps, accept-Makes,
}
use network_project_cs.Socket.UdpSocket.{create_udp}
use network_project_cs.Socket.TcpSocket.{create_tcp, listen, accept, local_of_descriptor}
use network_project_cs.Doctests.{exit_of, localhost, portnum}
use network_project_cs.Doctests.UdpExchange.{datagrams, with_bound, udp_exchange}
use network_project_cs.Doctests.TcpExchange.{conversation, with_client, with_server, tcp_exchange}
use network_project_cs.Doctests.LocalPair.{Socketpair, exchange, open_pipe, local_pair}
use network_project_cs.Doctests.SocketTest.{examples, socket_dt}
use network_project_cs.Doctests.Messages.{
  owned_still, datagrams-Keeps, conversation-Keeps, exchange-Keeps,
}

module _ {K : Kernel} (S : SocketCalls K) where
  open_pipe-Makes : (cs : List ℕ) (fd : ℤ) → Makes {K = K} cs (open_pipe S fd)
  unfolding open_pipe local_of_descriptor
  open_pipe-Makes cs fd = of_descriptor-Makes S cs fd S.af_unix S.sock_stream

  local_pair-Tidy :
      (socketpair : Socketpair K) (cs : List ℕ) → Tidy {K = K} cs (local_pair S socketpair)
  unfolding local_pair
  local_pair-Tidy socketpair cs =
      let next = cs ++ 1 ∷ [] in
      bind-Tidy cs (call (socketpair S.af_unix S.sock_stream (pos 0))) _
        (call-Keeps cs (socketpair S.af_unix S.sock_stream (pos 0)))
        λ (r, fd0, fd1).
          bind-Tidy cs (checked "socketpair" r) _ (checked-Keeps cs "socketpair" r) λ value.
            variable-Tidy cs (open_pipe S fd0)
              (λ pipe1. open_pipe S fd1 >>= λ pipe2. scoped pipe2 (exchange S pipe1 pipe2))
              (open_pipe-Makes cs fd0)
              (variable-Tidy next (open_pipe S fd1) (λ pipe2. exchange S (length cs) pipe2)
                (open_pipe-Makes next fd1)
                (Keeps-Tidy (next ++ 1 ∷ []) (exchange S (length cs) (length next)) (
                  exchange-Keeps S (next ++ 1 ∷ []) (length cs) (length next)
                    (owned_still next (length cs) 1 1 (get_elem?-append_last cs 1))
                    (get_elem?-append_last next 1))))

module _ {K : Kernel} (S : SocketCalls K) (R : Resolver) where
  with_bound-Tidy :
      (cs : List ℕ) (random sock1 : ℕ)
      → get_elem? cs sock1 ≡ some 1
      → Tidy {K = K} cs (with_bound S R random sock1)
  unfolding with_bound create_udp
  with_bound-Tidy cs random sock1 owned =
      let address = of_ip S.layout R localhost (portnum random) in
      bind-Tidy cs (lift (of_result address)) _ (result-Keeps cs address) λ here.
        bind-Tidy cs (bind S sock1 here) _ (bind_socket-Keeps S cs sock1 0 owned here) λ _.
          variable-Tidy cs (create_udp S) (λ sock2. datagrams S R random sock1 sock2)
            (create-Makes S cs S.af_inet S.sock_dgram)
            (Keeps-Tidy (cs ++ 1 ∷ []) (datagrams S R random sock1 (length cs)) (
              datagrams-Keeps S R (cs ++ 1 ∷ []) random sock1 (length cs)
                (owned_still cs sock1 1 1 owned) (get_elem?-append_last cs 1)))

  udp_exchange-Tidy : (random : ℕ) (cs : List ℕ) → Tidy {K = K} cs (udp_exchange S R random)
  unfolding udp_exchange create_udp
  udp_exchange-Tidy random cs =
      variable-Tidy cs (create_udp S) (λ sock1. with_bound S R random sock1)
        (create-Makes S cs S.af_inet S.sock_dgram)
        (with_bound-Tidy (cs ++ 1 ∷ []) random (length cs) (get_elem?-append_last cs 1))

  with_client-Tidy :
      (cs : List ℕ) (random sock1 sock2 : ℕ)
      → get_elem? cs sock1 ≡ some 1
      → get_elem? cs sock2 ≡ some 1
      → Tidy {K = K} cs (with_client S R random sock1 sock2)
  unfolding with_client
  with_client-Tidy cs random sock1 sock2 owned1 owned2 =
      let address = of_ip S.layout R localhost (portnum random) in
      bind-Tidy cs (lift (of_result address)) _ (result-Keeps cs address) λ there.
        bind-Tidy cs (connect S sock2 there) _ (connect-Keeps S cs sock2 0 owned2 there) λ _.
          variable-Tidy cs (accept S sock1) (λ sock3. conversation S sock1 sock2 sock3)
            (accept-Makes S cs sock1 0 owned1)
            (Keeps-Tidy (cs ++ 1 ∷ []) (conversation S sock1 sock2 (length cs)) (
              conversation-Keeps S (cs ++ 1 ∷ []) sock1 sock2 (length cs)
                (owned_still cs sock1 1 1 owned1) (owned_still cs sock2 1 1 owned2)
                (get_elem?-append_last cs 1)))

  with_server-Tidy :
      (cs : List ℕ) (random sock1 : ℕ)
      → get_elem? cs sock1 ≡ some 1
      → Tidy {K = K} cs (with_server S R random sock1)
  unfolding with_server create_tcp
  with_server-Tidy cs random sock1 owned =
      let address = of_ip S.layout R localhost (portnum random) in
      bind-Tidy cs (lift (of_result address)) _ (result-Keeps cs address) λ here.
        bind-Tidy cs (bind S sock1 here) _ (bind_socket-Keeps S cs sock1 0 owned here) λ _.
          bind-Tidy cs (listen S sock1 (pos 1)) _ (listen-Keeps S cs sock1 0 owned (pos 1)) λ _.
            variable-Tidy cs (create_tcp S) (λ sock2. with_client S R random sock1 sock2)
              (create-Makes S cs S.af_inet S.sock_stream)
              (with_client-Tidy (cs ++ 1 ∷ []) random sock1 (length cs)
                (owned_still cs sock1 1 1 owned) (get_elem?-append_last cs 1))

  tcp_exchange-Tidy : (random : ℕ) (cs : List ℕ) → Tidy {K = K} cs (tcp_exchange S R random)
  unfolding tcp_exchange create_tcp
  tcp_exchange-Tidy random cs =
      variable-Tidy cs (create_tcp S) (λ sock1. with_server S R random sock1)
        (create-Makes S cs S.af_inet S.sock_stream)
        (with_server-Tidy (cs ++ 1 ∷ []) random (length cs) (get_elem?-append_last cs 1))

  examples-Tidy :
      (random1 random2 : ℕ) (socketpair : Socketpair K) (cs : List ℕ)
      → Tidy {K = K} cs (examples S R random1 random2 socketpair)
  unfolding examples
  examples-Tidy random1 random2 socketpair =
      seq-Tidy (udp_exchange S R random1) (tcp_exchange S R random2 >> local_pair S socketpair)
        (udp_exchange-Tidy random1)
        (seq-Tidy (tcp_exchange S R random2) (local_pair S socketpair) (tcp_exchange-Tidy random2)
          (local_pair-Tidy S socketpair))

  -- A program that has ended returned an exit code.
  exit_of-Ends :
      (I : Machine K → Type 0) (r : Outcome (Unit {0}) × Machine K)
      → Ends (λ _. I) I r
      → Ends (λ _. I) (λ _. ⊥) (exit_of r.0, r.1)
  unfolding exit_of
  exit_of-Ends I (returns done, m) ends = ends
  exit_of-Ends I (throws e, m) ends = ends
  exit_of-Ends I (fault, m) ends = ends
  exit_of-Ends I (diverges, m) ends = ends

  -- Whatever the kernel, the resolver and the random device answer, `socket_dt` returns an exit
  -- code, with no fault and no exception. The sockets that it has made are all gone then, and the
  -- objects that were there before have as many owners as they had.
  pub socket_dt-NoneLeft :
      (random1 random2 : ℕ) (socketpair : Socketpair K) (m : Machine K)
      → Ends
          (λ code m'. NoneLeft (owner_counts m.wrappers) m'.wrappers)
          (λ m'. ⊥)
          (socket_dt S R random1 random2 socketpair m)
  unfolding socket_dt
  socket_dt-NoneLeft random1 random2 socketpair m =
      exit_of-Ends (λ m'. NoneLeft (owner_counts m.wrappers) m'.wrappers)
        (examples S R random1 random2 socketpair m)
        (examples-Tidy random1 random2 socketpair (owner_counts m.wrappers) m refl)

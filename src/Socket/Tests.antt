-- ===== src/Socket/Tests.antt =====
-- Sockets on a small kernel.
use network_project_cs.Common.{
  none, int_of_ssize, ssize_of_size, take-min, pos-inj, never_negative, sym, ap, ◌∙◌, ◌<◌, some,
  min, ℕ, ◌^◌, ◌<◌, ◌≡◌, refl, ℤ, pos, negsuc, Bool, false, List, [], ◌∷◌, ◌++◌, returns, throws,
  runtime_error, length, take, arith, ◌==◌, if◌then◌else◌,
}
use network_project_cs.Common.Actions.{Ends}
use network_project_cs.Buffers.BufferViewList.{BufferViewList}
use network_project_cs.Buffers.BufferViewList.Contents
use network_project_cs.SystemCall.{Return, system_call}
use network_project_cs.Kernel.{Kernel}
use network_project_cs.Machine.{FdWrapper, Machine}
use network_project_cs.FileDescriptor.{register_read, register_write, make, new_wrapper}
use network_project_cs.FileDescriptor.Handles.{read_counted, IsLive}
use network_project_cs.FileDescriptor.Construction.{constructing}
use network_project_cs.FileDescriptor.Construction.{NothingLost}
use network_project_cs.Address.{Address, Layout}
use network_project_cs.Socket.{SocketCalls, shutdown}
use network_project_cs.Socket.Registers.{ShutdownCases, shutdown_cases}
use network_project_cs.Socket.UdpSocket.{send, sendto, recv}
use network_project_cs.Socket.UdpSocket.Datagrams.{Receives, RecvCases, recv_cases}
use network_project_cs.Socket.UdpSocket.Sending.{sendto-Goes, datagram, SendsDatagrams, Goes, Sent}
use network_project_cs.Socket.TcpSocket.{accept}
use network_project_cs.Socket.TcpSocket.Accepting.{NewSocket, accept-Ends}

-- What has gone out, and the numbers that were closed.
record Net : Type 0 where
  out : List Sent
  closed_fds : List ℤ

abbrev answers : ℕ → Return
answers n = record { value = pos n; errno = 0 }

abbrev net : Kernel
net = record {
  State = Net;
  close = λ fd k. (answers 0, record k { closed_fds = fd ∷ k.closed_fds });
  read = λ fd n k. ((answers 0, []), k);
  writev = λ fd iovs k. (answers 0, k);
  fcntl_getfl = λ fd k. (answers 0, k);
  fcntl_setfl = λ fd flags k. (answers 0, k);
  poll = λ fds ms k. ((answers 0, []), k);
  o_nonblock = 2048;
  pollin = 1;
  pollout = 4;
  pollerr = 8;
  pollhup = 16;
  pollnval = 32;
  eintr = 4;
}

abbrev small_layout : Layout
small_layout = record {
  storage_size = 4;
  sockaddr_in_size = 2;
  af_inet = 2;
  ss_family = λ s. 2;
  image_in = λ s. s.sin_family ∷ s.s_addr ∷ [];
  members_in = λ bs. record { sin_family = 2; s_addr = 0 };
  htobe32 = λ x. x;
  be32toh = λ x. x;
}

abbrev is_domain : ℤ → Bool
is_domain (pos n) = n == 39
is_domain (negsuc n) = false

-- Every descriptor is an AF_INET one of type 1; a datagram of three bytes is always there.
abbrev calls : SocketCalls net
calls = record {
  layout = small_layout;
  socket = λ domain type protocol k. (answers 5, k);
  getsockopt =
      λ fd level option len k. ((answers 0, if is_domain option then pos 2 else pos 1, 4), k);
  setsockopt = λ fd level option value len k. (answers 0, k);
  getsockname = λ fd size k. ((answers 0, 2 ∷ 9 ∷ [], 2), k);
  getpeername = λ fd size k. ((answers 0, 2 ∷ 9 ∷ [], 2), k);
  bind = λ fd address size k. (answers 0, k);
  connect = λ fd address size k. (answers 0, k);
  shutdown = λ fd how k. (answers 0, k);
  recvfrom = λ fd size flags fromlen k. (
    record {
      result = answers 3;
      payload = take size (7 ∷ 8 ∷ 9 ∷ []);
      source = 2 ∷ 1 ∷ [];
      fromlen = 2;
    },
    k,
  );
  sendmsg = λ fd message flags k. (
    answers (min 2 (length (Contents.gather message.msg_iov))),
    record k {
      out =
          k.out
          ++ record {
            name = message.msg_name;
            namelen = message.msg_namelen;
            payload = take 2 (Contents.gather message.msg_iov);
          }
            ∷ [];
    },
  );
  listen = λ fd backlog k. (answers 0, k);
  accept = λ fd k. (answers 6, k);
  af_inet = pos 2;
  af_unix = pos 1;
  sock_stream = pos 1;
  sock_dgram = pos 2;
  sol_socket = pos 1;
  so_domain = pos 39;
  so_type = pos 3;
  so_reuseaddr = pos 2;
  msg_trunc = pos 32;
  shut_rd = pos 0;
  shut_wr = pos 1;
  shut_rdwr = pos 2;
}

abbrev object : FdWrapper
object = record {
  fd = pos 3;
  eof = false;
  closed = false;
  read_count = 0;
  write_count = 0;
  use_count = 1;
}

abbrev machine : Machine net
machine = record { kernel = record { out = []; closed_fds = [] }; wrappers = object ∷ [] }

abbrev live_three : IsLive {K = net} 0 (pos 3) machine
live_three = record { object = object; found = refl; owned = λ z. omega arith; number = refl }

abbrev payload : BufferViewList
payload = record { views = (1 ∷ []) ∷ (2 ∷ []) ∷ [] }

small : length (Contents.contents payload) < 2 ^ 63
small = unfold Contents.flat in omega arith

a_receive : Receives calls (pos 3) 2 machine (7 ∷ 8 ∷ 9 ∷ [])
a_receive = record { value = refl; stored = refl; source_fits = omega arith }

accepted_six : (accept calls 0 machine).0 ≡ returns 1
unfolding accept system_call new_wrapper register_read make constructing
accepted_six = refl

shut_down_both :
    (shutdown calls 0 (pos 2) machine).1.wrappers
    ≡ record object { read_count = 1; write_count = 1 } ∷ []
unfolding shutdown system_call register_read register_write
shut_down_both = refl

too_long : (recv calls 0 2 machine).0 ≡ throws (runtime_error "recvfrom (oversized datagram)")
unfolding recv system_call int_of_ssize ssize_of_size
too_long = refl

accept-Ends_example :
    (let ws = read_counted 0 object machine.wrappers in
      Ends (NewSocket calls ws (pos 6)) (NothingLost ws (pos 6)) (accept calls 0 machine))
accept-Ends_example = accept-Ends calls 0 (pos 3) machine live_three

recv_cases_example : RecvCases calls 0 2 (7 ∷ 8 ∷ 9 ∷ []) machine object
recv_cases_example =
    recv_cases calls 0 (pos 3) 2 (7 ∷ 8 ∷ 9 ∷ []) machine live_three a_receive (omega arith)
      (omega arith)

shutdown_cases_example : ShutdownCases calls 0 (pos 2) machine object
shutdown_cases_example =
    shutdown_cases calls 0 (pos 3) (pos 2) machine live_three 0 (refl, refl, refl) refl

abbrev log : SendsDatagrams calls
log = record {
  sent = λ fd k. k.out;
  at_most = λ fd message flags k n e. omega (arith, pos-inj _ n e);
  one_more = λ fd message flags k n e.
      ap
        (λ p.
          k.out
          ++ record { name = message.msg_name; namelen = message.msg_namelen; payload = p } ∷ [])
        (sym (take-min 2 (Contents.gather message.msg_iov))
          ∙ ap (λ j. take j (Contents.gather message.msg_iov)) (pos-inj _ n e));
  failure = λ fd message flags k n e. absurd (never_negative _ n e);
}

abbrev destination : Address
destination = record { size = 2; storage = 2 ∷ 1 ∷ [] }

sendto-Goes_example :
    Ends
      (λ _ m'.
        Goes calls log 0 object
          (datagram calls log (some destination.storage) 2 payload)
          machine
          m')
      (λ m'. m'.wrappers ≡ machine.wrappers)
      (sendto calls 0 destination payload machine)
    × Ends
        (λ _ m'. Goes calls log 0 object (datagram calls log none 0 payload) machine m')
        (λ m'. m'.wrappers ≡ machine.wrappers)
        (send calls 0 payload machine)
sendto-Goes_example = sendto-Goes calls log 0 (pos 3) destination payload machine live_three small

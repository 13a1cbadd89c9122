-- ===== src/Doctests/Tests.antt =====
-- The examples on a kernel with one pair of sockets, for which nothing else can be opened.
use network_project_cs.Common.{
  Outcome, ℕ, ◌≡◌, refl, ℤ, pos, negsuc, ◌++◌, List, [], ◌∷◌, Bytes, returns, length, take, drop,
  ◌==◌, Bool, false, if◌then◌else◌, min, runtime_error, throws,
}
use network_project_cs.Common.Actions.{Ends}
use network_project_cs.Buffers.BufferViewList
use network_project_cs.Buffers.BufferViewList.Contents
use network_project_cs.SystemCall.{Return, system_call}
use network_project_cs.Kernel.{Kernel}
use network_project_cs.Machine.{Machine}
use network_project_cs.FileDescriptor.{read, write, make, destroy}
use network_project_cs.FileDescriptor.Owners.{owner_counts}
use network_project_cs.FileDescriptor.Scoped.{NoneLeft}
use network_project_cs.Address.{Layout, equal_bytes}
use network_project_cs.FileDescriptor.Construction.{constructing}
use network_project_cs.Common.{int_of_ssize, ssize_of_size, size_add, size_of_ssize, size_sub}
use network_project_cs.Socket.{SocketCalls}
use network_project_cs.Doctests.LocalPair.{local_pair, Socketpair}
use network_project_cs.Doctests.SocketTest.{socket_dt}
use network_project_cs.Address.Resolver.{Resolver}
use network_project_cs.Doctests.Tidiness.{socket_dt-NoneLeft}

-- What is on the way to descriptor 3 and to descriptor 4, and the numbers that were closed.
record Wire : Type 0 where
  to_three : Bytes
  to_four : Bytes
  closed_fds : List ℤ

abbrev answers : ℕ → Return
answers n = record { value = pos n; errno = 0 }

abbrev is_number : ℕ → ℤ → Bool
is_number n (pos k) = n == k
is_number n (negsuc k) = false

abbrev wire : Kernel
wire = record {
  State = Wire;
  close = λ fd k. (answers 0, record k { closed_fds = fd ∷ k.closed_fds });
  read = λ fd n k.
      if is_number 3 fd
      then (
        (answers (min n (length k.to_three)), take n k.to_three),
        record k { to_three = drop n k.to_three },
      )
      else (
        (answers (min n (length k.to_four)), take n k.to_four),
        record k { to_four = drop n k.to_four },
      );
  writev = λ fd iovs k. (
    answers (length (Contents.gather iovs)),
    if is_number 3 fd
        then record k { to_four = k.to_four ++ Contents.gather iovs }
        else record k { to_three = k.to_three ++ Contents.gather iovs },
  );
  fcntl_getfl = λ fd k. (answers 0, k);
  fcntl_setfl = λ fd flags k. (answers 0, k);
  poll = λ fds ms k. ((answers 0, []), k);
  o_nonblock = 2048;
  pollin = 1;
  pollout = 4;
  pollerr = 8;
  pollhup = 16;
  pollnval = 32;
  eintr = 4;
}

abbrev no_layout : Layout
no_layout = record {
  storage_size = 4;
  sockaddr_in_size = 2;
  af_inet = 2;
  ss_family = λ s. 2;
  image_in = λ s. s.sin_family ∷ s.s_addr ∷ [];
  members_in = λ bs. record { sin_family = 2; s_addr = 0 };
  htobe32 = λ x. x;
  be32toh = λ x. x;
}

-- Every descriptor is an AF_UNIX one of type 1.
abbrev calls : SocketCalls wire
calls = record {
  layout = no_layout;
  socket = λ domain type protocol k. (answers 5, k);
  getsockopt = λ fd level option len k. ((answers 0, pos 1, 4), k);
  setsockopt = λ fd level option value len k. (answers 0, k);
  getsockname = λ fd size k. ((answers 0, [], 0), k);
  getpeername = λ fd size k. ((answers 0, [], 0), k);
  bind = λ fd address size k. (answers 0, k);
  connect = λ fd address size k. (answers 0, k);
  shutdown = λ fd how k. (answers 0, k);
  recvfrom = λ fd size flags fromlen k.
      (record { result = answers 0; payload = []; source = []; fromlen = 0 }, k);
  sendmsg = λ fd message flags k. (answers 0, k);
  listen = λ fd backlog k. (answers 0, k);
  accept = λ fd k. (answers 6, k);
  af_inet = pos 2;
  af_unix = pos 1;
  sock_stream = pos 1;
  sock_dgram = pos 2;
  sol_socket = pos 1;
  so_domain = pos 39;
  so_type = pos 3;
  so_reuseaddr = pos 2;
  msg_trunc = pos 32;
  shut_rd = pos 0;
  shut_wr = pos 1;
  shut_rdwr = pos 2;
}

abbrev machine : Machine wire
machine = record { kernel = record { to_three = []; to_four = []; closed_fds = [] }; wrappers = [] }

abbrev pair_of_three_and_four : Socketpair wire
pair_of_three_and_four domain type protocol k = ((answers 0, pos 3, pos 4), k)

-- A number that the program has not been given: what is written does not come back.
abbrev wrong_pair : Socketpair wire
wrong_pair domain type protocol k = ((answers 0, pos 3, pos 3), k)

abbrev run : Socketpair wire → Outcome (Unit {0}) × Machine wire
run socketpair = local_pair calls socketpair machine

both_arrive : (run pair_of_three_and_four).0 ≡ returns tt
unfolding local_pair system_call make constructing write int_of_ssize Contents.gather
    BufferViewList.as_iovecs ssize_of_size BufferViewList.size size_add BufferViewList.remove_prefix
    size_of_ssize size_sub read equal_bytes destroy
both_arrive = refl

closed_in_reverse : (run pair_of_three_and_four).1.kernel.closed_fds ≡ pos 3 ∷ pos 4 ∷ []
unfolding local_pair system_call make constructing write int_of_ssize Contents.gather
    BufferViewList.as_iovecs ssize_of_size BufferViewList.size size_add BufferViewList.remove_prefix
    size_of_ssize size_sub read equal_bytes destroy
closed_in_reverse = refl

wrong_data : (run wrong_pair).0 ≡ throws (runtime_error "wrong data received")
unfolding local_pair system_call make constructing write int_of_ssize Contents.gather
    BufferViewList.as_iovecs ssize_of_size BufferViewList.size size_add BufferViewList.remove_prefix
    size_of_ssize size_sub read equal_bytes destroy
wrong_data = refl

-- Every name resolves to one address.
abbrev one_address : Resolver
one_address = record {
  getaddrinfo =
      λ node service flags family. (pos 0, record { ai_addr = 2 ∷ 9 ∷ []; ai_addrlen = 2 } ∷ []);
  getnameinfo = λ address size flags. (pos 0, ([], []));
  ai_all = 16;
  ai_numerichost = 4;
  ai_numericserv = 1024;
  ni_numerichost = 1;
  ni_numericserv = 2;
}

socket_dt-NoneLeft_example :
    Ends
      (λ code m'. NoneLeft (owner_counts machine.wrappers) m'.wrappers)
      (λ m'. ⊥)
      (socket_dt calls one_address 7 8 pair_of_three_and_four machine)
socket_dt-NoneLeft_example = socket_dt-NoneLeft calls one_address 7 8 pair_of_three_and_four machine

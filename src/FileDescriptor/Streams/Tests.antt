-- ===== src/FileDescriptor/Streams/Tests.antt =====
-- A stream that takes two bytes at a time.
use network_project_cs.Common.{
  returns, int_of_ssize, ssize_of_size, size_add, size_of_ssize, size_sub, returns, ℕ, ℤ, pos, ◌≡◌,
  refl, sym, ap, ◌∙◌, List, [], ◌∷◌, ◌++◌, Bytes, min, length, take, drop, take-min,
  take-append-drop, append_assoc, length-take, pos-inj, never_negative, false, arith,
}
use network_project_cs.Common.Actions.{Ends}
use network_project_cs.Buffers.BufferViewList.Contents
use network_project_cs.SystemCall.{Return, system_call}
use network_project_cs.Buffers.BufferViewList
use network_project_cs.FileDescriptor.{read, write}
use network_project_cs.Kernel.{Kernel}
use network_project_cs.Machine.{FdWrapper, Machine}
use network_project_cs.FileDescriptor.Streams.{
  Stream, Transfer, sends, receives, sent_all, transfer_all,
}
use network_project_cs.FileDescriptor.Streams.InOrder.{read_as_written}

-- What has been read, and what is still on the way.
record Line : Type 0 where
  given : Bytes
  on_the_way : Bytes

abbrev answers : ℕ → Return
answers n = record { value = pos n; errno = 0 }

abbrev line : Kernel
line = record {
  State = Line;
  close = λ fd k. (answers 0, k);
  read = λ fd n k. (
    (answers (min n (length k.on_the_way)), take n k.on_the_way),
    record { given = k.given ++ take n k.on_the_way; on_the_way = drop n k.on_the_way },
  );
  writev = λ fd iovs k. (
    answers (min 2 (length (Contents.gather iovs))),
    record k { on_the_way = k.on_the_way ++ take 2 (Contents.gather iovs) },
  );
  fcntl_getfl = λ fd k. (answers 0, k);
  fcntl_setfl = λ fd flags k. (answers 0, k);
  poll = λ fds timeout k. ((answers 0, []), k);
  o_nonblock = 2048;
  pollin = 1;
  pollout = 4;
  pollerr = 8;
  pollhup = 16;
  pollnval = 32;
  eintr = 4;
}

abbrev stream : Stream line (pos 3) (pos 4)
stream = record {
  accepted = λ k. k.given ++ k.on_the_way;
  delivered = λ k. k.given;
  at_most = λ iovs k n e. omega (arith, pos-inj _ n e);
  write_failure = λ iovs k n e. absurd (never_negative _ n e);
  writes = λ iovs k n e. (
    sym (append_assoc k.given k.on_the_way (take 2 (Contents.gather iovs)))
        ∙ ap (λ g. (k.given ++ k.on_the_way) ++ g)
            (sym (take-min 2 (Contents.gather iovs))
              ∙ ap (λ j. take j (Contents.gather iovs)) (pos-inj _ n e)),
    refl,
  );
  reads = λ size k n e. (
    length-take size k.on_the_way ∙ pos-inj _ n e,
    omega (arith, pos-inj _ n e),
    refl,
    append_assoc k.given (take size k.on_the_way) (drop size k.on_the_way)
        ∙ ap (◌++◌ k.given) (take-append-drop size k.on_the_way),
  );
  read_failure = λ size k n e. absurd (never_negative _ n e);
  in_order = λ k. (k.on_the_way, refl);
}

abbrev object : ℤ → FdWrapper
object fd = record {
  fd = fd;
  eof = false;
  closed = false;
  read_count = 0;
  write_count = 0;
  use_count = 1;
}

abbrev machine : Machine line
machine = record {
  kernel = record { given = 1 ∷ []; on_the_way = 2 ∷ [] };
  wrappers = object (pos 3) ∷ object (pos 4) ∷ [];
}

abbrev calls : List Transfer
calls =
    sends (record { views = (3 ∷ 4 ∷ []) ∷ (5 ∷ []) ∷ [] })
    ∷ receives 3
    ∷ sends (record { views = (6 ∷ []) ∷ [] })
    ∷ receives 2
    ∷ []

read_as_written_example :
    Ends
      (λ received m'.
        (left : Bytes) × ((2 ∷ []) ++ sent_all calls ≡ received ++ left)
        × (stream.accepted m'.kernel ≡ stream.delivered m'.kernel ++ left))
      (λ _. Unit {0})
      (transfer_all 0 1 calls machine)
unfolding Contents.flat
read_as_written_example =
    read_as_written stream 0 1 calls (2 ∷ []) machine (omega arith, (tt, (omega arith, (tt, tt))))
      (record { object = object (pos 3); found = refl; owned = λ z. omega arith; number = refl })
      (record { object = object (pos 4); found = refl; owned = λ z. omega arith; number = refl })
      refl

what_is_read : (transfer_all {K = line} 0 1 calls machine).0 ≡ returns (2 ∷ 3 ∷ 4 ∷ 5 ∷ 6 ∷ [])
unfolding transfer_all write system_call int_of_ssize Contents.gather BufferViewList.as_iovecs
    ssize_of_size BufferViewList.size size_add BufferViewList.remove_prefix size_of_ssize size_sub
    read
what_is_read = refl

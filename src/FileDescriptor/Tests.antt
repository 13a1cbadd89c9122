-- ===== src/FileDescriptor/Tests.antt =====
-- Runs of the methods of FileDescriptor on a small kernel.
use network_project_cs.Common.{
  signed, All, take-min, pos-inj, never_negative, false, ◌≤◌, take, ◌∙◌, sym, ap, ℕ, min, ◌≡◌, refl,
  ℤ, pos, negsuc, ◌++◌, List, [], ◌∷◌, Bytes, returns, length, take, drop, arith, true, false, ◌<◌,
  ◌^◌, ◌==◌, if◌then◌else◌, Bool,
}
use network_project_cs.Buffers.BufferViewList
use network_project_cs.Buffers.BufferViewList.{BufferViewList}
use network_project_cs.Buffers.BufferViewList.Contents
use network_project_cs.SystemCall.{Return, system_call}
use network_project_cs.Kernel.{Kernel}
use network_project_cs.Machine.{FdWrapper, Machine}
use network_project_cs.FileDescriptor.{set_blocking, make, close, duplicate, destroy, read, write}
use network_project_cs.FileDescriptor.Handles.{IsLive}
use network_project_cs.FileDescriptor.Flags.{IsWanted, set_blocking-IsWanted}
use network_project_cs.FileDescriptor.History.{IsSound, Later}
use network_project_cs.FileDescriptor.Sequences.{
  Call, construct, closes, destructs, reads, writes, perform_all, perform_all-Later,
  perform_all-IsSound,
}
use network_project_cs.FileDescriptor.Lifetime.{Destroyed, destroy-duplicate, destroy_last}
use network_project_cs.FileDescriptor.Reading.{after_read, read_returns}
use network_project_cs.FileDescriptor.WriteAll.{Ends}
use network_project_cs.FileDescriptor.Sending.{
  write-Ends, WritesInOrder, write_sends_all, write_sends_some,
}

-- One pipe: what has been written, what is there to read, and the numbers that were closed.
record Pipe : Type 0 where
  output : Bytes
  input : Bytes
  closed_fds : List ℤ
  flags : ℕ

abbrev answers : ℕ → Return
answers n = record { value = pos n; errno = 0 }

abbrev is_bad : ℤ → Bool
is_bad (pos n) = n == 9
is_bad (negsuc n) = true

-- A descriptor that takes two bytes at a time; descriptor 9 is bad.
abbrev pipe : Kernel
pipe = record {
  State = Pipe;
  close = λ fd k. (answers 0, record k { closed_fds = fd ∷ k.closed_fds });
  read = λ fd n k. if is_bad fd then ((record { value = negsuc 0; errno = 9 }, []), k) else (
    (answers (min n (length k.input)), take n k.input),
    record k { input = drop n k.input },
  );
  writev = λ fd iovs k. (
    answers (min 2 (length (Contents.gather iovs))),
    record k { output = k.output ++ take 2 (Contents.gather iovs) },
  );
  fcntl_getfl = λ fd k. (answers k.flags, k);
  fcntl_setfl =
      λ fd flags k. (answers 0, record k { flags = elim flags [ pos n ↦ n | negsuc n ↦ 0 ] });
  poll = λ fds timeout k. ((answers 0, []), k);
  o_nonblock = 2048;
  pollin = 1;
  pollout = 4;
  pollerr = 8;
  pollhup = 16;
  pollnval = 32;
  eintr = 4;
}

abbrev object : FdWrapper
object = record {
  fd = pos 3;
  eof = false;
  closed = false;
  read_count = 0;
  write_count = 0;
  use_count = 1;
}

abbrev nine : FdWrapper
nine = record object { fd = pos 9 }

abbrev machine : Machine pipe
machine = record {
  kernel = record { output = 7 ∷ []; input = 5 ∷ 6 ∷ []; closed_fds = []; flags = 2 };
  wrappers = object ∷ nine ∷ [];
}

abbrev three_bytes : BufferViewList
three_bytes = record { views = (1 ∷ []) ∷ (2 ∷ 3 ∷ []) ∷ [] }

abbrev live_three : IsLive {K = pipe} 0 (pos 3) machine
live_three = record { object = object; found = refl; owned = λ z. omega arith; number = refl }

abbrev live_nine : IsLive {K = pipe} 1 (pos 9) machine
live_nine = record { object = nine; found = refl; owned = λ z. omega arith; number = refl }

abbrev in_turn : WritesInOrder pipe
in_turn = record {
  sent = λ fd k. k.output;
  at_most = λ fd iovs k n e. omega (arith, pos-inj _ n e);
  in_order = λ fd iovs k n e. ap (◌++◌ k.output) (
      sym (take-min 2 (Contents.gather iovs))
      ∙ ap (λ j. take j (Contents.gather iovs)) (pos-inj _ n e));
  failure = λ fd iovs k n e. absurd (never_negative _ n e);
}

made_third : (make {K = pipe} (pos 4) machine).0 ≡ returns 2
unfolding make
made_third = refl

closed_twice :
    (close {K = pipe} 0 (close {K = pipe} 0 machine).1).1.kernel.closed_fds ≡ pos 3 ∷ pos 3 ∷ []
unfolding close system_call
closed_twice = refl

closed_once : (destroy {K = pipe} 0 (close {K = pipe} 0 machine).1).1.kernel.closed_fds ≡ pos 3 ∷ []
unfolding close destroy system_call
closed_once = refl

small : length (Contents.contents three_bytes) < 2 ^ 63
small = unfold Contents.flat in omega arith

switched : (set_blocking {K = pipe} 0 false machine).1.kernel.flags ≡ 2050
unfolding set_blocking system_call
switched = refl

switched_back :
    (set_blocking {K = pipe} 0 true (set_blocking {K = pipe} 0 false machine).1).1.kernel.flags ≡ 2
unfolding set_blocking system_call
switched_back = refl

write-Ends_example :
    Ends pipe
      (λ n m'. (n ≡ length (Contents.contents three_bytes)) × IsLive 0 (pos 3) m')
      (write 0 three_bytes true machine)
write-Ends_example = write-Ends pipe 0 (pos 3) three_bytes machine small live_three

destroy-duplicate_example :
    destroy {K = pipe} 0 (duplicate {K = pipe} 0 machine).1 ≡ (returns tt, machine)
destroy-duplicate_example = destroy-duplicate 0 (pos 3) machine live_three

destroy_last_example : Destroyed 1 nine machine (destroy {K = pipe} 1 machine)
destroy_last_example = destroy_last 1 (pos 9) machine live_nine refl

read_returns_example : read {K = pipe} 0 1 machine ≡ (
  returns (5 ∷ []),
  record {
    kernel = record machine.kernel { input = 6 ∷ [] };
    wrappers = after_read 1 1 object ∷ nine ∷ [];
  },
)
read_returns_example = read_returns 0 (pos 3) 1 1 machine live_three refl refl (omega arith)

write_sends_all_example :
    Ends pipe
      (λ n m'.
        (n ≡ length (Contents.contents three_bytes))
        × (m'.kernel.output ≡ (7 ∷ []) ++ Contents.contents three_bytes))
      (write 0 three_bytes true machine)
write_sends_all_example = write_sends_all in_turn 0 (pos 3) three_bytes machine small live_three

write_sends_some_example :
    Ends pipe
      (λ n m'.
        (n ≤ length (Contents.contents three_bytes))
        × (n ≡ 0 → length (Contents.contents three_bytes) ≡ 0)
        × (m'.kernel
            ≡ (pipe.writev (pos 3) (BufferViewList.as_iovecs three_bytes) machine.kernel).1)
        × (m'.kernel.output ≡ (7 ∷ []) ++ take n (Contents.contents three_bytes)))
      (write 0 three_bytes false machine)
write_sends_some_example = write_sends_some in_turn 0 (pos 3) three_bytes machine small live_three

-- A read, a write and a close through one handle; a new object, and the last owner's end.
calls : List (Call Pipe)
calls = reads 0 [] 8 ∷ writes 0 three_bytes true ∷ closes 0 ∷ construct (pos 4) ∷ destructs 0 ∷ []

perform_all-Later_example : Later machine.wrappers (perform_all {K = pipe} calls machine).wrappers
perform_all-Later_example = perform_all-Later {K = pipe} calls machine

object-IsSound : IsSound object
object-IsSound = ((λ c. absurd cc), refl, omega arith, omega arith)

nine-IsSound : IsSound nine
nine-IsSound = ((λ c. absurd cc), refl, omega arith, omega arith)

perform_all-IsSound_example : All IsSound (perform_all {K = pipe} calls machine).wrappers
perform_all-IsSound_example =
    perform_all-IsSound {K = pipe} calls machine (object-IsSound, (nine-IsSound, tt))

set_blocking-IsWanted_example :
    (word : ℕ) × IsWanted 2048 false 2 word
    × (set_blocking {K = pipe} 0 false machine ≡ (
      returns tt,
      record machine {
        kernel = (pipe.fcntl_setfl (pos 3) (signed (2 ^ 31) word) machine.kernel).1;
      },
    ))
set_blocking-IsWanted_example =
    set_blocking-IsWanted 0 (pos 3) false machine live_three 2 refl (omega arith) 0 refl

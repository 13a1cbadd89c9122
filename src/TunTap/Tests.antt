-- ===== src/TunTap/Tests.antt =====
-- A device on a small kernel, whose `ioctl` fails for the descriptor that is opened.
use network_project_cs.Common.{
  ℕ, ◌≡◌, refl, ℤ, pos, negsuc, true, List, [], ◌∷◌, ◌++◌, Bytes, replicate, up_to_nul,
}
use network_project_cs.Common.Actions.{Ends}
use network_project_cs.SystemCall.{Return, system_call}
use network_project_cs.Kernel.{Kernel}
use network_project_cs.Machine.{Machine}
use network_project_cs.FileDescriptor.{new_wrapper, make, destroy}
use network_project_cs.FileDescriptor.Construction.{NothingLost, constructing}
use network_project_cs.TunTap.{TunCalls, device_name, open_device}
use network_project_cs.TunTap.Requests.{NameOf, device_name-NameOf, open_device-Ends}

abbrev answers : ℕ → Return
answers n = record { value = pos n; errno = 0 }

-- The state is the numbers that were closed.
abbrev closing : Kernel
closing = record {
  State = List ℤ;
  close = λ fd k. (answers 0, fd ∷ k);
  read = λ fd n k. ((answers 0, []), k);
  writev = λ fd iovs k. (answers 0, k);
  fcntl_getfl = λ fd k. (answers 0, k);
  fcntl_setfl = λ fd flags k. (answers 0, k);
  poll = λ fds ms k. ((answers 0, []), k);
  o_nonblock = 2048;
  pollin = 1;
  pollout = 4;
  pollerr = 8;
  pollhup = 16;
  pollnval = 32;
  eintr = 4;
}

abbrev no_device : TunCalls closing
no_device = record {
  open_clonedev = λ k. (answers 7, k);
  ioctl_tunsetiff = λ fd ifreq k. (record { value = negsuc 0; errno = 19 }, k);
  iff_tun = 1;
  iff_tap = 2;
  iff_no_pi = 4096;
}

abbrev machine : Machine closing
machine = record { kernel = []; wrappers = [] }

abbrev tun144 : Bytes
tun144 = b't' ∷ b'u' ∷ b'n' ∷ b'1' ∷ b'4' ∷ b'4' ∷ []

named : device_name tun144 ≡ tun144 ++ replicate 10 0
unfolding device_name up_to_nul
named = refl

closed_again : (open_device no_device tun144 true machine).1.kernel ≡ pos 7 ∷ []
unfolding open_device make new_wrapper constructing destroy system_call
closed_again = refl

device_name-NameOf_example : NameOf (up_to_nul tun144) (device_name tun144)
device_name-NameOf_example = device_name-NameOf tun144

open_device-Ends_example :
    Ends
      (λ h m'. (h ≡ 0) × (m'.wrappers ≡ [] ++ new_wrapper (pos 7) ∷ []) × (m'.kernel ≡ []))
      (NothingLost {K = closing} [] (pos 7))
      (open_device no_device tun144 true machine)
open_device-Ends_example = open_device-Ends no_device tun144 true machine

-- ===== src/TunTap.antt =====
-- libsponge/util/tun.hh and tun.cc: descriptors of TUN and TAP devices. A name is its bytes.
pub mod Requests
mod Tests
use Prim.Native.Nat.{bit_or}
use network_project_cs.Common.{
  up_to_nul, ℕ, ◌-◌, ℤ, Bool, true, false, List, [], ◌∷◌, ◌++◌, Bytes, length, take, replicate,
  ◌==◌, if◌then◌else◌,
}
use network_project_cs.SystemCall.{Return}
use network_project_cs.Kernel.{Kernel}
use network_project_cs.Machine.{M, ◌>>=◌, ◌>>◌, pure, call, wrapper}
use network_project_cs.FileDescriptor.{make, checked}
use network_project_cs.FileDescriptor.Construction.{constructing}

-- `struct ifreq`, with the members that are set.
pub record Ifreq : Type 0 where
  pub ifr_name : Bytes
  pub ifr_flags : ℕ

-- The calls that open a device, and the constants of their headers.
pub record TunCalls (K : Kernel) : Type 0 where
  pub open_clonedev : K.State → Return × K.State
  pub ioctl_tunsetiff : (fd : ℤ) → Ifreq → K.State → Return × K.State
  pub iff_tun : ℕ
  pub iff_tap : ℕ
  pub iff_no_pi : ℕ

-- `IFNAMSIZ`, the size of `ifr_name`.
abbrev pub ifnamsiz : ℕ
ifnamsiz = 16

-- What `strncpy` stores of a C string, up to its NUL, with NULs after it.
strncpy : Bytes → ℕ → Bytes
unfolding up_to_nul
strncpy src n = let copied = take n (up_to_nul src) in copied ++ replicate (n - length copied) 0

-- The name in the request: all but the last byte copied, and the last set to NUL.
unfoldable pub device_name : Bytes → Bytes
unfolding strncpy
device_name devname = strncpy devname (ifnamsiz - 1) ++ 0 ∷ []

module _ {K : Kernel} (T : TunCalls K) where
  unfoldable pub request : Bytes → (is_tun : Bool) → Ifreq
  unfolding device_name
  request devname is_tun = record {
    ifr_name = device_name devname;
    ifr_flags = bit_or (if is_tun then T.iff_tun else T.iff_tap) T.iff_no_pi;
  }

  -- The body of the constructor.
  set_interface : ℕ → Bytes → Bool → M K ℕ
  unfolding request
  set_interface h devname is_tun = do
    x ← wrapper h
    r ← call (T.ioctl_tunsetiff x.fd (request devname is_tun))
    value ← checked "ioctl" r
    pure h

  -- `TunTapFD(const std::string &devname, const bool is_tun)`
  unfoldable pub open_device : Bytes → (is_tun : Bool) → M K ℕ
  unfolding set_interface
  open_device devname is_tun = do
    r ← call T.open_clonedev
    fd ← checked "open" r
    h ← make fd
    constructing h (set_interface h devname is_tun)

  -- `TunFD(const std::string &devname)`
  unfoldable pub open_tun : Bytes → M K ℕ
  unfolding open_device
  open_tun devname = open_device devname true

  -- `TapFD(const std::string &devname)`
  unfoldable pub open_tap : Bytes → M K ℕ
  unfolding open_device
  open_tap devname = open_device devname false

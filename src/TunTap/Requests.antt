-- ===== src/TunTap/Requests.antt =====
-- What a device is asked for, and what is left when it cannot be had.
use network_project_cs.Common.{
  up_to_nul, zero, suc, append-nil, ℕ, ◌-◌, ◌≤◌, ◌≡◌, refl, ap, ◌∙◌, inl, inr, Bool, false, [], ◌∷◌,
  ◌++◌, Bytes, length, take, replicate, take_all, get_elem?, some, ◌==◌, arith, length-take,
  length-append, length-replicate, append_assoc, get_elem?-append_last,
}
use network_project_cs.Common.Actions.{Ends}
use network_project_cs.SystemCall.{system_call_cases}
use network_project_cs.FileDescriptor.Construction.{NothingLost, made-Ends, with_new}
use network_project_cs.FileDescriptor.{new_wrapper}
use network_project_cs.TunTap.{open_device}
use network_project_cs.Kernel.{Kernel}
use network_project_cs.Machine.{FdWrapper, Machine}
use network_project_cs.FileDescriptor.{new_wrapper}
use network_project_cs.TunTap.{
  TunCalls, ifnamsiz, up_to_nul, strncpy, device_name, request, set_interface,
}

replicate-append_last : (n : ℕ) → replicate {A = ℕ} n 0 ++ 0 ∷ [] ≡ replicate (suc n) 0
replicate-append_last zero = refl
replicate-append_last (suc n) = ap (◌∷◌ 0) (replicate-append_last n)

-- What `ifr_name` is to hold for the C string `s`.
abbrev pub NameOf : Bytes → Bytes → Type 0
NameOf s name =
    (length name ≡ ifnamsiz)
    × (get_elem? name (ifnamsiz - 1) ≡ some 0)
    × (length s ≤ 15 → name ≡ s ++ replicate (16 - length s) 0)
    × (15 ≤ length s → name ≡ take 15 s ++ 0 ∷ [])

length-strncpy : (src : Bytes) (n : ℕ) → length (strncpy src n) ≡ n
unfolding strncpy
length-strncpy src n =
    let copied = take n (up_to_nul src) in
    omega (
      arith,
      length-append copied (replicate (n - length copied) 0),
      length-replicate {A = ℕ} (n - length copied) 0,
      length-take n (up_to_nul src),
    )

-- Whatever device name is given, the name in the request has 16 bytes and ends in a NUL. The bytes
-- of the given name up to its first NUL are there in full, with NULs after them, if they are at
-- most 15; and otherwise the first 15 of them are.
pub device_name-NameOf : (devname : Bytes) → NameOf (up_to_nul devname) (device_name devname)
unfolding device_name strncpy
device_name-NameOf devname =
    let s = up_to_nul devname in
    let stored = strncpy devname 15 in
    let fifteen : length stored ≡ 15 = length-strncpy devname 15 in
    (
      omega (arith, length-append stored (0 ∷ []), fifteen),
      rw fifteen at (get_elem?-append_last stored 0),
      λ short.
          let whole : take 15 s ≡ s = take_all 15 s short in
          let one_more : suc (15 - length s) ≡ 16 - length s = omega arith in
          ap (λ t. (t ++ replicate (15 - length t) 0) ++ 0 ∷ []) whole
          ∙ append_assoc s (replicate (15 - length s) 0) (0 ∷ [])
          ∙ ap (◌++◌ s) (replicate-append_last (15 - length s) ∙ ap (λ n. replicate n 0) one_more),
      λ long.
          let full : 15 - length (take 15 s) ≡ 0 = omega (arith, length-take 15 s) in
          ap (λ n. (take 15 s ++ replicate n 0) ++ 0 ∷ []) full
          ∙ ap (λ t. t ++ 0 ∷ []) (append-nil (take 15 s)),
    )

module _ {K : Kernel} (T : TunCalls K) where
  set_interface-Ends :
      (h : ℕ) (devname : Bytes) (is_tun : Bool) (m : Machine K) (x : FdWrapper)
      → get_elem? m.wrappers h ≡ some x
      → (x.use_count == 0) ≡ false
      → Ends
          (λ h' m'.
            (h' ≡ h)
            × (m'.wrappers ≡ m.wrappers)
            × (m'.kernel ≡ (T.ioctl_tunsetiff x.fd (request T devname is_tun) m.kernel).1))
          (λ m'. m'.wrappers ≡ m.wrappers)
          (set_interface T h devname is_tun m)
  unfolding set_interface
  set_interface-Ends h devname is_tun m x found owned =
      let r = (T.ioctl_tunsetiff x.fd (request T devname is_tun) m.kernel).0 in
      elim (system_call_cases "ioctl" r.value r.errno 0) [
        | inl (passed, _) ↦ rw (found, owned, passed) (refl, refl, refl)
        | inr (thrown, _, _) ↦ rw (found, owned, thrown) refl
      ]

  -- Whatever the kernel answers, opening a device gives a new object on the descriptor that it
  -- has opened, after it was asked for the device's interface. Or it throws: then the answer to
  -- `open` was negative, so there is no descriptor, and no object has been made; or it was not, and
  -- the object made for it is gone and the last call to the kernel has closed the descriptor. It
  -- never faults.
  pub open_device-Ends :
      (devname : Bytes) (is_tun : Bool) (m : Machine K)
      → (let (answer, k) = T.open_clonedev m.kernel in
          Ends
            (λ h m'.
              (h ≡ length m.wrappers)
              × (m'.wrappers ≡ m.wrappers ++ new_wrapper answer.value ∷ [])
              × (m'.kernel ≡ (T.ioctl_tunsetiff answer.value (request T devname is_tun) k).1))
            (NothingLost m.wrappers answer.value)
            (open_device T devname is_tun m))
  unfolding open_device new_wrapper
  open_device-Ends devname is_tun m =
      let (answer, k) = T.open_clonedev m.kernel in
      elim (system_call_cases "open" answer.value answer.errno 0) [
        | inl (passed, _) ↦ rw passed (
            made-Ends
              (λ h m'.
                (h ≡ length m.wrappers)
                × (m'.wrappers ≡ m.wrappers ++ new_wrapper answer.value ∷ [])
                × (m'.kernel ≡ (T.ioctl_tunsetiff answer.value (request T devname is_tun) k).1))
              answer.value (λ h. set_interface T h devname is_tun) (record m { kernel = k })
              (set_interface-Ends (length m.wrappers) devname is_tun
                (with_new answer.value (record m { kernel = k })) (new_wrapper answer.value)
                (get_elem?-append_last m.wrappers (new_wrapper answer.value)) refl))
        | inr (thrown, failed, _) ↦ rw thrown (inl (failed, refl))
      ]

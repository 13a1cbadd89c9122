-- ===== src/Socket/TcpSocket/Accepting.antt =====
-- `accept`: no descriptor is lost on the way.
use network_project_cs.Common.{
  ℕ, ◌+◌, ◌%◌, ◌^◌, ◌≡◌, inl, inr, refl, ℤ, List, [], ◌∷◌, ◌++◌, get_elem?, some, length,
  get_elem?-append_last, get_elem?-set_self, length_of_some,
}
use network_project_cs.Common.Actions.{Ends}
use network_project_cs.SystemCall.{system_call_cases}
use network_project_cs.Kernel.{Kernel}
use network_project_cs.Machine.{FdWrapper, Machine}
use network_project_cs.FileDescriptor.{new_wrapper}
use network_project_cs.FileDescriptor.Handles.{read_counted, IsLive, not_gone}
use network_project_cs.FileDescriptor.Construction.{NothingLost, made-Ends, with_new}
use network_project_cs.FileDescriptor.Reading.{register_read-eq}
use network_project_cs.Socket.{verify_both, of_descriptor, SocketCalls}
use network_project_cs.Socket.Verifying.{verify_both-Ends, Verified}
use network_project_cs.Socket.TcpSocket.{accepted, accept, tcp_of_descriptor}

module _ {K : Kernel} (S : SocketCalls K) where
  -- A new TCP socket, for a new object on the descriptor.
  abbrev pub NewSocket : List FdWrapper → ℤ → ℕ → Machine K → Type 0
  NewSocket ws fd h m =
      (h ≡ length ws)
      × (m.wrappers ≡ ws ++ new_wrapper fd ∷ [])
      × Verified S fd S.af_inet S.sock_stream

  accepted-Ends :
      (fd : ℤ) (m : Machine K)
      → Ends (NewSocket m.wrappers fd) (NothingLost m.wrappers fd) (accepted S fd m)
  unfolding accepted tcp_of_descriptor of_descriptor new_wrapper
  accepted-Ends fd m =
      made-Ends (NewSocket m.wrappers fd) fd (λ h. verify_both S h S.af_inet S.sock_stream) m
        (verify_both-Ends S (length m.wrappers) S.af_inet S.sock_stream (with_new fd m)
          (new_wrapper fd) (get_elem?-append_last m.wrappers (new_wrapper fd)) refl)

  -- Whatever the kernel answers, `accept` counts a read on the listening socket, and returns a new
  -- socket on a new object for the descriptor that `accept(2)` answered, whose domain and type the
  -- kernel has confirmed. Or it throws: then the answer was negative, so there is no descriptor, and
  -- no object has been made; or it was not, and the object made for it is gone and the last call to
  -- the kernel has closed the descriptor. It never faults.
  pub accept-Ends :
      (h : ℕ) (fd : ℤ) (m : Machine K) (live : IsLive h fd m)
      → (let ws = read_counted h live.object m.wrappers in
          let answer = (S.accept live.object.fd m.kernel).0.value in
          Ends (NewSocket ws answer) (NothingLost ws answer) (accept S h m))
  unfolding accept
  accept-Ends h fd m live =
      let ws = read_counted h live.object m.wrappers in
      let x : FdWrapper = record live.object {
        read_count = (live.object.read_count + 1) % 2 ^ 32;
      } in
      let found : get_elem? ws h ≡ some x =
        get_elem?-set_self m.wrappers h x (length_of_some m.wrappers h live.found) in
      let (answer, k) = S.accept live.object.fd m.kernel in
      elim (system_call_cases "accept" answer.value answer.errno 0) [
        | inl (passed, _) ↦
            rw
              (
                register_read-eq h m live.object live.found live.owned,
                found,
                not_gone h live,
                passed,
              )
              (accepted-Ends answer.value (record { kernel = k; wrappers = ws }))
        | inr (thrown, failed, _) ↦
            rw
              (
                register_read-eq h m live.object live.found live.owned,
                found,
                not_gone h live,
                thrown,
              )
              (inl (failed, refl))
      ]

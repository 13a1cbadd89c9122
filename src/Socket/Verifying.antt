-- ===== src/Socket/Verifying.antt =====
-- Sockets made of a given descriptor: the tests of its domain and type.
use network_project_cs.Common.{
  equal_ℤ-true, List, ℕ, ◌≡◌, inl, inr, refl, ℤ, equal_ℤ, String, false, not, ◌||◌, get_elem?, some,
  ◌==◌, arith, Bool-cases,
}
use network_project_cs.Common.Actions.{pure, ◌>>◌, bind-Ends, Ends}
use network_project_cs.SystemCall.{system_call_cases}
use network_project_cs.FileDescriptor.Construction.{constructing-Ends, Released}
use network_project_cs.Kernel.{Kernel}
use network_project_cs.Machine.{FdWrapper, Machine}
use network_project_cs.Socket.{of_descriptor, verify_both, SocketCalls, sizeof_int, verify}

module _ {K : Kernel} (S : SocketCalls K) where
  -- The kernel has answered that the option has the value.
  abbrev pub Answered : (fd option expected : ℤ) → Type 0
  Answered fd option expected =
      (k : K.State) × ((S.getsockopt fd S.sol_socket option sizeof_int k).0.1 ≡ expected)

  verify-Ends :
      (h : ℕ) (option expected : ℤ) (mismatch : String) (m : Machine K) (x : FdWrapper)
      (ws : List FdWrapper)
      → m.wrappers ≡ ws
      → get_elem? ws h ≡ some x
      → (x.use_count == 0) ≡ false
      → Ends
          (λ _ m'. (m'.wrappers ≡ ws) × Answered x.fd option expected)
          (λ m'. m'.wrappers ≡ ws)
          (verify S h option expected mismatch m)
  unfolding verify
  verify-Ends h option expected mismatch m x ws same found owned =
      let here : get_elem? m.wrappers h ≡ some x = rw same found in
      let (r, actual, len) = (S.getsockopt x.fd S.sol_socket option sizeof_int m.kernel).0 in
      elim (system_call_cases "getsockopt" r.value r.errno 0) [
        | inl (passed, _) ↦
            elim (Bool-cases (not (len == sizeof_int) || not (equal_ℤ actual expected))) [
              | inl wrong ↦ rw (here, owned, passed, wrong) same
              | inr right ↦
                  rw (here, owned, passed, right)
                    (same, (m.kernel, equal_ℤ-true actual expected (ground arith)))
            ]
        | inr (thrown, _, _) ↦ rw (here, owned, thrown) same
      ]

  -- The domain and the type of a descriptor are as the socket's class wants them.
  abbrev pub Verified : (fd domain type : ℤ) → Type 0
  Verified fd domain type = Answered fd S.so_domain domain × Answered fd S.so_type type

  pub verify_both-Ends :
      (h : ℕ) (domain type : ℤ) (m : Machine K) (x : FdWrapper)
      → get_elem? m.wrappers h ≡ some x
      → (x.use_count == 0) ≡ false
      → Ends
          (λ h' m'. (h' ≡ h) × (m'.wrappers ≡ m.wrappers) × Verified x.fd domain type)
          (λ m'. m'.wrappers ≡ m.wrappers)
          (verify_both S h domain type m)
  unfolding verify_both
  verify_both-Ends h domain type m x found owned =
      bind-Ends (λ _ m'. (m'.wrappers ≡ m.wrappers) × Answered x.fd S.so_domain domain)
        (λ h' m'. (h' ≡ h) × (m'.wrappers ≡ m.wrappers) × Verified x.fd domain type)
        (λ m'. m'.wrappers ≡ m.wrappers)
        (λ _. verify S h S.so_type type "socket type mismatch" >> pure h)
        (verify S h S.so_domain domain "socket domain mismatch") m
        (verify-Ends h S.so_domain domain "socket domain mismatch" m x m.wrappers refl found owned)
        (λ _ m' (same, domain_right).
          bind-Ends (λ _ m''. (m''.wrappers ≡ m.wrappers) × Answered x.fd S.so_type type)
            (λ h' m''. (h' ≡ h) × (m''.wrappers ≡ m.wrappers) × Verified x.fd domain type)
            (λ m''. m''.wrappers ≡ m.wrappers) (λ _. pure h)
            (verify S h S.so_type type "socket type mismatch") m'
            (verify-Ends h S.so_type type "socket type mismatch" m' x m.wrappers same found owned)
            (λ _ m'' (same', type_right). (refl, same', (domain_right, type_right))))

  -- A descriptor that is handed to a socket's constructor by its only owner is either a socket of
  -- the domain and type that the class wants, or the constructor throws, and the descriptor has
  -- been closed and its object is gone. No other object changes.
  pub of_descriptor-Ends :
      (h : ℕ) (domain type : ℤ) (m : Machine K) (x : FdWrapper)
      → get_elem? m.wrappers h ≡ some x
      → x.use_count ≡ 1
      → x.closed ≡ false
      → Ends
          (λ h' m'. (h' ≡ h) × (m'.wrappers ≡ m.wrappers) × Verified x.fd domain type)
          (Released h x m)
          (of_descriptor S h domain type m)
  unfolding of_descriptor
  of_descriptor-Ends h domain type m x found last still_open =
      constructing-Ends (λ h' m'. (h' ≡ h) × (m'.wrappers ≡ m.wrappers) × Verified x.fd domain type)
        h (verify_both S h domain type) m x found last still_open
        (verify_both-Ends h domain type m x found (ground (arith, last)))

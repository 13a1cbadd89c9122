-- ===== src/Socket/UdpSocket/Sending.antt =====
-- Datagrams that go out.
use network_project_cs.Common.{
  take_all, get_elem?, some, none, false, IsInt, int_of_ssize-IsInt, int_of_ssize, narrow, inl, inr,
  Bool-cases, ◌==◌, refl, ap, ◌∙◌, ℕ, ◌^◌, ◌≤◌, ◌<◌, ◌≡◌, refl, ap, ◌∙◌, inl, inr, ℤ, pos, negsuc,
  int_of_ssize, size_of_ssize, narrow, Bytes, Option, none, some, false, List, [], ◌∷◌, ◌++◌,
  get_elem?, length, take, take_all, ◌==◌, arith, Bool-cases,
}
use network_project_cs.Common.Actions.{◌>>◌, Ends, bind-Ends}
use network_project_cs.Buffers.BufferViewList
use network_project_cs.Buffers.BufferViewList.{BufferViewList, Iovec}
use network_project_cs.Buffers.BufferViewList.Contents
use network_project_cs.SystemCall.{system_call_cases}
use network_project_cs.Kernel.{Kernel}
use network_project_cs.Machine.{FdWrapper, Machine}
use network_project_cs.FileDescriptor.{register_write}
use network_project_cs.FileDescriptor.Handles.{write_counted, IsLive, not_gone}
use network_project_cs.FileDescriptor.Checking.{size-length}
use network_project_cs.Address.{Address}
use network_project_cs.Socket.{SocketCalls, Msghdr}
use network_project_cs.Socket.UdpSocket.{sendmsg_helper, sendto, send}

-- A datagram that a socket has sent: its destination, if it was named, and its bytes.
pub record Sent : Type 0 where
  pub name : Option Bytes
  pub namelen : ℕ
  pub payload : Bytes

-- What sendmsg(2) documents, with `sent` for the datagrams that have gone out so far: a call that
-- returns a number sends one datagram of so many bytes of the vectors, at most 0x7ffff000; or it
-- returns -1.
pub record SendsDatagrams {K : Kernel} (S : SocketCalls K) : Type 0 where
  pub sent : ℤ → K.State → List Sent
  pub at_most :
      (fd : ℤ) (message : Msghdr) (flags : ℤ) (k : K.State) (n : ℕ)
      → (S.sendmsg fd message flags k).0.value ≡ pos n
      → n ≤ 0x7ffff000
  pub one_more :
      (fd : ℤ) (message : Msghdr) (flags : ℤ) (k : K.State) (n : ℕ)
      → (S.sendmsg fd message flags k).0.value ≡ pos n
      → sent fd (S.sendmsg fd message flags k).1
        ≡ sent fd k
          ++ record {
            name = message.msg_name;
            namelen = message.msg_namelen;
            payload = take n (Contents.gather message.msg_iov);
          }
            ∷ []
  pub failure :
      (fd : ℤ) (message : Msghdr) (flags : ℤ) (k : K.State) (n : ℕ)
      → (S.sendmsg fd message flags k).0.value ≡ negsuc n
      → n ≡ 0

-- As a `size_t`, an `int` is a length of a payload only if it is that length.
size_of_ssize-pos : (z : ℤ) (n : ℕ) → IsInt z → size_of_ssize z ≡ n → n < 2 ^ 63 → z ≡ pos n
unfolding size_of_ssize
size_of_ssize-pos (pos v) n int e small = ap pos (omega arith)
size_of_ssize-pos (negsuc v) n int e small = absurd (omega arith)

module _ {K : Kernel} (S : SocketCalls K) (w : SendsDatagrams S) where
  -- The datagram that is to go out.
  abbrev pub datagram : Option Bytes → ℕ → BufferViewList → Sent
  datagram name namelen payload = record {
    name = name;
    namelen = namelen;
    payload = Contents.contents payload;
  }

  -- One datagram has gone out, and no object has changed.
  abbrev HasSent : ℤ → Option Bytes → ℕ → BufferViewList → Machine K → Machine K → Type 0
  HasSent fd name namelen payload m m' =
      (m'.wrappers ≡ m.wrappers)
      × (w.sent fd m'.kernel ≡ w.sent fd m.kernel ++ datagram name namelen payload ∷ [])

  sendmsg_helper-Ends :
      (fd : ℤ) (name : Option Bytes) (namelen : ℕ) (payload : BufferViewList) (m : Machine K)
      → length (Contents.contents payload) < 2 ^ 63
      → Ends
          (λ _ m'. HasSent fd name namelen payload m m')
          (λ m'. m'.wrappers ≡ m.wrappers)
          (sendmsg_helper S fd name namelen payload m)
  unfolding sendmsg_helper
  sendmsg_helper-Ends fd name namelen payload m small =
      let message : Msghdr = record {
        msg_name = name;
        msg_namelen = namelen;
        msg_iov = BufferViewList.as_iovecs payload;
      } in
      let (r, k) = S.sendmsg fd message (pos 0) m.kernel in
      let z = int_of_ssize r.value in
      elim (system_call_cases "sendmsg" z r.errno 0) [
        | inl (passed, _) ↦ elim (Bool-cases (size_of_ssize z == BufferViewList.size payload)) [
          | inl whole ↦
              let n = length (Contents.contents payload) in
              let count : size_of_ssize z ≡ n = ground (arith, size-length payload (omega arith)) in
              let value : r.value ≡ pos n =
                narrow r.value n (w.at_most fd message (pos 0) m.kernel)
                  (w.failure fd message (pos 0) m.kernel)
                  (size_of_ssize-pos z n (int_of_ssize-IsInt r.value) count small) in
              rw (passed, whole)
                (
                  refl,
                  w.one_more fd message (pos 0) m.kernel n value
                      ∙ ap
                          (λ p.
                            w.sent fd m.kernel
                            ++ record { name = name; namelen = namelen; payload = p } ∷ [])
                          (ap (take n) (Contents.gather-as_iovecs payload)
                            ∙ take_all n (Contents.contents payload) (omega arith)),
                )
          | inr part ↦ rw (passed, part) refl
        ]
        | inr (thrown, _, _) ↦ rw thrown refl
      ]

  abbrev pub Goes : ℕ → FdWrapper → Sent → Machine K → Machine K → Type 0
  Goes h x d m m' =
      (w.sent x.fd m'.kernel ≡ w.sent x.fd m.kernel ++ d ∷ [])
      × (m'.wrappers ≡ write_counted h x m.wrappers)

  counted-Goes :
      (h : ℕ) (x : FdWrapper) (name : Option Bytes) (namelen : ℕ) (payload : BufferViewList)
      (m m' : Machine K)
      → get_elem? m.wrappers h ≡ some x
      → (x.use_count == 0) ≡ false
      → HasSent x.fd name namelen payload m m'
      → Ends
          (λ _ m''. Goes h x (datagram name namelen payload) m m'')
          (λ m''. m''.wrappers ≡ m.wrappers)
          (register_write h m')
  unfolding register_write
  counted-Goes h x name namelen payload m m' found owned (same, gone) =
      let here : get_elem? m'.wrappers h ≡ some x = rw same found in
      rw (here, owned) (gone, ap (write_counted h x) same)

  sent-Goes :
      (h : ℕ) (x : FdWrapper) (name : Option Bytes) (namelen : ℕ) (payload : BufferViewList)
      (m : Machine K)
      → get_elem? m.wrappers h ≡ some x
      → (x.use_count == 0) ≡ false
      → length (Contents.contents payload) < 2 ^ 63
      → Ends
          (λ _ m'. Goes h x (datagram name namelen payload) m m')
          (λ m'. m'.wrappers ≡ m.wrappers)
          ((sendmsg_helper S x.fd name namelen payload >> register_write h) m)
  sent-Goes h x name namelen payload m found owned small =
      bind-Ends (λ _ m'. HasSent x.fd name namelen payload m m')
        (λ _ m'. Goes h x (datagram name namelen payload) m m') (λ m'. m'.wrappers ≡ m.wrappers)
        (λ _. register_write h) (sendmsg_helper S x.fd name namelen payload) m
        (sendmsg_helper-Ends x.fd name namelen payload m small)
        (λ _ m' done. counted-Goes h x name namelen payload m m' found owned done)

  -- On a kernel that does what sendmsg(2) documents: when `sendto` or `send` returns, just one
  -- datagram has gone out, with all bytes of the views in order, to the address that was given or
  -- with none, and one write has been counted; otherwise it throws, and no object has changed.
  pub sendto-Goes :
      (h : ℕ) (fd : ℤ) (destination : Address) (payload : BufferViewList) (m : Machine K)
      (live : IsLive h fd m)
      → length (Contents.contents payload) < 2 ^ 63
      → Ends
          (λ _ m'.
            Goes h live.object (datagram (some destination.storage) destination.size payload) m m')
          (λ m'. m'.wrappers ≡ m.wrappers)
          (sendto S h destination payload m)
        × Ends
            (λ _ m'. Goes h live.object (datagram none 0 payload) m m')
            (λ m'. m'.wrappers ≡ m.wrappers)
            (send S h payload m)
  unfolding sendto send
  sendto-Goes h fd destination payload m live small =
      let x = live.object in
      (
        rw (live.found, not_gone h live)
            (sent-Goes h x (some destination.storage) destination.size payload m live.found
              (not_gone h live) small),
        rw (live.found, not_gone h live)
            (sent-Goes h x none 0 payload m live.found (not_gone h live) small),
      )

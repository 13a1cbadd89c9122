-- ===== src/Socket/UdpSocket/Datagrams.antt =====
-- Datagrams that come and go.
use network_project_cs.Common.{
  length-take, take_all, [], ◌⊎◌, inl, inr, Bool-cases, true, throws, runtime_error, ◌∙◌,
  int_of_ssize_small, ℕ, ◌%◌, ◌^◌, ◌≤◌, ◌<◌, ◌≡◌, refl, ℤ, pos, Bytes, returns, false, ◌++◌,
  get_elem?, some, length, take, drop, replicate, ltb, ◌==◌, arith,
}
use network_project_cs.FileDescriptor.Handles.{read_counted, IsLive, not_gone}
use network_project_cs.FileDescriptor.Resizing.{resized, length-resized}
use network_project_cs.SystemCall.{passes}
use network_project_cs.Socket.UdpSocket.{recv, recv_into}
use network_project_cs.Kernel.{Kernel}
use network_project_cs.Machine.{FdWrapper, Machine}
use network_project_cs.FileDescriptor.{resize, register_read}
use network_project_cs.FileDescriptor.Checking.{ssize-small}
use network_project_cs.FileDescriptor.Resizing.{resized-front}
use network_project_cs.Address.{Address, of_sockaddr}
use network_project_cs.Socket.{SocketCalls, Received}
use network_project_cs.Socket.UdpSocket.{recv_into, recv, take_datagram}

module _ {K : Kernel} (S : SocketCalls K) where
  -- The kernel's answer to the call that `recv` makes.
  abbrev pub received : ℤ → ℕ → Machine K → Received × K.State
  received fd mtu m = S.recvfrom fd mtu S.msg_trunc S.layout.storage_size m.kernel

  -- The address that the kernel has stored.
  abbrev pub source_of : Received → Address
  source_of r = record {
    size = r.fromlen % 2 ^ 32;
    storage = take r.fromlen r.source ++ drop r.fromlen (replicate S.layout.storage_size 0);
  }

  take_datagram-whole :
      (h mtu : ℕ) (datagram rest : Bytes) (r : Received) (m : Machine K) (x : FdWrapper)
      → get_elem? m.wrappers h ≡ some x
      → (x.use_count == 0) ≡ false
      → length datagram ≤ mtu
      → mtu < 2 ^ 63
      → r.fromlen ≤ S.layout.storage_size
      → take_datagram S h mtu (pos (length datagram)) r (take mtu datagram ++ rest) m ≡ (
        returns (record { source_address = source_of r; payload = datagram }),
        record m { wrappers = read_counted h x m.wrappers },
      )
  unfolding take_datagram of_sockaddr resize register_read
  take_datagram-whole h mtu datagram rest r m x found owned fits small source_fits =
      let no_more : ltb mtu (length datagram) ≡ false = ground arith in
      let inside : ltb S.layout.storage_size r.fromlen ≡ false = ground arith in
      rw
        (
          ssize-small mtu small,
          no_more,
          found,
          owned,
          inside,
          resized-front (length datagram) mtu datagram rest refl fits,
        )
        refl

  take_datagram-oversized :
      (h mtu n : ℕ) (r : Received) (payload : Bytes) (m : Machine K)
      → mtu < n
      → mtu < 2 ^ 63
      → take_datagram S h mtu (pos n) r payload m
        ≡ (throws (runtime_error "recvfrom (oversized datagram)"), m)
  unfolding take_datagram
  take_datagram-oversized h mtu n r payload m more small =
      let too_long : ltb mtu n ≡ true = ground arith in rw (ssize-small mtu small, too_long) refl

  -- What recvfrom(2) documents with MSG_TRUNC when `datagram` is the next one: its whole length is
  -- the value, as much of it as fits is stored, and the source's address fits in the storage.
  pub record Receives (fd : ℤ) (mtu : ℕ) (m : Machine K) (datagram : Bytes) : Type 0 where
    pub value : (received fd mtu m).0.result.value ≡ pos (length datagram)
    pub stored : (received fd mtu m).0.payload ≡ take mtu datagram
    pub source_fits : (received fd mtu m).0.fromlen ≤ S.layout.storage_size

  -- What `recv` is to do with a datagram.
  abbrev pub RecvCases : ℕ → ℕ → Bytes → Machine K → FdWrapper → Type 0
  RecvCases h mtu datagram m x =
      ((length datagram ≤ mtu)
        × (recv S h mtu m ≡ (
          returns
              (record { source_address = source_of (received x.fd mtu m).0; payload = datagram }),
          record { kernel = (received x.fd mtu m).1; wrappers = read_counted h x m.wrappers },
        )))
      ⊎ ((mtu < length datagram)
          × (recv S h mtu m ≡ (
            throws (runtime_error "recvfrom (oversized datagram)"),
            record m { kernel = (received x.fd mtu m).1 },
          )))

  -- `recv` up to the answer.
  recv-take_datagram :
      (h mtu : ℕ) (datagram : Bytes) (m : Machine K) (x : FdWrapper)
      → get_elem? m.wrappers h ≡ some x
      → (x.use_count == 0) ≡ false
      → Receives x.fd mtu m datagram
      → length datagram < 2 ^ 31
      → (rest : Bytes) × (recv S h mtu m
          ≡ take_datagram S h mtu
              (pos (length datagram))
              (received x.fd mtu m).0
              (take mtu datagram ++ rest)
              (record m { kernel = (received x.fd mtu m).1 }))
  unfolding recv recv_into of_sockaddr resize
  recv-take_datagram h mtu datagram m x found owned receives short =
      let empty_fits : ltb S.layout.storage_size 0 ≡ false = ground arith in
      let r = (received x.fd mtu m).0 in
      let front : take mtu (take mtu datagram) ≡ take mtu datagram =
        take_all mtu (take mtu datagram) (omega (arith, length-take mtu datagram)) in
      (
        drop (length (take mtu datagram)) (resized mtu []),
        rw
            (
              empty_fits,
              found,
              owned,
              length-resized mtu [],
              receives.value,
              receives.stored,
              front,
              int_of_ssize_small (length datagram) short,
              passes "recvfrom" (length datagram) r.result.errno,
            )
            refl,
      )

  -- When a datagram of any length comes in and the kernel answers as recvfrom(2) documents with
  -- MSG_TRUNC: if it has at most `mtu` bytes, `recv` returns all of it with its source and counts
  -- one read; if it has more, `recv` throws, and no object changes.
  pub recv_cases :
      (h : ℕ) (fd : ℤ) (mtu : ℕ) (datagram : Bytes) (m : Machine K) (live : IsLive h fd m)
      → Receives live.object.fd mtu m datagram
      → length datagram < 2 ^ 31
      → mtu < 2 ^ 63
      → RecvCases h mtu datagram m live.object
  recv_cases h fd mtu datagram m live receives short small =
      let x = live.object in
      let (r, k) = received x.fd mtu m in
      let (rest, taken) =
        recv-take_datagram h mtu datagram m x live.found (not_gone h live) receives short in
      elim (Bool-cases (ltb mtu (length datagram))) [
        | inl more ↦ inr (
          ground arith,
          taken
              ∙ take_datagram-oversized h mtu (length datagram) r (take mtu datagram ++ rest)
                  (record m { kernel = k }) (ground arith) small,
        )
        | inr fits ↦ inl (
          ground arith,
          taken
              ∙ take_datagram-whole h mtu datagram rest r (record m { kernel = k }) x live.found
                  (not_gone h live) (ground arith) small receives.source_fits,
        )
      ]

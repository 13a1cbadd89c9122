-- ===== src/Socket/Registers.antt =====
-- Which of the two counters `shutdown` moves; the event loop reads them to see that a callback has
-- served its descriptor.
use network_project_cs.Common.{
  equal_ℤ-true, set-set, get_elem?-set_self, length_of_some, refl, ap, pos, throws, runtime_error,
  ◌⊎◌, ℕ, ◌+◌, ◌%◌, ◌^◌, ◌≡◌, refl, ap, inl, inr, ◌⊎◌, ℤ, pos, equal_ℤ, Bool, true, false, ◌||◌,
  returns, throws, runtime_error, get_elem?, some, set, set-set, get_elem?-set_self, length_of_some,
  ◌==◌, if◌then◌else◌, arith, Bool-cases,
}
use network_project_cs.SystemCall.{passes}
use network_project_cs.Socket.{shutdown}
use network_project_cs.FileDescriptor.Handles.{IsLive, not_gone}
use network_project_cs.Kernel.{Kernel}
use network_project_cs.Machine.{FdWrapper, Machine}
use network_project_cs.FileDescriptor.{register_read, register_write}
use network_project_cs.FileDescriptor.Handles.{IsLive, not_gone}
use network_project_cs.Socket.{SocketCalls, count_shutdown, shutdown}

module _ {K : Kernel} (S : SocketCalls K) where
  -- The directions that a way of shutting down closes.
  abbrev pub ends_reading : ℤ → Bool
  ends_reading how = equal_ℤ how S.shut_rd || equal_ℤ how S.shut_rdwr

  abbrev pub ends_writing : ℤ → Bool
  ends_writing how = equal_ℤ how S.shut_wr || equal_ℤ how S.shut_rdwr

  abbrev pub count_if : Bool → ℕ → ℕ
  count_if b n = if b then (n + 1) % 2 ^ 32 else n

  abbrev pub after_shutdown : ℤ → FdWrapper → FdWrapper
  after_shutdown how x = record x {
    read_count = count_if (ends_reading how) x.read_count;
    write_count = count_if (ends_writing how) x.write_count;
  }

  -- The headers give the three ways different numbers.
  abbrev pub Distinct : Type 0
  Distinct =
      (equal_ℤ S.shut_rd S.shut_wr ≡ false)
      × (equal_ℤ S.shut_rd S.shut_rdwr ≡ false)
      × (equal_ℤ S.shut_wr S.shut_rdwr ≡ false)

  count_shutdown-eq :
      (h : ℕ) (how : ℤ) (m : Machine K) (x : FdWrapper)
      → get_elem? m.wrappers h ≡ some x
      → (x.use_count == 0) ≡ false
      → Distinct
      → (ends_reading how || ends_writing how) ≡ true
      → count_shutdown S h how m
        ≡ (returns tt, record m { wrappers = set m.wrappers h (after_shutdown how x) })
  unfolding count_shutdown register_read register_write
  count_shutdown-eq h how m x found owned distinct valid =
      elim (Bool-cases (equal_ℤ how S.shut_rd)) [
        | inl rd ↦
            let way : how ≡ S.shut_rd = equal_ℤ-true how S.shut_rd rd in
            let not_wr : equal_ℤ how S.shut_wr ≡ false = rw way distinct.0 in
            let not_rdwr : equal_ℤ how S.shut_rdwr ≡ false = rw way distinct.1 in
            rw (rd, not_wr, not_rdwr, found, owned) refl
        | inr not_rd ↦ elim (Bool-cases (equal_ℤ how S.shut_wr)) [
          | inl wr ↦
              let way : how ≡ S.shut_wr = equal_ℤ-true how S.shut_wr wr in
              let not_rdwr : equal_ℤ how S.shut_rdwr ≡ false = rw way distinct.2 in
              rw (not_rd, wr, not_rdwr, found, owned) refl
          | inr not_wr ↦
              let rdwr : equal_ℤ how S.shut_rdwr ≡ true = ground arith in
              let once : FdWrapper = record x { read_count = (x.read_count + 1) % 2 ^ 32 } in
              rw
                (
                  not_rd,
                  not_wr,
                  rdwr,
                  found,
                  owned,
                  get_elem?-set_self m.wrappers h once (length_of_some m.wrappers h found),
                  owned,
                )
                (ap (λ ws. (returns tt, record m { wrappers = ws }))
                  (set-set m.wrappers h once
                    (record once { write_count = (x.write_count + 1) % 2 ^ 32 })))
        ]
      ]

  count_shutdown-invalid :
      (h : ℕ) (how : ℤ) (m : Machine K)
      → (ends_reading how || ends_writing how) ≡ false
      → count_shutdown S h how m
        ≡ (throws (runtime_error "Socket::shutdown() called with invalid `how`"), m)
  unfolding count_shutdown
  count_shutdown-invalid h how m invalid =
      let not_rd : equal_ℤ how S.shut_rd ≡ false = ground arith in
      let not_wr : equal_ℤ how S.shut_wr ≡ false = ground arith in
      let not_rdwr : equal_ℤ how S.shut_rdwr ≡ false = ground arith in
      rw (not_rd, not_wr, not_rdwr) refl

  -- What `shutdown` is to do once the kernel has shut the socket down.
  abbrev pub ShutdownCases : ℕ → ℤ → Machine K → FdWrapper → Type 0
  ShutdownCases h how m x =
      let k = (S.shutdown x.fd how m.kernel).1 in
      (((ends_reading how || ends_writing how) ≡ true)
        × (shutdown S h how m ≡ (
          returns tt,
          record { kernel = k; wrappers = set m.wrappers h (after_shutdown how x) },
        )))
      ⊎ (((ends_reading how || ends_writing how) ≡ false)
          × (shutdown S h how m ≡ (
            throws (runtime_error "Socket::shutdown() called with invalid `how`"),
            record m { kernel = k },
          )))

  -- When the kernel shuts a socket down, `shutdown` counts a read if reading is over and a write if
  -- writing is over, so both for both; it throws if `how` is none of the three ways, and then no
  -- object changes.
  pub shutdown_cases :
      (h : ℕ) (fd how : ℤ) (m : Machine K) (live : IsLive h fd m) (n : ℕ)
      → Distinct
      → (S.shutdown live.object.fd how m.kernel).0.value ≡ pos n
      → ShutdownCases h how m live.object
  unfolding shutdown
  shutdown_cases h fd how m live n distinct value =
      let x = live.object in
      let (r, k) = S.shutdown x.fd how m.kernel in
      let m' : Machine K = record m { kernel = k } in
      elim (Bool-cases (ends_reading how || ends_writing how)) [
        | inl valid ↦ inl (
          valid,
          rw (live.found, not_gone h live, value, passes "shutdown" n r.errno)
              (count_shutdown-eq h how m' x live.found (not_gone h live) distinct valid),
        )
        | inr invalid ↦ inr (
          invalid,
          rw (live.found, not_gone h live, value, passes "shutdown" n r.errno)
              (count_shutdown-invalid h how m' invalid),
        )
      ]

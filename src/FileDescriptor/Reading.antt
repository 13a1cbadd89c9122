-- ===== src/FileDescriptor/Reading.antt =====
-- What `read` promises its caller.
use network_project_cs.Common.{
  minus_one, length, ◌≤◌, ◌+◌, ◌%◌, ◌^◌, ℕ, zero, suc, min, ◌≡◌, ◌≢◌, refl, ap, sym, ◌∙◌, ℤ, pos,
  negsuc, int_of_ssize_small, inl, inr, Bytes, Outcome, returns, throws, unix_error, get_elem?,
  some, set, arith, false, ◌==◌, ◌&&◌, ◌||◌, ltb, get_elem?-set_self, length_of_some, set-set,
  set-get_elem?, Bool-cases,
}
use network_project_cs.SystemCall.{Return, passes, refused}
use network_project_cs.FileDescriptor.Resizing.{resized, resized-front}
use network_project_cs.Kernel.{Kernel}
use network_project_cs.Machine.{FdWrapper, Machine, ◌>>◌}
use network_project_cs.FileDescriptor.{
  buffer_size, note_eof, finish_read, read_into, read, register_read,
}
use network_project_cs.FileDescriptor.Handles.{IsLive, not_gone}

-- The object after a read of `n` bytes.
abbrev seen : ℕ → ℕ → FdWrapper → FdWrapper
seen limit n x = record x { eof = x.eof || (ltb 0 limit && (n == 0)) }

abbrev pub after_read : ℕ → ℕ → FdWrapper → FdWrapper
after_read limit n x = record x {
  eof = x.eof || (ltb 0 limit && (n == 0));
  read_count = (x.read_count + 1) % 2 ^ 32;
}

seen_nothing :
    (limit n : ℕ) (x : FdWrapper) → (ltb 0 limit && (n == 0)) ≡ false → seen limit n x ≡ x
seen_nothing limit n x e = ground arith

module _ {K : Kernel} where
  unnoted :
      (h limit n : ℕ) (m : Machine K) (x : FdWrapper)
      → get_elem? m.wrappers h ≡ some x
      → (ltb 0 limit && (n == 0)) ≡ false
      → ◌≡◌ {A = Outcome (Unit {0}) × Machine K}
          (returns tt, m)
          (returns tt, record m { wrappers = set m.wrappers h (seen limit n x) })
  unnoted h limit n m x found none = sym (
      ap (λ ws. (returns tt, record m { wrappers = ws }))
        (ap (set m.wrappers h) (seen_nothing limit n x none) ∙ set-get_elem? m.wrappers h found))

  note_eof-eq :
      (h limit n : ℕ) (m : Machine K) (x : FdWrapper)
      → get_elem? m.wrappers h ≡ some x
      → x.use_count ≢ 0
      → note_eof h limit (pos n) m
        ≡ (returns tt, record m { wrappers = set m.wrappers h (seen limit n x) })
  unfolding note_eof
  note_eof-eq h limit zero m x found owned = elim (Bool-cases (ltb 0 limit)) [
    | inl some_wanted ↦ ground arith
    | inr none_wanted ↦
        rw none_wanted (rw none_wanted at (unnoted h limit 0 m x found (ground arith)))
  ]
  note_eof-eq h limit (suc n) m x found owned = unnoted h limit (suc n) m x found (ground arith)

  pub register_read-eq :
      (h : ℕ) (m : Machine K) (x : FdWrapper)
      → get_elem? m.wrappers h ≡ some x
      → x.use_count ≢ 0
      → register_read h m ≡ (
        returns tt,
        record m {
          wrappers = set m.wrappers h (record x { read_count = (x.read_count + 1) % 2 ^ 32 });
        },
      )
  unfolding register_read
  register_read-eq h m x found owned = ground arith

  -- The object behind the handle, and the answer of the kernel to the call.
  abbrev pub answer : ℤ → ℕ → Machine K → (Return × Bytes) × K.State
  answer fd limit m = K.read fd (min buffer_size limit) m.kernel

  finish_read-eq :
      (h size n : ℕ) (str bytes : Bytes) (m : Machine K) (x : FdWrapper)
      → get_elem? m.wrappers h ≡ some x
      → x.use_count ≢ 0
      → n ≤ size
      → resized n str ≡ bytes
      → finish_read h size (pos n) str m ≡ (
        returns bytes,
        record m {
          wrappers = set m.wrappers h (record x { read_count = (x.read_count + 1) % 2 ^ 32 });
        },
      )
  unfolding finish_read
  finish_read-eq h size n str bytes m x found owned le e =
      let fits : ltb size n ≡ false = ground arith in
      rw (fits, e, register_read-eq h m x found owned) refl

  -- From the answer on, with `str` for the buffer that the kernel has written to.
  noted-finished :
      (h limit size n : ℕ) (str bytes : Bytes) (m : Machine K) (x : FdWrapper)
      → get_elem? m.wrappers h ≡ some x
      → x.use_count ≢ 0
      → n ≤ size
      → resized n str ≡ bytes
      → (note_eof h limit (pos n) >> finish_read h size (pos n) str) m
        ≡ (returns bytes, record m { wrappers = set m.wrappers h (after_read limit n x) })
  noted-finished h limit size n str bytes m x found owned le e =
      rw (note_eof-eq h limit n m x found owned) (
        finish_read-eq h size n str bytes _ (seen limit n x)
          (get_elem?-set_self m.wrappers h (seen limit n x) (length_of_some m.wrappers h found))
          owned le e
        ∙ ap (λ ws. (returns bytes, record m { wrappers = ws }))
            (set-set m.wrappers h (seen limit n x) (after_read limit n x)))

  -- When the kernel answers as read(2) documents, with `n` bytes and no more than asked for, `read`
  -- returns just these bytes; it counts one read, and notes the end of the file if bytes were
  -- wanted and none came. Nothing else changes but the kernel.
  pub read_returns :
      (h : ℕ) (fd : ℤ) (limit n : ℕ) (m : Machine K) (live : IsLive h fd m)
      → (answer live.object.fd limit m).0.0.value ≡ pos n
      → length (answer live.object.fd limit m).0.1 ≡ n
      → n ≤ min buffer_size limit
      → read h limit m ≡ (
        returns (answer live.object.fd limit m).0.1,
        record {
          kernel = (answer live.object.fd limit m).1;
          wrappers = set m.wrappers h (after_read limit n live.object);
        },
      )
  unfolding read read_into
  read_returns h fd limit n m live value stored fits =
      rw
        (
          live.found,
          not_gone h live,
          value,
          int_of_ssize_small n (omega arith),
          passes "read" n (answer live.object.fd limit m).0.0.errno,
        )
        (noted-finished h limit (min buffer_size limit) n _ (answer live.object.fd limit m).0.1 _
          live.object live.found live.owned fits
          (resized-front n (min buffer_size limit) (answer live.object.fd limit m).0.1 _ stored
            fits))

  -- When the system call fails with an `errno`, `read` throws it, and no object changes.
  pub read_fails :
      (h : ℕ) (fd : ℤ) (limit : ℕ) (m : Machine K) (live : IsLive h fd m)
      → (answer live.object.fd limit m).0.0.value ≡ negsuc 0
      → (answer live.object.fd limit m).0.0.errno ≢ 0
      → read h limit m ≡ (
        throws (unix_error "read" (answer live.object.fd limit m).0.0.errno),
        record m { kernel = (answer live.object.fd limit m).1 },
      )
  unfolding read read_into
  read_fails h fd limit m live value failed =
      rw
        (
          live.found,
          not_gone h live,
          value,
          minus_one,
          refused "read" (answer live.object.fd limit m).0.0.errno failed,
        )
        refl

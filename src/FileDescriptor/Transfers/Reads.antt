-- ===== src/FileDescriptor/Transfers/Reads.antt =====
-- The steps of `read`.
use network_project_cs.Common.{
  suc, refl, int_of_ssize, min, runtime_error, zero, suc, negsuc, suc, ltb, if◌then◌else◌,
  Bool-cases, ltb_ℤ, inr, pos, Bytes, ℤ, inl, ℕ, List,
}
use network_project_cs.Common.Actions.{◌>>◌, pure, raise}
use network_project_cs.SystemCall.{system_call_cases}
use network_project_cs.Kernel.{Kernel}
use network_project_cs.Machine.{FdWrapper, lift}
use network_project_cs.FileDescriptor.{
  buffer_size, register_read, resize, note_eof, finish_read, read_into,
}
use network_project_cs.FileDescriptor.Steps.{wrapper-cases}
use network_project_cs.FileDescriptor.Transfers.{
  IsStored, Tame, register_read-Tame, bind-Tame, lift-Tame, size_check-Tame,
}

module _ {K : Kernel} (I : List FdWrapper → Type 0) (stored : IsStored I) where
  note_eof-Tame : (h limit : ℕ) (n : ℤ) → Tame {K = K} I stored (note_eof h limit n)
  unfolding note_eof
  note_eof-Tame h limit (pos zero) m since = elim (Bool-cases (ltb 0 limit)) [
    | inl wanted ↦ elim (wrapper-cases h m) [
      | inl (x, found, used) ↦
          rw (wanted, found, used)
            (
              stored m.wrappers h x _ since found (refl, (λ c. c), (λ e. refl), (λ u. u))
                  (λ s. ((λ c. refl), s.1, s.2, s.3)) refl,
              tt,
            )
      | inr gone ↦ rw (wanted, gone) since
    ]
    | inr unwanted ↦ rw unwanted (since, tt)
  ]
  note_eof-Tame h limit (pos (suc n)) m since = (since, tt)
  note_eof-Tame h limit (negsuc n) m since = (since, tt)

  counted-Tame : (h : ℕ) (result : Bytes) → Tame {K = K} I stored (register_read h >> pure result)
  counted-Tame h result =
      bind-Tame I stored (register_read h) (λ counted. pure result) (register_read-Tame I stored h)
        λ counted m since. (since, tt)

  finish_read-Tame :
      (h size : ℕ) (n : ℤ) (str : Bytes) → Tame {K = K} I stored (finish_read h size n str)
  unfolding finish_read
  finish_read-Tame h size n str =
      bind-Tame I stored
        (if ltb_ℤ (pos size) n
          then raise (runtime_error "read() read more than requested")
          else pure tt)
        _ (size_check-Tame I stored (ltb_ℤ (pos size) n) _)
        λ fits.
          bind-Tame I stored (lift (resize n str)) (λ result. register_read h >> pure result)
            (lift-Tame I stored (resize n str)) (counted-Tame h)

  pub read_into-Tame :
      (h : ℕ) (str : Bytes) (limit : ℕ) → Tame {K = K} I stored (read_into h str limit)
  unfolding read_into resize
  read_into-Tame h str limit m since = elim (wrapper-cases h m) [
    | inl (x, found, used) ↦
        let size = min buffer_size limit in
        let answer = K.read x.fd size m.kernel in
        let n = int_of_ssize answer.0.0.value in
        elim (system_call_cases "read" n answer.0.0.errno 0) [
          | inl (passed, _) ↦
              rw (found, used, passed)
                (bind-Tame I stored (note_eof h limit n) _ (note_eof-Tame h limit n)
                  (λ noted. finish_read-Tame h size n _) _ since)
          | inr (thrown, _, _) ↦ rw (found, used, thrown) since
        ]
    | inr gone ↦ rw gone since
  ]

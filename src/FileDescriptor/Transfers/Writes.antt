-- ===== src/FileDescriptor/Transfers/Writes.antt =====
-- The steps of `write`, and `set_blocking`.
use network_project_cs.Common.{
  size_of_ssize, size_add, ssize_of_size, ◌&&◌, ◌==◌, suc, not, int_of_ssize, true, false, zero,
  suc, suc, if◌then◌else◌, Bool-cases, of_result, ltb_ℤ, inr, ℤ, inl, Bool, ℕ, List,
}
use network_project_cs.Common.Actions.{pure}
use network_project_cs.SystemCall.{system_call_cases}
use network_project_cs.Kernel.{Kernel}
use network_project_cs.Machine.{FdWrapper, M, lift}
use network_project_cs.Buffers.BufferViewList
use network_project_cs.Buffers.BufferViewList.{BufferViewList}
use network_project_cs.FileDescriptor.{
  write, length_all, register_write, new_flags, is_zero, after_writev, write_loop, set_blocking,
  write_once, take_written, check_written, remove_written,
}
use network_project_cs.FileDescriptor.Steps.{wrapper-cases}
use network_project_cs.FileDescriptor.Transfers.{
  IsStored, Tame, register_write-Tame, bind-Tame, lift-Tame, size_check-Tame,
}

module _ {K : Kernel} (I : List FdWrapper → Type 0) (stored : IsStored I) where
  check_written-Tame : (n : ℤ) (size : ℕ) → Tame {K = K} I stored (check_written n size)
  unfolding check_written
  check_written-Tame n size m since = elim (Bool-cases (is_zero n && not (size == 0))) [
    | inl nothing ↦ rw nothing since
    | inr some_or_empty ↦
        rw some_or_empty (size_check-Tame I stored (ltb_ℤ (ssize_of_size size) n) _ m since)
  ]

  remove_written-Tame :
      (buffer : BufferViewList) (n : ℕ) → Tame {K = K} I stored (remove_written buffer n)
  unfolding remove_written
  remove_written-Tame buffer n =
      bind-Tame I stored (lift (of_result (BufferViewList.remove_prefix buffer n).0)) _
        (lift-Tame I stored _) λ removed m since. (since, tt)

  take_written-Tame :
      (h : ℕ) (buffer : BufferViewList) (n : ℤ) → Tame {K = K} I stored (take_written h buffer n)
  unfolding take_written
  take_written-Tame h buffer n =
      bind-Tame I stored (check_written n (BufferViewList.size buffer)) _
        (check_written-Tame n (BufferViewList.size buffer))
        λ fits.
          bind-Tame I stored (register_write h) (λ counted. remove_written buffer (size_of_ssize n))
            (register_write-Tame I stored h) λ counted. remove_written-Tame buffer (size_of_ssize n)

  write_once-Tame : (h : ℕ) (buffer : BufferViewList) → Tame {K = K} I stored (write_once h buffer)
  unfolding write_once after_writev
  write_once-Tame h buffer m since = elim (wrapper-cases h m) [
    | inl (x, found, used) ↦
        let answer = K.writev x.fd (BufferViewList.as_iovecs buffer) m.kernel in
        let n = int_of_ssize answer.0.value in
        elim (system_call_cases "writev" n answer.0.errno 0) [
          | inl (passed, _) ↦ rw (found, used, passed) (take_written-Tame h buffer n _ since)
          | inr (thrown, _, _) ↦ rw (found, used, thrown) since
        ]
    | inr gone ↦ rw gone since
  ]

  again-Tame :
      (more : Bool) (again : M K ℕ) (total : ℕ)
      → Tame {K = K} I stored again
      → Tame {K = K} I stored (if more then again else pure total)
  again-Tame true again total tame m since = tame m since
  again-Tame false again total tame m since = (since, tt)

  write_loop-Tame :
      (fuel h : ℕ) (write_all : Bool) (total : ℕ) (buffer : BufferViewList)
      → Tame {K = K} I stored (write_loop fuel h write_all total buffer)
  unfolding write_loop
  write_loop-Tame zero h write_all total buffer m since = since
  write_loop-Tame (suc fuel) h write_all total buffer m since =
      bind-Tame I stored (write_once h buffer) _ (write_once-Tame h buffer)
        (λ (n, rest).
          again-Tame (write_all && not (BufferViewList.size rest == 0)) _ (size_add total n)
            (write_loop-Tame fuel h write_all (size_add total n) rest))
        m since

  pub set_blocking-Tame :
      (h : ℕ) (blocking_state : Bool) → Tame {K = K} I stored (set_blocking h blocking_state)
  unfolding set_blocking
  set_blocking-Tame h blocking_state m since = elim (wrapper-cases h m) [
    | inl (x, found, used) ↦
        let got = K.fcntl_getfl x.fd m.kernel in
        let flags = new_flags K.o_nonblock blocking_state got.0.value in
        let put = K.fcntl_setfl x.fd flags got.1 in
        elim (system_call_cases "fcntl" got.0.value got.0.errno 0) [
          | inl (passed, _) ↦ elim (system_call_cases "fcntl" put.0.value put.0.errno 0) [
            | inl (passed', _) ↦ rw (found, used, passed, passed') (since, tt)
            | inr (thrown, _, _) ↦ rw (found, used, passed, thrown) since
          ]
          | inr (thrown, _, _) ↦ rw (found, used, thrown) since
        ]
    | inr gone ↦ rw gone since
  ]

  pub write-Tame :
      (h : ℕ) (buffer : BufferViewList) (write_all : Bool)
      → Tame {K = K} I stored (write h buffer write_all)
  unfolding write
  write-Tame h buffer write_all =
      write_loop-Tame (suc (length_all buffer.views)) h write_all 0 buffer

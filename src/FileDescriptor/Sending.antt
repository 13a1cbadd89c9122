-- ===== src/FileDescriptor/Sending.antt =====
-- What `write` promises its caller.
use network_project_cs.Common.{
  narrow, false, ℕ, ◌^◌, ◌≤◌, ◌<◌, ◌≡◌, refl, sym, ap, ◌∙◌, ℤ, pos, negsuc, int_of_ssize, ◌++◌,
  true, List, Bytes, length, take, drop, append_assoc, append-nil, take-append-drop,
}
use network_project_cs.Buffers.BufferViewList
use network_project_cs.Buffers.BufferViewList.{BufferViewList, Iovec}
use network_project_cs.Buffers.BufferViewList.Contents
use network_project_cs.FileDescriptor.Handles.{IsLive}
use network_project_cs.Kernel.{Kernel}
use network_project_cs.Machine.{Machine}
use network_project_cs.FileDescriptor.{write}
use network_project_cs.FileDescriptor.WriteAll.{Ends, Ends-mono, write-Done, write-Once}

-- Whatever the kernel answers, `write` of all bytes through a live handle ends: it throws, or it
-- returns the number of bytes of the views. It never runs out of rounds or uses a dead object.
pub write-Ends :
    (K : Kernel) (h : ℕ) (fd : ℤ) (buffer : BufferViewList) (m : Machine K)
    → length (Contents.contents buffer) < 2 ^ 63
    → IsLive h fd m
    → Ends K
        (λ n m'. (n ≡ length (Contents.contents buffer)) × IsLive h fd m')
        (write h buffer true m)
write-Ends K h fd buffer m small live =
    Ends-mono K _ _ (λ n m' d. (d.0, d.1)) (write h buffer true m)
      (write-Done K h fd (λ done left k. Unit {0}) (λ done n b k e le i. tt) buffer m small live tt)

-- What writev(2) documents, with `sent` for the bytes that a descriptor has taken so far: it takes
-- the first bytes of the vectors, as many as it returns and at most 0x7ffff000; or it returns -1.
pub record WritesInOrder (K : Kernel) : Type 0 where
  pub sent : ℤ → K.State → Bytes
  pub at_most :
      (fd : ℤ) (iovs : List Iovec) (k : K.State) (n : ℕ)
      → (K.writev fd iovs k).0.value ≡ pos n
      → n ≤ 0x7ffff000
  pub in_order :
      (fd : ℤ) (iovs : List Iovec) (k : K.State) (n : ℕ)
      → (K.writev fd iovs k).0.value ≡ pos n
      → sent fd (K.writev fd iovs k).1 ≡ sent fd k ++ take n (Contents.gather iovs)
  pub failure :
      (fd : ℤ) (iovs : List Iovec) (k : K.State) (n : ℕ)
      → (K.writev fd iovs k).0.value ≡ negsuc n
      → n ≡ 0

module _ {K : Kernel} (w : WritesInOrder K) where
  open w use {sent, at_most, in_order, failure}

  taken :
      (fd : ℤ) (n : ℕ) (buffer : BufferViewList) (k : K.State)
      → int_of_ssize (K.writev fd (BufferViewList.as_iovecs buffer) k).0.value ≡ pos n
      → sent fd (K.writev fd (BufferViewList.as_iovecs buffer) k).1
        ≡ sent fd k ++ take n (Contents.contents buffer)
  taken fd n buffer k e =
      let iovs = BufferViewList.as_iovecs buffer in
      in_order fd iovs k n
        (narrow (K.writev fd iovs k).0.value n (at_most fd iovs k) (failure fd iovs k) e)
      ∙ ap (λ g. sent fd k ++ take n g) (Contents.gather-as_iovecs buffer)

  -- On a kernel that does what writev(2) documents: when `write` of all bytes returns, the
  -- descriptor has taken all bytes of the views, in order, after those it had taken before, and
  -- their number is returned. Otherwise it throws.
  pub write_sends_all :
      (h : ℕ) (fd : ℤ) (buffer : BufferViewList) (m : Machine K)
      → length (Contents.contents buffer) < 2 ^ 63
      → IsLive h fd m
      → Ends K
          (λ n m'.
            (n ≡ length (Contents.contents buffer))
            × (sent fd m'.kernel ≡ sent fd m.kernel ++ Contents.contents buffer))
          (write h buffer true m)
  write_sends_all h fd buffer m small live =
      Ends-mono K _ _ (λ n m' d. (d.0, sym (append-nil (sent fd m'.kernel)) ∙ d.2))
        (write h buffer true m)
        (write-Done K h fd (λ done left k. sent fd k ++ left ≡ whole) keeps buffer m small live
          refl)
    where
      whole : Bytes
      whole = sent fd m.kernel ++ Contents.contents buffer

      keeps :
          (done n : ℕ) (b : BufferViewList) (k : K.State)
          → int_of_ssize (K.writev fd (BufferViewList.as_iovecs b) k).0.value ≡ pos n
          → n ≤ length (Contents.contents b)
          → sent fd k ++ Contents.contents b ≡ whole
          → sent fd (K.writev fd (BufferViewList.as_iovecs b) k).1 ++ drop n (Contents.contents b)
            ≡ whole
      keeps done n b k e le inv =
          ap (λ s. s ++ drop n (Contents.contents b)) (taken fd n b k e)
          ∙ append_assoc (sent fd k) (take n (Contents.contents b)) (drop n (Contents.contents b))
          ∙ ap (◌++◌ (sent fd k)) (take-append-drop n (Contents.contents b))
          ∙ inv

  -- On a kernel that does what writev(2) documents: when `write` that need not write all bytes
  -- returns `n`, it has made one system call, and the descriptor has taken the first `n` bytes of
  -- the views after those it had taken before; `n` is 0 only for no bytes. Otherwise it throws.
  pub write_sends_some :
      (h : ℕ) (fd : ℤ) (buffer : BufferViewList) (m : Machine K)
      → length (Contents.contents buffer) < 2 ^ 63
      → IsLive h fd m
      → Ends K
          (λ n m'.
            (n ≤ length (Contents.contents buffer))
            × (n ≡ 0 → length (Contents.contents buffer) ≡ 0)
            × (m'.kernel ≡ (K.writev fd (BufferViewList.as_iovecs buffer) m.kernel).1)
            × (sent fd m'.kernel ≡ sent fd m.kernel ++ take n (Contents.contents buffer)))
          (write h buffer false m)
  write_sends_some h fd buffer m small live =
      Ends-mono K _ _
        (λ n m' (le, progress, live', value, kernel).
          (le, progress, kernel, ap (sent fd) kernel ∙ taken fd n buffer m.kernel value))
        (write h buffer false m) (write-Once K h fd buffer m small live)

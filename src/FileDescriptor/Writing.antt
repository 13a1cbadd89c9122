-- ===== src/FileDescriptor/Writing.antt =====
-- One round of the loop of `write`, whatever the kernel answers.
use network_project_cs.Common.{
  int_of_ssize-IsInt, false, ◌-◌, fault, diverges, size_of_ssize, size_of_ssize, int_of_ssize,
  Outcome, ℤ, ℕ, ◌%◌, ◌^◌, ◌≤◌, ◌<◌, ◌≡◌, refl, ◌⊎◌, inl, inr, pos, negsuc, returns, throws,
  Exception, length, drop, ◌==◌, arith,
}
use network_project_cs.Buffers.BufferViewList
use network_project_cs.Buffers.BufferViewList.{BufferViewList}
use network_project_cs.Buffers.BufferViewList.Contents
use network_project_cs.SystemCall.{system_call_cases}
use network_project_cs.FileDescriptor.Handles.{IsLive}
use network_project_cs.Kernel.{Kernel}
use network_project_cs.Machine.{Machine}
use network_project_cs.FileDescriptor.{after_writev, write_once, take_written}
use network_project_cs.FileDescriptor.Checking.{
  after_write, after_write-IsLive, check_written-negsuc, check_written-pos, register_write-eq,
  remove_written-eq, remove_written_throws, size-length, small_word,
}

module _ {K : Kernel} where
  -- The result of a round: it has taken off as many bytes as the kernel says, and none only if
  -- there are none, or it throws. It neither faults nor diverges, and the handle stays good.
  abbrev pub Round :
      ℕ → ℤ → BufferViewList → Machine K → Outcome (ℕ × BufferViewList) × Machine K → Type 0
  Round h fd buffer m (returns (n, rest), m') =
      let answer = K.writev fd (BufferViewList.as_iovecs buffer) m.kernel in
      (n ≤ length (Contents.contents buffer))
      × (Contents.contents rest ≡ drop n (Contents.contents buffer))
      × (n ≡ 0 → length (Contents.contents buffer) ≡ 0)
      × IsLive h fd m'
      × (int_of_ssize answer.0.value ≡ pos n)
      × (m'.kernel ≡ answer.1)
  Round h fd buffer m (throws e, m') = Unit {0}
  Round h fd buffer m (fault, m') = ⊥
  Round h fd buffer m (diverges, m') = ⊥

  module _ (h : ℕ) (fd : ℤ) (buffer : BufferViewList)
      (small : length (Contents.contents buffer) < 2 ^ 63) where
    take_written-pos :
        (n : ℕ) (m : Machine K)
        → n < 2 ^ 31
        → (live : IsLive h fd m)
        → ((rest : BufferViewList) × (take_written h buffer (pos n) m
              ≡ (returns (n, rest), after_write m live))
            × (Contents.contents rest ≡ drop n (Contents.contents buffer))
            × (n ≤ length (Contents.contents buffer))
            × (n ≡ 0 → length (Contents.contents buffer) ≡ 0))
          ⊎ ((e : Exception) × (m' : Machine K) × (take_written h buffer (pos n) m
                ≡ (throws e, m')))
    unfolding take_written size_of_ssize
    take_written-pos n m int live =
        elim (check_written-pos n (BufferViewList.size buffer) m
          (omega (arith, size-length buffer))) [
            | inl (passed, le, progress) ↦
                let same : BufferViewList.size buffer ≡ length (Contents.contents buffer) =
                  size-length buffer (omega arith) in
                let (rest, taken, dropped) =
                  remove_written-eq buffer n (after_write m live) (omega arith) (omega arith) in
                inl (
                  rest,
                  rw (passed, register_write-eq h m live, small_word n int) taken,
                  dropped,
                  omega arith,
                  λ z. omega (arith, progress z),
                )
            | inr (e, thrown) ↦ inr (e, m, rw thrown refl)
          ]

    take_written-negsuc :
        (k : ℕ) (m : Machine K)
        → k < 2 ^ 31
        → IsLive h fd m
        → (e : Exception) × (m' : Machine K) × (take_written h buffer (negsuc k) m ≡ (throws e, m'))
    unfolding take_written size_of_ssize
    take_written-negsuc k m int live =
        elim (check_written-negsuc k (BufferViewList.size buffer) m) [
          | inl passed ↦
              let (e, thrown) =
                remove_written_throws buffer (2 ^ 64 - 1 - k % 2 ^ 64) (after_write m live)
                  (omega arith) (omega arith) in
              (e, after_write m live, rw (passed, register_write-eq h m live) thrown)
          | inr (e, thrown) ↦ (e, m, rw thrown refl)
        ]

    -- The machine after the system call.
    called : Machine K → Machine K
    called m = record m { kernel = (K.writev fd (BufferViewList.as_iovecs buffer) m.kernel).1 }

    called-IsLive : (m : Machine K) → IsLive h fd m → IsLive h fd (called m)
    unfolding called
    called-IsLive m live = record {
      object = live.object;
      found = live.found;
      owned = live.owned;
      number = live.number;
    }

    take_written-Round :
        (z : ℤ) (m : Machine K)
        → int_of_ssize (K.writev fd (BufferViewList.as_iovecs buffer) m.kernel).0.value ≡ z
        → IsLive h fd m
        → Round h fd buffer m (take_written h buffer z (called m))
    unfolding called after_write
    take_written-Round (pos n) m e live =
        elim (take_written-pos n (called m)
          (rw e at
            (int_of_ssize-IsInt (K.writev fd (BufferViewList.as_iovecs buffer) m.kernel).0.value))
          (called-IsLive m live)) [
            | inl (rest, taken, dropped, le, progress) ↦ rw taken (
              le,
              dropped,
              progress,
              after_write-IsLive h (called m) (called-IsLive m live),
              e,
              refl,
            )
            | inr (x, m', thrown) ↦ rw thrown tt
          ]
    take_written-Round (negsuc k) m e live =
        let (x, m', thrown) =
          take_written-negsuc k (called m)
            (rw e at
              (int_of_ssize-IsInt (K.writev fd (BufferViewList.as_iovecs buffer) m.kernel).0.value))
            (called-IsLive m live) in
        rw thrown tt

    after_writev-Round :
        (m : Machine K)
        → IsLive h fd m
        → Round h fd buffer m (
            after_writev h buffer
              (K.writev fd (BufferViewList.as_iovecs buffer) m.kernel).0
              (called m))
    unfolding after_writev
    after_writev-Round m live =
        let answer = (K.writev fd (BufferViewList.as_iovecs buffer) m.kernel).0 in
        elim (system_call_cases "writev" (int_of_ssize answer.value) answer.errno 0) [
          | inl (passed, _) ↦ rw passed (take_written-Round (int_of_ssize answer.value) m refl live)
          | inr (thrown, _, _) ↦ rw thrown tt
        ]

    pub write_once-Round :
        (m : Machine K) → IsLive h fd m → Round h fd buffer m (write_once h buffer m)
    unfolding write_once called
    write_once-Round m live = rw (live.found, not_gone, live.number) (after_writev-Round m live)
      where
        not_gone : (live.object.use_count == 0) ≡ false
        not_gone = ground arith

-- ===== src/FileDescriptor/WriteAll.antt =====
-- The loop of `write`, on every kernel: with all bytes to write it ends and keeps an invariant, and
-- else it is one round.
use network_project_cs.Common.{
  false, size_add_exact, ℕ, zero, suc, ◌+◌, ◌^◌, ◌≤◌, ◌<◌, ◌≡◌, refl, ap, inl, inr, ℤ, pos,
  int_of_ssize, true, [], ◌∷◌, Bytes, Outcome, returns, throws, fault, diverges, length, drop,
  size_mod, size_add, ◌==◌, arith, Bool-cases, length-drop,
}
use network_project_cs.Buffers.BufferViewList
use network_project_cs.Buffers.BufferViewList.{BufferViewList}
use network_project_cs.Buffers.BufferViewList.Contents
use network_project_cs.FileDescriptor.Handles.{IsLive}
use network_project_cs.Kernel.{Kernel}
use network_project_cs.Machine.{Machine}
use network_project_cs.FileDescriptor.{length_all, write, write_loop, write_once}
use network_project_cs.FileDescriptor.Checking.{length_all-flat, size-length}
use network_project_cs.FileDescriptor.Writing.{Round, write_once-Round}

eq_nil : (xs : Bytes) → length xs ≡ 0 → xs ≡ []
eq_nil [] h = refl
eq_nil (x ∷ xs) h = absurd (omega arith)

module _ (K : Kernel) where
  -- An end of `write` that is no fault: a number of bytes, or an exception.
  abbrev pub Ends : (ℕ → Machine K → Type 0) → Outcome ℕ × Machine K → Type 0
  Ends P (returns n, m) = P n m
  Ends P (throws e, m) = Unit {0}
  Ends P (fault, m) = ⊥
  Ends P (diverges, m) = ⊥

  -- `Inv done left k` relates the bytes written, the bytes left and the kernel. A round keeps it.
  module _ (h : ℕ) (fd : ℤ) (Inv : ℕ → Bytes → K.State → Type 0)
      (keep : (done n : ℕ) (buffer : BufferViewList) (k : K.State)
        → int_of_ssize (K.writev fd (BufferViewList.as_iovecs buffer) k).0.value ≡ pos n
        → n ≤ length (Contents.contents buffer)
        → Inv done (Contents.contents buffer) k
        → Inv
            (done + n)
            (drop n (Contents.contents buffer))
            (K.writev fd (BufferViewList.as_iovecs buffer) k).1) where
    abbrev pub Done : ℕ → ℕ → Machine K → Type 0
    Done total n m = (n ≡ total) × IsLive h fd m × Inv total [] m.kernel

    -- What the loop is to do on `fuel`.
    abbrev pub Loops : ℕ → Type 0
    Loops fuel =
        (done total : ℕ) (buffer : BufferViewList) (m : Machine K)
        → done + length (Contents.contents buffer) ≡ total
        → total < 2 ^ 63
        → length (Contents.contents buffer) < fuel
        → IsLive h fd m
        → Inv done (Contents.contents buffer) m.kernel
        → Ends (Done total) (write_loop fuel h true done buffer m)

    -- Nothing is left when the size is 0.
    finished :
        (total : ℕ) (done : ℕ) (rest : BufferViewList) (k : K.State)
        → length (Contents.contents rest) < size_mod
        → (BufferViewList.size rest == 0) ≡ true
        → done + length (Contents.contents rest) ≡ total
        → Inv done (Contents.contents rest) k
        → (done ≡ total) × Inv total [] k
    finished total done rest k small e sum inv =
        let none_left : length (Contents.contents rest) ≡ 0 = ground (arith, size-length rest) in
        let same : done ≡ total = omega arith in
        (same, rw (same, eq_nil (Contents.contents rest) none_left) at inv)

    loop_step :
        (fuel done total : ℕ) (buffer : BufferViewList) (m : Machine K)
        (r : Outcome (ℕ × BufferViewList) × Machine K)
        → Loops fuel
        → done + length (Contents.contents buffer) ≡ total
        → total < 2 ^ 63
        → length (Contents.contents buffer) < suc fuel
        → Inv done (Contents.contents buffer) m.kernel
        → write_once h buffer m ≡ r
        → Round h fd buffer m r
        → Ends (Done total) (write_loop (suc fuel) h true done buffer m)
    unfolding write_loop
    loop_step fuel done total buffer m (returns (n, rest), m') ih sum small enough inv e
          (le, dropped, progress, live', value, kernel) =
        let kept : Inv (done + n) (Contents.contents rest) m'.kernel =
          rw (dropped, kernel) (keep done n buffer m.kernel value le inv) in
        let left : length (Contents.contents rest) + n ≡ length (Contents.contents buffer) =
          omega (arith, ap length dropped, length-drop n (Contents.contents buffer)) in
        let exact : size_add done n ≡ done + n = size_add_exact done n (omega arith) in
        elim (Bool-cases (BufferViewList.size rest == 0)) [
          | inl all_written ↦
              rw (e, all_written, exact)
                (let (same, kept') =
                    finished total (done + n) rest m'.kernel (omega arith) all_written (omega arith)
                      kept in
                  (same, live', kept'))
          | inr some_left ↦
              rw (e, some_left, exact)
                (ih (done + n) total rest m' (omega arith) small (ground (arith, size-length rest))
                  live' kept)
        ]
    loop_step fuel done total buffer m (throws x, m') ih sum small enough inv e round = rw e tt
    loop_step fuel done total buffer m (fault, m') ih sum small enough inv e round = absurd round
    loop_step fuel done total buffer m (diverges, m') ih sum small enough inv e round = absurd round

    pub loop-Loops : (fuel : ℕ) → Loops fuel
    loop-Loops zero done total buffer m sum small enough live inv = absurd (omega arith)
    loop-Loops (suc fuel) done total buffer m sum small enough live inv =
        loop_step fuel done total buffer m (write_once h buffer m) (loop-Loops fuel) sum small
          enough inv refl (write_once-Round h fd buffer (omega arith) m live)

    pub write-Done :
        (buffer : BufferViewList) (m : Machine K)
        → length (Contents.contents buffer) < 2 ^ 63
        → IsLive h fd m
        → Inv 0 (Contents.contents buffer) m.kernel
        → Ends (Done (length (Contents.contents buffer))) (write h buffer true m)
    unfolding write
    write-Done buffer m small live inv =
        loop-Loops (suc (length_all buffer.views)) 0 (length (Contents.contents buffer)) buffer m
          (omega arith) small (omega (arith, length_all-flat buffer.views)) live inv

  -- What one round comes to when not all bytes are asked for.
  abbrev pub Once : ℕ → ℤ → BufferViewList → Machine K → ℕ → Machine K → Type 0
  Once h fd buffer m n m' =
      (n ≤ length (Contents.contents buffer))
      × (n ≡ 0 → length (Contents.contents buffer) ≡ 0)
      × IsLive h fd m'
      × (int_of_ssize (K.writev fd (BufferViewList.as_iovecs buffer) m.kernel).0.value ≡ pos n)
      × (m'.kernel ≡ (K.writev fd (BufferViewList.as_iovecs buffer) m.kernel).1)

  write_single :
      (h : ℕ) (fd : ℤ) (buffer : BufferViewList) (m : Machine K)
      (r : Outcome (ℕ × BufferViewList) × Machine K)
      → length (Contents.contents buffer) < 2 ^ 63
      → write_once h buffer m ≡ r
      → Round h fd buffer m r
      → Ends (Once h fd buffer m) (write h buffer false m)
  unfolding write write_loop
  write_single h fd buffer m (returns (n, rest), m') small e
        (le, dropped, progress, live', value, kernel) =
      let exact : size_add 0 n ≡ n = omega (arith, size_add_exact 0 n (omega arith)) in
      rw (e, exact) (le, progress, live', value, kernel)
  write_single h fd buffer m (throws x, m') small e round = rw e tt
  write_single h fd buffer m (fault, m') small e round = absurd round
  write_single h fd buffer m (diverges, m') small e round = absurd round

  pub write-Once :
      (h : ℕ) (fd : ℤ) (buffer : BufferViewList) (m : Machine K)
      → length (Contents.contents buffer) < 2 ^ 63
      → IsLive h fd m
      → Ends (Once h fd buffer m) (write h buffer false m)
  write-Once h fd buffer m small live =
      write_single h fd buffer m (write_once h buffer m) small refl
        (write_once-Round h fd buffer small m live)

  pub Ends-mono :
      (P Q : ℕ → Machine K → Type 0)
      → ((n : ℕ) (m : Machine K) → P n m → Q n m)
      → (r : Outcome ℕ × Machine K) → Ends P r
      → Ends Q r
  Ends-mono P Q f (returns n, m) e = f n m e
  Ends-mono P Q f (throws x, m) e = tt
  Ends-mono P Q f (fault, m) e = e
  Ends-mono P Q f (diverges, m) e = e

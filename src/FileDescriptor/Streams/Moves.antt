-- ===== src/FileDescriptor/Streams/Moves.antt =====
-- What one call of `write` or `read` at an end of a stream moves.
use network_project_cs.Common.{
  ◌+◌, ℕ, suc, ℤ, pos, negsuc, ◌≡◌, ◌≤◌, ◌<◌, ◌^◌, refl, sym, ap, ◌∙◌, List, [], ◌++◌, Bytes,
  length, take, drop, min, some, get_elem?, true, int_of_ssize, narrow, append-nil, append_assoc,
  take-append-drop, arith, Outcome, returns, throws, fault, diverges,
}
use network_project_cs.Common.Actions.{Ends, Leaves}
use network_project_cs.Buffers.BufferViewList
use network_project_cs.Buffers.BufferViewList.{BufferViewList, Iovec}
use network_project_cs.Buffers.BufferViewList.Contents
use network_project_cs.Kernel.{Kernel}
use network_project_cs.Machine.{Machine}
use network_project_cs.FileDescriptor.{read, write, buffer_size}
use network_project_cs.FileDescriptor.Handles.{IsLive}
use network_project_cs.FileDescriptor.Reading.{answer, read_returns, read_fails}
use network_project_cs.FileDescriptor.Transfers.Reads.{read_into-Tame}
use network_project_cs.FileDescriptor.Transfers.Writes.{write-Tame}
use network_project_cs.FileDescriptor.WriteAll
use network_project_cs.FileDescriptor.Streams.{Stream, tags, tags-found, tags-IsStored}

from_writing :
    {K : Kernel} (P : ℕ → Machine K → Type 0) (r : Outcome ℕ × Machine K)
    → WriteAll.Ends K P r
    → Ends P (λ _. Unit {0}) r
from_writing P (returns n, m) ends = ends
from_writing P (throws e, m) ends = tt
from_writing P (fault, m) ends = ends
from_writing P (diverges, m) ends = ends

join :
    {K : Kernel} {A : Type 0} (P : A → Machine K → Type 0) (I : Machine K → Type 0)
    (r : Outcome A × Machine K)
    → Ends P (λ _. Unit {0}) r
    → Leaves I (λ _. Unit {0}) r
    → Ends (λ n m. P n m × I m) (λ _. Unit {0}) r
join P I (returns n, m) ends leaves = (ends, leaves.0)
join P I (throws e, m) ends leaves = tt
join P I (fault, m) ends leaves = ends
join P I (diverges, m) ends leaves = ends

module _ {K : Kernel} {out inp : ℤ} (stream : Stream K out inp) where
  open stream use {
    accepted, delivered, at_most, write_failure, writes, reads, read_failure, in_order,
  }

  -- What has been delivered and accepted in between.
  abbrev pub Moved : (received sent : Bytes) → Machine K → Machine K → Type 0
  Moved received sent m m' =
      (delivered m'.kernel ≡ delivered m.kernel ++ received)
      × (accepted m'.kernel ≡ accepted m.kernel ++ sent)

  pub Moved-trans :
      (r1 r2 s1 s2 : Bytes) (m m' m'' : Machine K)
      → Moved r1 s1 m m'
      → Moved r2 s2 m' m''
      → Moved (r1 ++ r2) (s1 ++ s2) m m''
  Moved-trans r1 r2 s1 s2 m m' m'' (first_d, first_a) (next_d, next_a) = (
    next_d ∙ ap (λ s. s ++ r2) first_d ∙ append_assoc (delivered m.kernel) r1 r2,
    next_a ∙ ap (λ s. s ++ s2) first_a ∙ append_assoc (accepted m.kernel) s1 s2,
  )

  module _ (ts : List (ℤ × ℕ)) where
    abbrev pub Kept : Machine K → Type 0
    Kept m = tags m.wrappers ≡ ts

    pub live_at :
        (h n : ℕ) (fd : ℤ) (m : Machine K)
        → get_elem? ts h ≡ some (fd, suc n)
        → Kept m
        → IsLive h fd m
    live_at h n fd m there kept =
        let (x, found, same) = tags-found m.wrappers h (ap (λ us. get_elem? us h) kept ∙ there) in
        record {
          object = x;
          found = found;
          owned = λ none. absurd (omega (arith, ap (λ t. t.1) same));
          number = ap (λ t. t.0) same;
        }

    pub write-Moved :
        (h : ℕ) (buffer : BufferViewList) (m : Machine K)
        → length (Contents.contents buffer) < 2 ^ 63
        → IsLive h out m
        → Kept m
        → Ends
            (λ n m'. Moved [] (Contents.contents buffer) m m' × Kept m')
            (λ _. Unit {0})
            (write h buffer true m)
    write-Moved h buffer m small live kept =
        join (λ n m'. Moved [] (Contents.contents buffer) m m') Kept (write h buffer true m)
          (from_writing (λ n m'. Moved [] (Contents.contents buffer) m m') (write h buffer true m)
            (WriteAll.Ends-mono K _ _
              (λ n m' d. (
                d.2.1 ∙ sym (append-nil (delivered m.kernel)),
                sym (append-nil (accepted m'.kernel)) ∙ d.2.0,
              ))
              (write h buffer true m)
              (WriteAll.write-Done K h out Inv keeps buffer m small live (refl, refl))))
          (write-Tame (λ ws. tags ws ≡ ts) (tags-IsStored ts) h buffer true m kept)
      where
        Inv : ℕ → Bytes → K.State → Type 0
        Inv done left k =
            (accepted k ++ left ≡ accepted m.kernel ++ Contents.contents buffer)
            × (delivered k ≡ delivered m.kernel)

        keeps :
            (done n : ℕ) (b : BufferViewList) (k : K.State)
            → int_of_ssize (K.writev out (BufferViewList.as_iovecs b) k).0.value ≡ pos n
            → n ≤ length (Contents.contents b)
            → Inv done (Contents.contents b) k
            → Inv
                (done + n)
                (drop n (Contents.contents b))
                (K.writev out (BufferViewList.as_iovecs b) k).1
        keeps done n b k e le (all, same) =
            let iovs = BufferViewList.as_iovecs b in
            let value =
              narrow (K.writev out iovs k).0.value n (at_most iovs k) (write_failure iovs k) e in
            let (taken, still) = writes iovs k n value in
            (
              ap (λ s. s ++ drop n (Contents.contents b))
                    (taken ∙ ap (λ g. accepted k ++ take n g) (Contents.gather-as_iovecs b))
                  ∙ append_assoc (accepted k) (take n (Contents.contents b))
                      (drop n (Contents.contents b))
                  ∙ ap (◌++◌ (accepted k)) (take-append-drop n (Contents.contents b))
                  ∙ all,
              still ∙ same,
            )

    read_found :
        (h limit : ℕ) (m : Machine K) (live : IsLive h inp m) (z : ℤ)
        → (answer live.object.fd limit m).0.0.value ≡ z
        → Ends (λ str m'. Moved str [] m m') (λ _. Unit {0}) (read h limit m)
    read_found h limit m live (pos n) value =
        let size = min buffer_size limit in
        let (all_stored, fits, given, same) =
          reads size m.kernel n
            (ap (λ fd. (K.read fd size m.kernel).0.0.value) (sym live.number) ∙ value) in
        let number : live.object.fd ≡ inp = live.number in
        rw
          (read_returns h inp limit n m live value
            (ap (λ fd. length (K.read fd size m.kernel).0.1) number ∙ all_stored) fits)
          (
            ap (λ fd. delivered (K.read fd size m.kernel).1) number
                ∙ given
                ∙ ap (λ fd. delivered m.kernel ++ (K.read fd size m.kernel).0.1) (sym number),
            ap (λ fd. accepted (K.read fd size m.kernel).1) number
                ∙ same
                ∙ sym (append-nil (accepted m.kernel)),
          )
    read_found h limit m live (negsuc n) value =
        let size = min buffer_size limit in
        let number : live.object.fd ≡ inp = live.number in
        let (one, failed) =
          read_failure size m.kernel n
            (ap (λ fd. (K.read fd size m.kernel).0.0.value) (sym number) ∙ value) in
        rw
          (read_fails h inp limit m live (value ∙ ap negsuc one)
            (λ none. failed (ap (λ fd. (K.read fd size m.kernel).0.0.errno) (sym number) ∙ none)))
          tt

    pub read-Moved :
        (h limit : ℕ) (m : Machine K)
        → IsLive h inp m
        → Kept m
        → Ends (λ str m'. Moved str [] m m' × Kept m') (λ _. Unit {0}) (read h limit m)
    unfolding read
    read-Moved h limit m live kept =
        join (λ str m'. Moved str [] m m') Kept (read h limit m)
          (read_found h limit m live (answer live.object.fd limit m).0.0.value refl)
          (read_into-Tame (λ ws. tags ws ≡ ts) (tags-IsStored ts) h [] limit m kept)

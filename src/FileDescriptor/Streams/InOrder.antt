-- ===== src/FileDescriptor/Streams/InOrder.antt =====
-- Whatever is written to a stream is read from it, once and in order.
use network_project_cs.Common.{
  ℕ, suc, ℤ, ◌≡◌, ◌≢◌, refl, sym, ap, ap₂, ◌∙◌, List, [], ◌∷◌, ◌++◌, Bytes, some, get_elem?, All,
  true, append-nil, append_assoc, zero,
}
use network_project_cs.Common.Actions.{Ends, bind-Ends, Ends-weaken, ◌>>=◌, pure}
use network_project_cs.Buffers.BufferViewList.Contents
use network_project_cs.Kernel.{Kernel}
use network_project_cs.Machine.{Machine}
use network_project_cs.FileDescriptor.{read, write}
use network_project_cs.FileDescriptor.Handles.{IsLive}
use network_project_cs.FileDescriptor.Streams.{
  Stream, Transfer, sends, receives, IsSmall, sent_all, transfer_all, tags, tags-get_elem?,
  append_cancel,
}
use network_project_cs.FileDescriptor.Streams.Moves.{
  Moved, Moved-trans, Kept, live_at, write-Moved, read-Moved,
}

module _ {K : Kernel} {out inp : ℤ} (stream : Stream K out inp) where
  open stream use {accepted, delivered, in_order}

  module _ (ts : List (ℤ × ℕ)) (h1 h2 n1 n2 : ℕ) (end1 : get_elem? ts h1 ≡ some (out, suc n1))
      (end2 : get_elem? ts h2 ≡ some (inp, suc n2)) where
    transfer_all-Moved :
        (cs : List Transfer) (m : Machine K)
        → All IsSmall cs
        → Kept stream ts m
        → Ends
            (λ received m'. Moved stream received (sent_all cs) m m')
            (λ _. Unit {0})
            (transfer_all h1 h2 cs m)
    unfolding transfer_all
    transfer_all-Moved [] m small kept =
        (sym (append-nil (delivered m.kernel)), sym (append-nil (accepted m.kernel)))
    transfer_all-Moved (sends buffer ∷ cs) m small kept =
        bind-Ends (λ n m'. Moved stream [] (Contents.contents buffer) m m' × Kept stream ts m')
          (λ received m'. Moved stream received (sent_all (sends buffer ∷ cs)) m m') (λ _. Unit {0})
          (λ n. transfer_all h1 h2 cs) (write h1 buffer true) m
          (write-Moved stream ts h1 buffer m small.0 (live_at stream ts h1 n1 out m end1 kept) kept)
          (λ n m' (moved, kept').
            Ends-weaken (λ received m''. Moved stream received (sent_all cs) m' m'')
              (λ received m''. Moved stream received (sent_all (sends buffer ∷ cs)) m m'')
              (λ _. Unit {0}) (λ _. Unit {0})
              (λ received m'' then'.
                Moved-trans stream [] received (Contents.contents buffer) (sent_all cs) m m' m''
                  moved then')
              (λ _ thrown. thrown) (transfer_all h1 h2 cs m')
              (transfer_all-Moved cs m' small.1 kept'))
    transfer_all-Moved (receives limit ∷ cs) m small kept =
        bind-Ends (λ str m'. Moved stream str [] m m' × Kept stream ts m')
          (λ received m'. Moved stream received (sent_all cs) m m') (λ _. Unit {0})
          (λ str. transfer_all h1 h2 cs >>= λ rest. pure (str ++ rest)) (read h2 limit) m
          (read-Moved stream ts h2 limit m (live_at stream ts h2 n2 inp m end2 kept) kept)
          (λ str m' (moved, kept').
            bind-Ends (λ rest m''. Moved stream rest (sent_all cs) m' m'')
              (λ received m''. Moved stream received (sent_all cs) m m'') (λ _. Unit {0})
              (λ rest. pure (str ++ rest)) (transfer_all h1 h2 cs) m'
              (transfer_all-Moved cs m' small.1 kept')
              (λ rest m'' then'. Moved-trans stream str rest [] (sent_all cs) m m' m'' moved then'))

  -- The tag of a live handle.
  tagged :
      (h : ℕ) (fd : ℤ) (m : Machine K)
      → IsLive h fd m
      → (n : ℕ) × (get_elem? (tags m.wrappers) h ≡ some (fd, suc n))
  tagged h fd m live =
      let (n, owners) = owners_of live.object.use_count live.owned in
      (n, tags-get_elem? m.wrappers h live.found ∙ ap₂ (λ i k. some (i, k)) live.number owners)
    where
      owners_of : (k : ℕ) → k ≢ 0 → (n : ℕ) × (k ≡ suc n)
      owners_of zero owned = absurd (owned refl)
      owners_of (suc k) owned = (k, refl)

  -- A stream leads from the descriptor of one live handle to that of another, or of the same. Any
  -- calls of `write`, of all bytes, through the first and of `read` through the second, in any
  -- order, end: with an exception, or with all returning. Then the strings that were read, one after
  -- the other, are the first of the bytes that were on the way at the start and of those written
  -- since, in order, none missing and none twice; the rest are on the way.
  pub read_as_written :
      (h1 h2 : ℕ) (cs : List Transfer) (in_flight : Bytes) (m : Machine K)
      → All IsSmall cs
      → IsLive h1 out m
      → IsLive h2 inp m
      → accepted m.kernel ≡ delivered m.kernel ++ in_flight
      → Ends
          (λ received m'.
            (left : Bytes) × (in_flight ++ sent_all cs ≡ received ++ left)
            × (accepted m'.kernel ≡ delivered m'.kernel ++ left))
          (λ _. Unit {0})
          (transfer_all h1 h2 cs m)
  read_as_written h1 h2 cs in_flight m small live1 live2 start =
      let (n1, end1) = tagged h1 out m live1 in
      let (n2, end2) = tagged h2 inp m live2 in
      Ends-weaken (λ received m'. Moved stream received (sent_all cs) m m')
        (λ received m'.
          (left : Bytes) × (in_flight ++ sent_all cs ≡ received ++ left)
          × (accepted m'.kernel ≡ delivered m'.kernel ++ left))
        (λ _. Unit {0}) (λ _. Unit {0})
        (λ received m' (given, taken).
          let (left, rest) = in_order m'.kernel in
          (
            left,
            append_cancel (delivered m.kernel) (in_flight ++ sent_all cs) (received ++ left) (
                sym (append_assoc (delivered m.kernel) in_flight (sent_all cs))
                ∙ ap (λ s. s ++ sent_all cs) (sym start)
                ∙ sym taken
                ∙ rest
                ∙ ap (λ s. s ++ left) given
                ∙ append_assoc (delivered m.kernel) received left),
            rest,
          ))
        (λ _ thrown. thrown) (transfer_all h1 h2 cs m)
        (transfer_all-Moved (tags m.wrappers) h1 h2 n1 n2 end1 end2 cs m small refl)

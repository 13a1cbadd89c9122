-- ===== src/FileDescriptor/Resizing.antt =====
-- `std::string::resize` on a buffer that the kernel has written to.
use network_project_cs.Common.{
  ℕ, ◌-◌, ◌≤◌, ◌≡◌, ap, ◌∙◌, ◌++◌, Bytes, length, take, replicate, arith, take_all,
  take-append_left, append_assoc, length-take, length-append, length-replicate,
}

-- The string that `resize` leaves.
abbrev pub resized : ℕ → Bytes → Bytes
resized n s = take n (s ++ replicate (n - length s) 0)

-- The front of the caller's buffer is the data.
pub resized-front :
    (n size : ℕ) (bytes rest : Bytes)
    → length bytes ≡ n
    → n ≤ size
    → resized n (take size bytes ++ rest) ≡ bytes
resized-front n size bytes rest e le =
    ap (λ d. resized n (d ++ rest)) (take_all size bytes (omega arith))
    ∙ ap (take n) (append_assoc bytes rest (replicate (n - length (bytes ++ rest)) 0))
    ∙ take-append_left n bytes (rest ++ replicate (n - length (bytes ++ rest)) 0) (omega arith)
    ∙ take_all n bytes (omega arith)

-- The buffer has the size that is asked for.
pub length-resized : (n : ℕ) (s : Bytes) → length (resized n s) ≡ n
length-resized n s = omega (
  arith,
  length-take n (s ++ replicate (n - length s) 0),
  length-append s (replicate (n - length s) 0),
  length-replicate {A = ℕ} (n - length s) 0,
)

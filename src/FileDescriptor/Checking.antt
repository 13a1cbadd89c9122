-- ===== src/FileDescriptor/Checking.antt =====
-- What the loop of `write` does with the number that `writev` returned.
use network_project_cs.Common.{
  ℤ, out_of_range, runtime_error, length_of_some, get_elem?-set_self, ℕ, ◌+◌, ◌%◌, ◌^◌, ◌≤◌, ◌<◌,
  ◌≡◌, refl, ◌⊎◌, inl, inr, pos, negsuc, ltb_ℤ, ssize_of_size, not, ◌&&◌, List, [], ◌∷◌, Bytes,
  returns, throws, Exception, length, set, drop, size_mod, ltb, ◌==◌, arith, Bool-cases,
  length-append,
}
use network_project_cs.Buffers.BufferViewList
use network_project_cs.Buffers.BufferViewList.{BufferViewList}
use network_project_cs.Buffers.BufferViewList.Contents
use network_project_cs.FileDescriptor.Handles.{IsLive}
use network_project_cs.Kernel.{Kernel}
use network_project_cs.Machine.{FdWrapper, Machine}
use network_project_cs.FileDescriptor.{remove_written, check_written, length_all, register_write}

pub length_all-flat : (vs : List Bytes) → length_all vs ≡ length (Contents.flat vs)
unfolding length_all Contents.flat
length_all-flat [] = refl
length_all-flat (v ∷ vs) = omega (arith, length_all-flat vs, length-append v (Contents.flat vs))

pub size-length :
    (buffer : BufferViewList)
    → length (Contents.contents buffer) < size_mod
    → BufferViewList.size buffer ≡ length (Contents.contents buffer)
size-length buffer small = omega (arith, Contents.size-contents buffer)

pub ssize-small : (n : ℕ) → n < 2 ^ 63 → ssize_of_size n ≡ pos n
unfolding ssize_of_size
ssize-small n h = ground arith

pub small_word : (n : ℕ) → n < 2 ^ 31 → n % 2 ^ 64 ≡ n
small_word n h = omega arith

module _ {K : Kernel} where
  -- The object after one more write.
  pub counted : {h : ℕ} {fd : ℤ} (m : Machine K) → IsLive h fd m → FdWrapper
  counted m live = record live.object { write_count = (live.object.write_count + 1) % 2 ^ 32 }

  unfoldable pub after_write : {h : ℕ} {fd : ℤ} (m : Machine K) → IsLive h fd m → Machine K
  unfolding counted
  after_write {h} m live = record m { wrappers = set m.wrappers h (counted m live) }

  pub register_write-eq :
      (h : ℕ) {fd : ℤ} (m : Machine K) (live : IsLive h fd m)
      → register_write h m ≡ (returns tt, after_write m live)
  unfolding register_write after_write
  register_write-eq h m live = ground arith

  pub after_write-IsLive :
      (h : ℕ) {fd : ℤ} (m : Machine K) (live : IsLive h fd m) → IsLive h fd (after_write m live)
  unfolding after_write
  after_write-IsLive h m live = record {
    object = counted m live;
    found =
        get_elem?-set_self m.wrappers h (counted m live) (length_of_some m.wrappers h live.found);
    owned = live.owned;
    number = live.number;
  }

  pub check_written-pos :
      (n size : ℕ) (m : Machine K)
      → size < 2 ^ 63
      → ((check_written (pos n) size m ≡ (returns tt, m)) × (n ≤ size) × (n ≡ 0 → size ≡ 0))
        ⊎ ((e : Exception) × (check_written (pos n) size m ≡ (throws e, m)))
  unfolding check_written
  check_written-pos n size m small = elim (Bool-cases (n == 0 && not (size == 0))) [
    | inl none_written ↦
        inr (runtime_error "write returned 0 given non-empty input buffer", rw none_written refl)
    | inr progress ↦ elim (Bool-cases (ltb size n)) [
      | inl more ↦ inr (
        runtime_error "write wrote more than length of input buffer",
        rw (progress, ssize-small size small, more) refl,
      )
      | inr fits ↦
          inl (rw (progress, ssize-small size small, fits) refl, ground arith, ground arith)
    ]
  ]

  pub check_written-negsuc :
      (k size : ℕ) (m : Machine K)
      → (check_written (negsuc k) size m ≡ (returns tt, m))
        ⊎ ((e : Exception) × (check_written (negsuc k) size m ≡ (throws e, m)))
  unfolding check_written
  check_written-negsuc k size m = elim (Bool-cases (ltb_ℤ (ssize_of_size size) (negsuc k))) [
    | inl more ↦ inr (runtime_error "write wrote more than length of input buffer", rw more refl)
    | inr fits ↦ inl (rw fits refl)
  ]

  pub remove_written-eq :
      (buffer : BufferViewList) (n : ℕ) (m : Machine K)
      → n < size_mod
      → n ≤ length (Contents.contents buffer)
      → (rest : BufferViewList) × (remove_written buffer n m ≡ (returns (n, rest), m))
        × (Contents.contents rest ≡ drop n (Contents.contents buffer))
  unfolding remove_written
  remove_written-eq buffer n m fits le = elim (Contents.remove_prefix_over_views buffer n fits) [
    | inl (ok_le, done, dropped) ↦
        ((BufferViewList.remove_prefix buffer n).1, rw done refl, dropped)
    | inr (lt, thrown, cleared) ↦ absurd (omega arith)
  ]

  pub remove_written_throws :
      (buffer : BufferViewList) (n : ℕ) (m : Machine K)
      → n < size_mod
      → length (Contents.contents buffer) < n
      → (e : Exception) × (remove_written buffer n m ≡ (throws e, m))
  unfolding remove_written
  remove_written_throws buffer n m fits lt =
      elim (Contents.remove_prefix_over_views buffer n fits) [
        | inl (le, done, dropped) ↦ absurd (omega arith)
        | inr (more, thrown, cleared) ↦
            (out_of_range "BufferListView::remove_prefix", rw thrown refl)
      ]

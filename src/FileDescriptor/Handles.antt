-- ===== src/FileDescriptor/Handles.antt =====
-- Handles that are good to use.
use network_project_cs.Common.{
  List, ◌+◌, ◌%◌, ◌^◌, ℕ, ◌≡◌, ◌≢◌, ℤ, some, get_elem?, set, returns, arith, false, ◌==◌,
  get_elem?-set_self, length_of_some,
}
use network_project_cs.Kernel.{Kernel}
use network_project_cs.Machine.{FdWrapper, Machine, wrapper}

-- A handle whose object has not been destroyed, and holds the descriptor number `fd`.
pub record IsLive {K : Kernel} (h : ℕ) (fd : ℤ) (m : Machine K) : Type 0 where
  pub object : FdWrapper
  pub found : get_elem? m.wrappers h ≡ some object
  pub owned : object.use_count ≢ 0
  pub number : object.fd ≡ fd

-- The objects after a read or a write through the handle of `x` has been counted.
abbrev pub read_counted : ℕ → FdWrapper → List FdWrapper → List FdWrapper
read_counted h x ws = set ws h (record x { read_count = (x.read_count + 1) % 2 ^ 32 })

abbrev pub write_counted : ℕ → FdWrapper → List FdWrapper → List FdWrapper
write_counted h x ws = set ws h (record x { write_count = (x.write_count + 1) % 2 ^ 32 })

module _ {K : Kernel} where
  -- The object behind a live handle is found.
  pub wrapper-eq :
      (h : ℕ) {fd : ℤ} (m : Machine K) (live : IsLive h fd m)
      → wrapper h m ≡ (returns live.object, m)
  wrapper-eq h m live = ground arith

  pub not_gone :
      (h : ℕ) {fd : ℤ} {m : Machine K} (live : IsLive h fd m) → (live.object.use_count == 0) ≡ false
  not_gone h live = ground arith

  -- A handle stays live if its object is stored anew with the same number and an owner.
  pub set-IsLive :
      (h : ℕ) {fd : ℤ} (m : Machine K) (x : FdWrapper)
      → IsLive h fd m
      → x.fd ≡ fd
      → x.use_count ≢ 0
      → IsLive h fd (record m { wrappers = set m.wrappers h x })
  set-IsLive h m x live number owned = record {
    object = x;
    found = get_elem?-set_self m.wrappers h x (length_of_some m.wrappers h live.found);
    owned = owned;
    number = number;
  }

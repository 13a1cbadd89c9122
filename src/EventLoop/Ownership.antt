-- ===== src/EventLoop/Ownership.antt =====
-- The rules of an event loop own the objects of their descriptors.
use network_project_cs.Common.{
  if◌then◌else◌, returns, refl, false, ℕ, zero, suc, ◌+◌, ◌-◌, ◌≤◌, ◌≡◌, ◌≢◌, ap, sym, ◌∙◌, inl,
  inr, List, [], ◌∷◌, some, returns, get_elem?, set, length, ◌==◌, if◌then◌else◌, arith, Bool-cases,
  get_elem?-set_self, get_elem?-set_ne, length_of_some,
}
use network_project_cs.Kernel.{Kernel}
use network_project_cs.Machine.{FdWrapper}
use network_project_cs.FileDescriptor.{destroy}
use network_project_cs.FileDescriptor.Lifetime.{destroy-OneOwnerLess}
use network_project_cs.EventLoop.{service_count, is_into, Rule, World, erase}

abbrev holds : ℕ → Rule → ℕ
holds h r = if r.fd == h then 1 else 0

-- The rules that hold the handle `h`.
unfoldable pub owners : ℕ → List Rule → ℕ
owners h [] = 0
owners h (r ∷ rs) = holds h r + owners h rs

owners-get_elem? :
    (rs : List Rule) (i : ℕ) {r : Rule} → get_elem? rs i ≡ some r → owners r.fd rs ≢ 0
unfolding owners
owners-get_elem? [] i e = absurd (ground arith)
owners-get_elem? (x ∷ rs) zero e = ground arith
owners-get_elem? (x ∷ rs) (suc i) e = ground (arith, owners-get_elem? rs i e)

owners-erase :
    (h : ℕ) (rs : List Rule) (i : ℕ) {r : Rule}
    → get_elem? rs i ≡ some r
    → owners h (erase rs i) + holds h r ≡ owners h rs
unfolding owners erase
owners-erase h [] i e = absurd (ground arith)
owners-erase h (x ∷ rs) zero e = ground arith
owners-erase h (x ∷ rs) (suc i) e = omega (arith, owners-erase h rs i e)

pub length-erase :
    (rs : List Rule) (i : ℕ) {r : Rule}
    → get_elem? rs i ≡ some r
    → length (erase rs i) + 1 ≡ length rs
unfolding erase
length-erase [] i e = absurd (ground arith)
length-erase (x ∷ rs) zero e = omega arith
length-erase (x ∷ rs) (suc i) e = omega (arith, length-erase rs i e)

-- Every handle that rules hold leads to an object with at least that many owners.
abbrev pub OwnedBy : List Rule → List FdWrapper → Type 0
OwnedBy rules wrappers =
    (h : ℕ)
    → owners h rules ≢ 0
    → (x : FdWrapper) × (get_elem? wrappers h ≡ some x) × (owners h rules ≤ x.use_count)

module _ {K : Kernel} {S : Type 0} where
  abbrev pub IsOwned : World K S → Type 0
  IsOwned w = OwnedBy w.rules w.machine.wrappers

  -- The object of a rule of the loop is there.
  pub object_of-found :
      (w : World K S) (i : ℕ) (r : Rule)
      → IsOwned w
      → get_elem? w.rules i ≡ some r
      → (x : FdWrapper) × (get_elem? w.machine.wrappers r.fd ≡ some x)
        × ((x.use_count == 0) ≡ false)
  object_of-found w i r owned e =
      let (x, found, le) = owned r.fd (owners-get_elem? w.rules i e) in
      (x, found, ground (arith, owners-get_elem? w.rules i e))

module _ {K : Kernel} {S : Type 0} where
  -- A rule's object can be asked for its count.
  pub service_count-eq :
      (w : World K S) (i : ℕ) (r : Rule)
      → IsOwned w
      → get_elem? w.rules i ≡ some r
      → (n : ℕ) × (service_count r w ≡ (returns n, w))
  unfolding service_count
  service_count-eq w i r owned e =
      let (x, found, used) = object_of-found w i r owned e in
      (if is_into r.direction then x.read_count else x.write_count, rw (found, used) refl)

-- The other owners of an erased rule's object keep it, and no other object is touched.
erase-OwnedBy :
    (rules : List Rule) (ws : List FdWrapper) (i : ℕ) (r : Rule) (x y : FdWrapper)
    → OwnedBy rules ws
    → get_elem? rules i ≡ some r
    → get_elem? ws r.fd ≡ some x
    → y.use_count ≡ x.use_count - 1
    → OwnedBy (erase rules i) (set ws r.fd y)
erase-OwnedBy rules ws i r x y owned e found less h some_owner = elim (Bool-cases (r.fd == h)) [
  | inl same ↦
      let counts : owners h (erase rules i) + 1 ≡ owners h rules =
        rw same at (owners-erase h rules i e) in
      let handle : r.fd ≡ h = ground arith in
      let (x', found', le) = owned h (omega arith) in
      let count : x'.use_count ≡ x.use_count = ground arith in
      (
        y,
        ap (get_elem? (set ws r.fd y)) (sym handle)
            ∙ get_elem?-set_self ws r.fd y (length_of_some ws r.fd found),
        omega arith,
      )
  | inr other ↦
      let counts : owners h (erase rules i) + 0 ≡ owners h rules =
        rw other at (owners-erase h rules i e) in
      let (x', found', le) = owned h (omega arith) in
      (x', get_elem?-set_ne ws r.fd h y (ground arith) ∙ found', omega arith)
]

module _ {K : Kernel} {S : Type 0} where
  -- Destroying the descriptor of an erased rule throws nothing, and the rules that are left own
  -- theirs.
  pub destroy-IsOwned :
      (w : World K S) (i : ℕ) (r : Rule)
      → IsOwned w
      → get_elem? w.rules i ≡ some r
      → ((destroy r.fd w.machine).0 ≡ returns tt)
        × OwnedBy (erase w.rules i) (destroy r.fd w.machine).1.wrappers
  destroy-IsOwned w i r owned e =
      let (x, found, le) = owned r.fd (owners-get_elem? w.rules i e) in
      let used : x.use_count ≢ 0 = ground (arith, owners-get_elem? w.rules i e) in
      let (done, y, stored, less) = destroy-OneOwnerLess r.fd w.machine x found used in
      (done, rw stored (erase-OwnedBy w.rules w.machine.wrappers i r x y owned e found less))
